-- ===== src/Lock/Futex/Tests.antt =====
-- The theorems on the futex mutex at states where a thread owns it and another one sleeps.
use cpp_cores.Base.{ℕ, ◌<◌, ◌≡◌, ◌⊎◌, refl, arith, ℕ_discrete}
use cpp_cores.Lock.Futex.{
  Thread, System, Reach, here, later, call_lock, acted, wait_sleeps, start, act, contended_word,
}
use cpp_cores.Lock.Futex.Safety.{mutual_exclusion, no_lost_wakeup}

-- No signal at all.
abbrev Never : Type 0
Never = 1 < 0

calm : ¬ Never
calm = λ e. absurd (omega arith)

-- Thread 0 has locked, and thread 1 has gone to sleep.
contended :
    (s : System) × Reach Never start s
    × (s.threads 0 ≡ Thread.owner)
    × (s.threads 1 ≡ Thread.sleeping)
unfolding start act ℕ_discrete
contended =
    let first = later (later here (call_lock 0 refl)) (acted 0) in
    let second = later (later (later first (call_lock 1 refl)) (acted 1)) (acted 1) in
    (_, later second (wait_sleeps 1 refl refl), refl, refl)

abbrev thread : ℕ
thread = 0

mutual_exclusion_example : thread ≡ thread
mutual_exclusion_example =
    mutual_exclusion Never calm contended.1 thread thread contended.2 contended.2

no_lost_wakeup_example :
    (contended.0.word ≡ contended_word)
    ⊎ ((j : ℕ) × ((contended.0.threads j ≡ Thread.contending)
          ⊎ (contended.0.threads j ≡ Thread.waking)))
no_lost_wakeup_example = no_lost_wakeup Never calm contended.1 1 contended.3
