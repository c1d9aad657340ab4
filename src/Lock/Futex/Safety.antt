-- ===== src/Lock/Futex/Safety.antt =====
-- What the runs of the futex mutex guarantee, and what a signal breaks.
use cpp_cores.Base.{
  ℕ, ◌≡◌, ◌≢◌, refl, sym, ap, ◌∙◌, ◌⊎◌, inl, inr, Bool, true, false, arith, ℕ_discrete,
}
use cpp_cores.Lock.Exclusive.{update, update-cases}
use cpp_cores.Lock.Futex.{
  Thread, System, Step, call_lock, call_try_lock, acted, wait_sleeps, wait_refused, wake_one,
  wake_none, interrupted, Reach, here, later, start, act, move, contended_word,
}
use cpp_cores.Lock.Futex.Moves.{
  owns, sleeps, rouses, Guarded, Inv, Guarded-update, Watched-rouse, quiet-Inv, rouse-Inv,
  sleep-Inv, act-Inv,
}

start-Inv : Inv start
unfolding start
start-Inv = (inl (refl, λ i. refl), λ i asleep. absurd (ground arith))

sleeps-eq : (t : Thread) → sleeps t ≡ true → t ≡ Thread.sleeping
sleeps-eq Thread.sleeping e = refl
sleeps-eq Thread.idle e = absurd (ground arith)
sleeps-eq Thread.locking e = absurd (ground arith)
sleeps-eq Thread.contending e = absurd (ground arith)
sleeps-eq Thread.waiting e = absurd (ground arith)
sleeps-eq Thread.trying e = absurd (ground arith)
sleeps-eq Thread.owner e = absurd (ground arith)
sleeps-eq Thread.waking e = absurd (ground arith)

rouses-eq : (t : Thread) → rouses t ≡ true → (t ≡ Thread.contending) ⊎ (t ≡ Thread.waking)
rouses-eq Thread.contending e = inl refl
rouses-eq Thread.waking e = inr refl
rouses-eq Thread.idle e = absurd (ground arith)
rouses-eq Thread.locking e = absurd (ground arith)
rouses-eq Thread.waiting e = absurd (ground arith)
rouses-eq Thread.sleeping e = absurd (ground arith)
rouses-eq Thread.trying e = absurd (ground arith)
rouses-eq Thread.owner e = absurd (ground arith)

module _ (s : System) (i : ℕ) (v : Inv s) where
  woken-Inv :
      (j : ℕ)
      → s.threads i ≡ Thread.waking
      → s.threads j ≡ Thread.sleeping
      → Inv (move (move s i Thread.idle) j Thread.contending)
  woken-Inv j at asleep =
      let first : Guarded s.word (update s.threads i Thread.idle) =
        Guarded-update s.word s.threads i Thread.idle (ap owns at) refl v.0 in
      let before : owns (update s.threads i Thread.idle j) ≡ false =
        elim (update-cases owns s.threads i Thread.idle j) [
          | inl (same, e) ↦ e
          | inr (ne, e) ↦ e ∙ ap owns asleep
        ] in
      (
        Guarded-update s.word (update s.threads i Thread.idle) j Thread.contending before refl
            first,
        Watched-rouse s.word (update s.threads i Thread.idle) j Thread.contending s.word refl,
      )

  nobody_woken-Inv :
      s.threads i ≡ Thread.waking
      → ((j : ℕ) → s.threads j ≢ Thread.sleeping)
      → Inv (move s i Thread.idle)
  nobody_woken-Inv at awake = (
    Guarded-update s.word s.threads i Thread.idle (ap owns at) refl v.0,
    λ j asleep. elim (update-cases sleeps s.threads i Thread.idle j) [
      | inl (same, e) ↦ let clash : true ≡ false = sym asleep ∙ e in absurd (ground arith)
      | inr (ne, e) ↦ absurd (awake j (sleeps-eq (s.threads j) (sym e ∙ asleep)))
    ],
  )

never : {t : Bool} → t ≡ false → t ≡ true → {A : Type 0} → A
never e e' = let clash : true ≡ false = sym e' ∙ e in absurd (ground arith)

module _ (Interrupts : Type 0) (calm : ¬ Interrupts) where
  Step-Inv : {s t : System} → Step Interrupts s t → Inv s → Inv t
  Step-Inv {s} (call_lock i at) v =
      quiet-Inv s i v Thread.locking (ap owns at) refl (ap rouses at) (λ e. never refl e)
  Step-Inv {s} (call_try_lock i at) v =
      quiet-Inv s i v Thread.trying (ap owns at) refl (ap rouses at) (λ e. never refl e)
  Step-Inv {s} (acted i) v = act-Inv s i v (s.threads i) refl
  Step-Inv {s} (wait_sleeps i at full) v = sleep-Inv s i v (ap owns at) full
  Step-Inv {s} (wait_refused i at ne) v = rouse-Inv s i v Thread.contending (ap owns at) refl refl
  Step-Inv {s} (wake_one i j at asleep) v = woken-Inv s i v j at asleep
  Step-Inv {s} (wake_none i at awake) v = nobody_woken-Inv s i v at awake
  Step-Inv {s} (interrupted signal i at) v = absurd (calm signal)

  Reach-Inv : {s : System} → Reach Interrupts start s → Inv s
  Reach-Inv here = start-Inv
  Reach-Inv (later r step) = Step-Inv step (Reach-Inv r)

  -- If no wait is ended by a signal, two threads that own the mutex are the same thread, in every
  -- reachable state.
  pub mutual_exclusion :
      {s : System}
      → Reach Interrupts start s
      → (i j : ℕ) → s.threads i ≡ Thread.owner
      → s.threads j ≡ Thread.owner
      → i ≡ j
  mutual_exclusion r i j at_i at_j = elim (Reach-Inv r).0 [
    | inl (free, nobody) ↦ never (nobody i) (ap owns at_i)
    | inr (locked, (k, at, only)) ↦ only i (ap owns at_i) ∙ sym (only j (ap owns at_j))
  ]

  -- If no wait is ended by a signal, then in every reachable state with a sleeping thread the word is the
  -- contended one, whose unlock wakes a thread, or another thread is about to wake one or to set that
  -- word: no sleeper is forgotten.
  pub no_lost_wakeup :
      {s : System}
      → Reach Interrupts start s
      → (i : ℕ) → s.threads i ≡ Thread.sleeping
      → (s.word ≡ contended_word)
        ⊎ ((j : ℕ) × ((s.threads j ≡ Thread.contending) ⊎ (s.threads j ≡ Thread.waking)))
  no_lost_wakeup r i at = elim ((Reach-Inv r).1 i (ap sleeps at)) [
    | inl full ↦ inl full
    | inr (j, rouser) ↦ inr (j, rouses-eq _ rouser)
  ]

-- Where a signal may end a wait, a state is reachable in which two different threads own the mutex.
pub interrupted_breaks :
    (Interrupts : Type 0)
    → Interrupts
    → (s : System) × Reach Interrupts start s
      × (s.threads 0 ≡ Thread.owner)
      × (s.threads 1 ≡ Thread.owner)
unfolding start act ℕ_discrete
interrupted_breaks Interrupts signal =
    let first = later (later here (call_lock 0 refl)) (acted 0) in
    let second = later (later (later first (call_lock 1 refl)) (acted 1)) (acted 1) in
    (_, later (later second (wait_sleeps 1 refl refl)) (interrupted signal 1 refl), refl, refl)
