-- ===== src/Lock/Spin/Tests.antt =====
-- The theorem on spin locks at a state where a thread has taken the lock.
use cpp_cores.Base.{ℕ, ◌≡◌, refl, true, ℕ_discrete}
use cpp_cores.Lock.Spin.{Kind, Thread, System, Reach, here, later, call_lock, acted, start, act}
use cpp_cores.Lock.Spin.Safety.{one_owner}

-- Thread 0 has locked, and thread 1 has found the flag set.
held :
    (s : System) × Reach Kind.atomic_spin_lock start s
    × (s.threads 0 ≡ Thread.owner)
    × (s.threads 1 ≡ Thread.watching)
unfolding start act ℕ_discrete
held = (
  _,
  later (later (later (later here (call_lock 0 refl)) (acted 0)) (call_lock 1 refl)) (acted 1),
  refl,
  refl,
)

abbrev thread : ℕ
thread = 0

one_owner_example : (thread ≡ thread) × (held.0.flag ≡ true)
one_owner_example = one_owner Kind.atomic_spin_lock held.1 thread thread held.2 held.2
