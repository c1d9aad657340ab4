-- ===== src/Lock/Posix/Results.antt =====
-- Which of the wrappers report what pthread reports.
use cpp_cores.Base.{
  ℕ, ◌≡◌, ◌≢◌, refl, Bool, true, false, not, ◌==◌, if◌then◌else◌, arith, Bool-cases, inl, inr,
}
use cpp_cores.Lock.Posix.{mutex_try_lock, spin_try_lock, rwlock_try_lock, rwlock_try_lock_shared}

-- POSIX: a try call returns 0 when it takes the lock, and `EBUSY`, which is not 0, when it does not.
pub record Documented {L : Type 0} (trylock : L → ℕ × L) (available : L → Bool) (busy : ℕ)
    : Type 0 where
  pub nonzero : busy ≢ 0
  pub answer : (l : L) → (trylock l).0 ≡ (if available l then 0 else busy)

-- For try calls that answer as POSIX says, `try_lock` of `MutexBase` and of `PosixRWLock` return true
-- exactly when the lock is taken, and `try_lock` of `PosixSpinLock` and `try_lock_shared` of
-- `PosixRWLock` return the opposite.
pub try_lock_results :
    {L : Type 0} (trylock : L → ℕ × L) (available : L → Bool) (busy : ℕ)
    → Documented trylock available busy
    → (l : L) (me owner : ℕ)
    → ((mutex_try_lock trylock l).0 ≡ available l)
      × ((rwlock_try_lock trylock busy l).0 ≡ available l)
      × ((spin_try_lock trylock me (record { lock = l; owner = owner })).0 ≡ not (available l))
      × ((rwlock_try_lock_shared trylock l).0 ≡ not (available l))
unfolding mutex_try_lock spin_try_lock rwlock_try_lock rwlock_try_lock_shared
try_lock_results trylock available busy posix l me owner =
    let apart = posix.nonzero in
    elim (Bool-cases (available l)) [
      | inl free ↦
          let other : (0 == busy) ≡ false = ground arith in
          rw (posix.answer l, free, other) (refl, refl, refl, refl)
      | inr taken ↦
          let other : (busy == 0) ≡ false = ground arith in
          let same : (busy == busy) ≡ true = ground arith in
          rw (posix.answer l, taken, other, same) (refl, refl, refl, refl)
    ]
