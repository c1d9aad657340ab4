-- ===== src/Lock/Posix.antt =====
-- `try_lock` of the wrappers of pthread: `MutexBase` (src/concurrent/mutex.h), `PosixSpinLock`
-- (src/concurrent/spinlock.h) and `PosixRWLock` (src/concurrent/rwlock.h). The pthread calls are
-- parameters: from a lock they give the code returned and the lock afterwards.
pub mod Results
mod Tests
use cpp_cores.Base.{ℕ, Bool, true, false, not, ◌==◌, if◌then◌else◌}

-- A pthread lock, and the owner field of `PosixSpinLock`.
pub record Spin (L : Type 0) : Type 0 where
  pub lock : L
  pub owner : ℕ

module _ {L : Type 0} (trylock : L → ℕ × L) where
  pub mutex_try_lock : L → Bool × L
  mutex_try_lock l = let (code, l') = trylock l in (code == 0, l')

  -- `me` is `ThisThread::GetId()`.
  pub spin_try_lock : ℕ → Spin L → Bool × Spin L
  spin_try_lock me s =
      let (code, l') = trylock s.lock in
      if not (code == 0)
      then (true, record { lock = l'; owner = me })
      else (false, record { lock = l'; owner = s.owner })

  -- `busy` is `EBUSY`.
  pub rwlock_try_lock : ℕ → L → Bool × L
  rwlock_try_lock busy l =
      let (code, l') = trylock l in if code == busy then (false, l') else (true, l')

  pub rwlock_try_lock_shared : L → Bool × L
  rwlock_try_lock_shared l = let (code, l') = trylock l in (not (code == 0), l')
