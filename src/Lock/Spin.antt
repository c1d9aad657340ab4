-- ===== src/Lock/Spin.antt =====
-- src/concurrent/spinlock.h: `SimpleSpinLock` and `AtomicSpinLock`, one access to the flag at a time.
-- They differ in what a thread does after a failed exchange: it exchanges again, or it first reads the
-- flag until it is clear.
pub mod Safety
mod Tests
use cpp_cores.Base.{ℕ, ◌≡◌, Bool, true, false, if◌then◌else◌}
use cpp_cores.Lock.Exclusive.{update}

pub data Kind : Type 0 where
  simple_spin_lock : Kind
  atomic_spin_lock : Kind

-- An `owner` is between a `lock` that has returned, or a `try_lock` that has returned true, and its
-- `unlock`.
pub data Thread : Type 0 where
  idle : Thread
  spinning : Thread
  watching : Thread
  trying : Thread
  owner : Thread

pub record System : Type 0 where
  pub flag : Bool
  pub threads : ℕ → Thread

-- Where a failed exchange leads in the loop of `lock`.
abbrev pub busy : Kind → Thread
busy Kind.simple_spin_lock = Thread.spinning
busy Kind.atomic_spin_lock = Thread.watching

-- The next access: the exchange of `lock`, the load of its inner loop, the exchange of `try_lock`, and
-- the store of `unlock`.
pub act : Kind → Thread → Bool → Thread × Bool
act kind Thread.spinning flag = (if flag then busy kind else Thread.owner, true)
act kind Thread.watching flag = (if flag then Thread.watching else Thread.spinning, flag)
act kind Thread.trying flag = (if flag then Thread.idle else Thread.owner, true)
act kind Thread.owner flag = (Thread.idle, false)
act kind Thread.idle flag = (Thread.idle, flag)

abbrev pub apply : System → ℕ → Thread × Bool → System
apply s i (t, flag) = record { flag = flag; threads = update s.threads i t }

module _ (kind : Kind) where
  -- Any thread may move at any time; an idle one may call.
  pub data Step (s : System) : System → Type 0 where
    call_lock : (i : ℕ) → s.threads i ≡ Thread.idle → Step s (apply s i (Thread.spinning, s.flag))
    call_try_lock : (i : ℕ) → s.threads i ≡ Thread.idle → Step s (apply s i (Thread.trying, s.flag))
    acted : (i : ℕ) → Step s (apply s i (act kind (s.threads i) s.flag))

  pub data Reach (s : System) : System → Type 0 where
    here : Reach s s
    later : {t u : System} → Reach s t → Step t u → Reach s u

pub start : System
start = record { flag = false; threads = λ i. Thread.idle }
