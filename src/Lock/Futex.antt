-- ===== src/Lock/Futex.antt =====
-- src/concurrent/mutex.h and src/concurrent/mutex.cc: `FastPthreadMutex` and the `MutexInternal` view
-- of its word, whose lowest byte is `locked` and whose next byte is `contended`. `act` is the next
-- access of a thread to the word. The futex calls of src/concurrent/sys_futex.h are the kernel's: what
-- they do to a thread is the `Step`s that begin with `wait` and `wake`, and `interrupted`, a wait that a
-- signal ends with EINTR, which may happen in runs where `Interrupts` holds.
mod Moves
pub mod Safety
mod Tests
use cpp_cores.Base.{ℕ, ◌+◌, ◌-◌, ◌%◌, ◌≡◌, ◌≢◌, Bool, true, false, bit_and, ◌==◌, if◌then◌else◌}
use cpp_cores.Lock.Exclusive.{update}

abbrev pub contended_word : ℕ
contended_word = 257

abbrev pub locked_word : ℕ
locked_word = 1

-- Where a thread stands. An `owner` is between a `lock` that has returned, or a `try_lock` that has
-- returned true, and its `unlock`.
pub data Thread : Type 0 where
  idle : Thread
  locking : Thread
  contending : Thread
  waiting : Thread
  sleeping : Thread
  trying : Thread
  owner : Thread
  waking : Thread

pub record System : Type 0 where
  pub word : ℕ
  pub threads : ℕ → Thread

-- `split->locked.exchange(1)`: the word after it.
abbrev pub lock_byte : ℕ → ℕ
lock_byte word = word - word % 256 + 1

-- The accesses to the word. In `lock_contended` the exchange sets both bytes; in `unlock` it clears
-- them, and a word other than `BTHREAD_MUTEX_LOCKED` calls for a wake.
pub act : Thread → ℕ → Thread × ℕ
act Thread.locking word =
    (if word % 256 == 0 then Thread.owner else Thread.contending, lock_byte word)
act Thread.contending word =
    (if bit_and word locked_word == 0 then Thread.owner else Thread.waiting, contended_word)
act Thread.trying word = (if word % 256 == 0 then Thread.owner else Thread.idle, lock_byte word)
act Thread.owner word = (if word == locked_word then Thread.idle else Thread.waking, 0)
act Thread.idle word = (Thread.idle, word)
act Thread.waiting word = (Thread.waiting, word)
act Thread.sleeping word = (Thread.sleeping, word)
act Thread.waking word = (Thread.waking, word)

abbrev pub move : System → ℕ → Thread → System
move s i t = record s { threads = update s.threads i t }

abbrev pub apply : System → ℕ → Thread × ℕ → System
apply s i (t, word) = record { word = word; threads = update s.threads i t }

module _ (Interrupts : Type 0) where
  -- Any thread may move at any time. `futex_wait` puts a thread to sleep only while the word is the
  -- expected one, and fails with EWOULDBLOCK otherwise; `futex_wake` wakes one sleeper, if there is
  -- one, which goes round the loop. After EINTR `lock_contended` returns, and `lock` ignores its result.
  pub data Step (s : System) : System → Type 0 where
    call_lock : (i : ℕ) → s.threads i ≡ Thread.idle → Step s (move s i Thread.locking)
    call_try_lock : (i : ℕ) → s.threads i ≡ Thread.idle → Step s (move s i Thread.trying)
    acted : (i : ℕ) → Step s (apply s i (act (s.threads i) s.word))
    wait_sleeps :
        (i : ℕ)
        → s.threads i ≡ Thread.waiting
        → s.word ≡ contended_word
        → Step s (move s i Thread.sleeping)
    wait_refused :
        (i : ℕ)
        → s.threads i ≡ Thread.waiting
        → s.word ≢ contended_word
        → Step s (move s i Thread.contending)
    wake_one :
        (i j : ℕ)
        → s.threads i ≡ Thread.waking
        → s.threads j ≡ Thread.sleeping
        → Step s (move (move s i Thread.idle) j Thread.contending)
    wake_none :
        (i : ℕ)
        → s.threads i ≡ Thread.waking
        → ((j : ℕ) → s.threads j ≢ Thread.sleeping)
        → Step s (move s i Thread.idle)
    interrupted :
        Interrupts → (i : ℕ) → s.threads i ≡ Thread.sleeping → Step s (move s i Thread.owner)

  pub data Reach (s : System) : System → Type 0 where
    here : Reach s s
    later : {t u : System} → Reach s t → Step t u → Reach s u

pub start : System
start = record { word = 0; threads = λ i. Thread.idle }
