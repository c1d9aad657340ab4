-- ===== src/Thread/Simple.antt =====
-- src/concurrent/thread_pool.h and src/concurrent/thread_pool.cc: `SimpleThreadPool`. A task is a number. A
-- step is what a thread does while it holds `queueMutex`, a call of the condition variable, or the run of a
-- task. `condition.wait` tests its predicate and falls asleep under the mutex; a sleeping worker tests again
-- when it has been notified, or without a reason.
pub mod Awake
pub mod Order
mod Tests
use cpp_cores.Base.{
  ℕ, ◌≡◌, Bool, true, false, ◌||◌, List, [], ◌∷◌, ◌++◌, not, if◌then◌else◌, suc, ◌<◌,
}
use cpp_cores.Lock.Exclusive.{update}

-- Where a worker is: before a test of the predicate, asleep in the wait, in a task, or past its loop.
pub data Worker : Type 0 where
  waiting : Worker
  sleeping : Worker
  busy : (task : ℕ) → Worker
  ended : Worker

-- `to_notify` counts the calls of `enqueue` that have left the mutex and not yet called `notify_one`, and
-- `to_notify_all` says so of the destructor and `notify_all`. `enqueued`, `started` and `finished` record what was given to the pool, taken and run, in order.
pub record System : Type 0 where
  pub num_threads : ℕ
  pub workers : ℕ → Worker
  pub tasks : List ℕ
  pub stop : Bool
  pub to_notify : ℕ
  pub to_notify_all : Bool
  pub enqueued : List ℕ
  pub started : List ℕ
  pub finished : List ℕ

pub start : ℕ → System
start n = record {
  num_threads = n;
  workers = λ i. Worker.waiting;
  tasks = [];
  stop = false;
  to_notify = 0;
  to_notify_all = false;
  enqueued = [];
  started = [];
  finished = [];
}

pub enqueue : ℕ → System → System
enqueue f s = record s {
  tasks = s.tasks ++ f ∷ [];
  to_notify = suc s.to_notify;
  enqueued = s.enqueued ++ f ∷ [];
}

-- The predicate of the wait.
pub ready : System → Bool
ready s = s.stop || elim s.tasks [ [] ↦ false | t ∷ ts ↦ true ]

-- `task = std::move(tasks.front()); tasks.pop();`. The second wait is for an empty queue, which the first
-- excludes.
pub take_front : ℕ → List ℕ → System → System
take_front i [] s = s
take_front i (t ∷ ts) s = record s {
  workers = update s.workers i (Worker.busy t);
  tasks = ts;
  started = s.started ++ t ∷ [];
}

-- What a worker does after the wait, while it holds the mutex.
pub take_task : ℕ → System → System
take_task i s =
    if s.stop
    then record s { workers = update s.workers i Worker.ended }
    else take_front i s.tasks s

pub run_task : ℕ → ℕ → System → System
run_task i t s = record s {
  workers = update s.workers i Worker.waiting;
  finished = s.finished ++ t ∷ [];
}

-- The start of the destructor.
pub set_stop : System → System
set_stop s = record s { stop = true; to_notify_all = true }

-- `notify_one`, of which worker `i` is the one that wakes.
pub notify_one : ℕ → ℕ → System → System
notify_one k i s = record s { to_notify = k; workers = update s.workers i Worker.waiting }

-- `notify_one` where nobody sleeps.
pub notify_none : ℕ → System → System
notify_none k s = record s { to_notify = k }

abbrev pub wake : Worker → Worker
wake Worker.waiting = Worker.waiting
wake Worker.sleeping = Worker.waiting
wake (Worker.busy t) = Worker.busy t
wake Worker.ended = Worker.ended

pub notify_all : System → System
notify_all s = record s { to_notify_all = false; workers = λ i. wake (s.workers i) }

pub fall_asleep : ℕ → System → System
fall_asleep i s = record s { workers = update s.workers i Worker.sleeping }

pub wake_up : ℕ → System → System
wake_up i s = record s { workers = update s.workers i Worker.waiting }

abbrev pub is_sleeping : Worker → Bool
is_sleeping Worker.sleeping = true
is_sleeping _ = false

pub data Step (s : System) : System → Type 0 where
  enqueued : (f : ℕ) → Step s (enqueue f s)
  notified :
      (k i : ℕ)
      → s.to_notify ≡ suc k
      → i < s.num_threads
      → s.workers i ≡ Worker.sleeping
      → Step s (notify_one k i s)
  notified_nobody :
      (k : ℕ)
      → s.to_notify ≡ suc k
      → ((i : ℕ) → i < s.num_threads → is_sleeping (s.workers i) ≡ false)
      → Step s (notify_none k s)
  slept :
      (i : ℕ)
      → i < s.num_threads
      → s.workers i ≡ Worker.waiting
      → ready s ≡ false
      → Step s (fall_asleep i s)
  woken : (i : ℕ) → i < s.num_threads → s.workers i ≡ Worker.sleeping → Step s (wake_up i s)
  passed :
      (i : ℕ)
      → i < s.num_threads
      → s.workers i ≡ Worker.waiting
      → ready s ≡ true
      → Step s (take_task i s)
  ran : (i t : ℕ) → i < s.num_threads → s.workers i ≡ Worker.busy t → Step s (run_task i t s)
  stopped : Step s (set_stop s)
  notified_all : s.to_notify_all ≡ true → Step s (notify_all s)

pub data Reach (s : System) : System → Type 0 where
  here : Reach s s
  later : {t u : System} → Reach s t → Step t u → Reach s u
