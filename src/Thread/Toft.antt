-- ===== src/Thread/Toft.antt =====
-- src/concurrent/thread_pool.h and src/concurrent/thread_pool.cc: `ToftThreadPool`. A task is a number, and a
-- step is what a thread does while it holds one mutex, or the run of a task. `AddTask` tests `m_exit`
-- without a mutex, and later adds the task under the mutex of its context, so that `Terminate` can come
-- between the two; after its end the contexts are deleted, and a call that adds then is undefined and left
-- out. A second call of `Terminate` does nothing. A wait is left where its predicate holds.
mod Order
pub mod Busy
mod Tests
use cpp_cores.Base.{
  ℕ, zero, suc, ◌-◌, ◌%◌, ◌<◌, ◌≡◌, ◌⊎◌, Bool, true, false, not, ◌&&◌, ◌||◌, List, [], ◌∷◌, ◌++◌,
  ◌==◌, leb, if◌then◌else◌,
}
use cpp_cores.Lock.Exclusive.{update}

-- Where a worker is: in `GetPendingTask`, in the loop over `working_tasks`, which is followed by another
-- round when `continued`, or past its loop.
pub data Place : Type 0 where
  getting : Place
  working : (continued : Bool) → Place
  ended : Place

-- `working_tasks` is what the loop has left. `added` and `done` record the tasks that were given to this
-- context and those that were run, in order.
pub record Context : Type 0 where
  pub pending_tasks : List ℕ
  pub working_tasks : List ℕ
  pub exit : Bool
  pub place : Place
  pub added : List ℕ
  pub done : List ℕ

-- A thread that calls `AddTask` with a task and a key: outside, or past the test of `m_exit`.
pub data Caller : Type 0 where
  outside : Caller
  checked : (f dispatch_key : ℕ) → Caller

pub record System : Type 0 where
  pub contexts : ℕ → Context
  pub num_threads : ℕ
  pub num_busy_threads : ℕ
  pub exit : Bool
  pub callers : ℕ → Caller

pub fresh : Context
fresh = record {
  pending_tasks = [];
  working_tasks = [];
  exit = false;
  place = Place.getting;
  added = [];
  done = [];
}

-- `hardware` is what `std::thread::hardware_concurrency` returns; a negative number of threads is 0 here,
-- and is taken as 0 is.
pub start : ℕ → ℕ → System
start hardware num_threads =
    let n = if num_threads == 0 then hardware else num_threads in
    record {
      contexts = λ i. fresh;
      num_threads = n;
      num_busy_threads = n;
      exit = false;
      callers = λ j. Caller.outside;
    }

-- `if (m_exit) return;`
pub check_exit : ℕ → ℕ → ℕ → System → System
check_exit j f dispatch_key s =
    if s.exit then s else record s { callers = update s.callers j (Caller.checked f dispatch_key) }

pub push_task : ℕ → Context → Context
push_task f c = record c { pending_tasks = c.pending_tasks ++ f ∷ []; added = c.added ++ f ∷ [] }

-- The rest of `AddTaskInternal`.
pub add_task : ℕ → ℕ → ℕ → System → System
add_task j f dispatch_key s =
    let i = dispatch_key % s.num_threads in
    record s {
      contexts = update s.contexts i (push_task f (s.contexts i));
      callers = update s.callers j Caller.outside;
    }

-- The predicate of the wait in `GetPendingTask`.
pub has_work : Context → Bool
has_work c = c.exit || elim c.pending_tasks [ [] ↦ false | t ∷ ts ↦ true ]

-- After the wait: the lists are swapped.
pub get_pending_task : Context → Context
get_pending_task c = record c {
  pending_tasks = c.working_tasks;
  working_tasks = c.pending_tasks;
  place = Place.working (not c.exit);
}

-- One round of the loop over `working_tasks`.
pub run_one : ℕ → List ℕ → Context → Context
run_one t ts c = record c { working_tasks = ts; done = c.done ++ t ∷ [] }

-- The end of the loop, with `working_tasks.clear()`.
pub end_round : Bool → Context → Context
end_round continued c = record c {
  working_tasks = [];
  place = if continued then Place.getting else Place.ended;
}

-- `Terminate` sets `m_exit`, and then `exit` of each context under its mutex.
pub begin_exit : System → System
begin_exit s = record s { exit = true }

pub tell_exit : ℕ → System → System
tell_exit i s = record s { contexts = update s.contexts i (record (s.contexts i) { exit = true }) }

-- The end of `Terminate`, when no thread is busy; the contexts are deleted then.
pub finish_exit : System → System
finish_exit s = record s { num_threads = 0 }

abbrev pub set_context : ℕ → Context → System → System
set_context i c s = record s { contexts = update s.contexts i c }

-- The end of `WorkRoutine`.
abbrev pub less_busy : Bool → System → System
less_busy continued s =
    if continued then s else record s { num_busy_threads = s.num_busy_threads - 1 }

pub data Step (s : System) : System → Type 0 where
  checked :
      (j f dispatch_key : ℕ) → s.callers j ≡ Caller.outside → Step s (check_exit j f dispatch_key s)
  added :
      (j f dispatch_key : ℕ)
      → s.callers j ≡ Caller.checked f dispatch_key
      → 0 < s.num_threads
      → Step s (add_task j f dispatch_key s)
  got :
      (i : ℕ)
      → i < s.num_threads
      → (s.contexts i).place ≡ Place.getting
      → has_work (s.contexts i) ≡ true
      → Step s (set_context i (get_pending_task (s.contexts i)) s)
  ran :
      (i t : ℕ) (ts : List ℕ) (continued : Bool)
      → (s.contexts i).place ≡ Place.working continued
      → (s.contexts i).working_tasks ≡ t ∷ ts
      → Step s (set_context i (run_one t ts (s.contexts i)) s)
  round_ended :
      (i : ℕ) (continued : Bool)
      → (s.contexts i).place ≡ Place.working continued
      → (s.contexts i).working_tasks ≡ []
      → Step s (less_busy continued (set_context i (end_round continued (s.contexts i)) s))
  exit_begun : Step s (begin_exit s)
  exit_told : (i : ℕ) → s.exit ≡ true → Step s (tell_exit i s)
  exit_finished :
      s.exit ≡ true
      → ((i : ℕ) → i < s.num_threads → (s.contexts i).exit ≡ true)
      → s.num_busy_threads ≡ 0
      → Step s (finish_exit s)

pub data Reach (s : System) : System → Type 0 where
  here : Reach s s
  later : {t u : System} → Reach s t → Step t u → Reach s u

-- `AnyTaskPending`, over the contexts that are left.
pub any_task_pending : ℕ → (ℕ → Context) → Bool
any_task_pending zero contexts = false
any_task_pending (suc n) contexts =
    let rest = any_task_pending n contexts in
    elim (contexts n).pending_tasks [ [] ↦ rest | t ∷ ts ↦ true ]

-- Whether `WaitForIdle` returns now; if not, it sleeps and looks again.
pub wait_for_idle : System → Bool
wait_for_idle s = not s.exit || not (any_task_pending s.num_threads s.contexts)
