-- ===== src/Coroutine/Schedule.antt =====
-- src/coroutine/uthread.h: `schedule_t` and the uthreads. The function of a uthread is the list of what
-- it does, work and calls of `uthread_yield`; it makes no other call of the schedule. A context is what
-- its uthread has left to do, and a switch to it does that until it switches back to `main`.
pub mod Runs
mod Tests
use cpp_cores.Base.{
  ℕ, zero, suc, ◌+◌, ◌-◌, ◌≤◌, ◌<◌, ◌≡◌, Bool, true, false, not, ◌&&◌, List, [], ◌∷◌, ◌++◌, Option,
  none, some, leb, ltb, ◌==◌, if◌then◌else◌,
}

pub data ThreadState : Type 0 where
  free : ThreadState
  runnable : ThreadState
  running : ThreadState
  suspend : ThreadState

pub data Op : Type 0 where
  work : (e : ℕ) → Op
  yield : Op

-- `ctx` is what is left to do when it is switched to; `func` is kept in it.
pub record Uthread : Type 0 where
  pub state : ThreadState
  pub ctx : List Op

-- `running_thread` is `none` for -1.
pub record Schedule : Type 0 where
  pub running_thread : Option ℕ
  pub max_index : ℕ
  pub threads : ℕ → Uthread

abbrev pub max_uthread_size : ℕ
max_uthread_size = 1024

abbrev pub is_free : ThreadState → Bool
is_free ThreadState.free = true
is_free ThreadState.runnable = false
is_free ThreadState.running = false
is_free ThreadState.suspend = false

abbrev pub is_suspend : ThreadState → Bool
is_suspend ThreadState.free = false
is_suspend ThreadState.runnable = false
is_suspend ThreadState.running = false
is_suspend ThreadState.suspend = true

abbrev pub set_thread : (ℕ → Uthread) → ℕ → Uthread → ℕ → Uthread
set_thread threads i t j = if i == j then t else threads j

pub new : Schedule
new = record {
  running_thread = none;
  max_index = 0;
  threads = λ i. record { state = ThreadState.free; ctx = [] };
}

-- `uthread_yield`: the schedule to switch to `main` with, when it does; `rest` is what the caller has
-- left to do.
pub uthread_yield : List Op → Schedule → Option Schedule
uthread_yield rest s = elim s.running_thread [
  | none ↦ none
  | some i ↦ some (record s {
    running_thread = none;
    threads = set_thread s.threads i (record { state = ThreadState.suspend; ctx = rest });
  })
]

-- The end of `uthread_body`; `id` was read from the schedule at its start.
abbrev pub body_end : ℕ → Schedule → Schedule
body_end id s = record s {
  running_thread = none;
  threads = set_thread s.threads id (record { state = ThreadState.free; ctx = [] });
}

-- What the uthread does until it switches to `main`: the work done, and the schedule then.
pub run : ℕ → List Op → Schedule → List ℕ × Schedule
run id [] s = ([], body_end id s)
run id (Op.work e ∷ ops) s = let (log, s') = run id ops s in (e ∷ log, s')
run id (Op.yield ∷ ops) s =
    let on = run id ops s in elim (uthread_yield ops s) [ none ↦ on | some s' ↦ ([], s') ]

-- The loop of `uthread_create`, from `id` on, over the `n` threads that are left.
pub first_free : ℕ → ℕ → (ℕ → Uthread) → ℕ
first_free zero id threads = id
first_free (suc n) id threads =
    let rest = first_free n (suc id) threads in if is_free (threads id).state then id else rest

-- The id, the work that was done before the uthread switched back, and the schedule then.
pub uthread_create : List Op → Schedule → ℕ × List ℕ × Schedule
uthread_create func s =
    let id = first_free s.max_index 0 s.threads in
    let max_index = if id == s.max_index then s.max_index + 1 else s.max_index in
    let (log, s') = run id func (record {
      running_thread = some id;
      max_index = max_index;
      threads = set_thread s.threads id (record { state = ThreadState.runnable; ctx = [] });
    }) in
    (id, log, s')

-- A negative `id` is refused as one past the last is.
pub uthread_resume : ℕ → Schedule → List ℕ × Schedule
uthread_resume id s =
    let (log, s') = run id (s.threads id).ctx s in
    if leb s.max_index id
    then ([], s)
    else if is_suspend (s.threads id).state
    then (log, s')
    else ([], s)

pub all_free : ℕ → (ℕ → Uthread) → Bool
all_free zero threads = true
all_free (suc n) threads = let rest = all_free n threads in is_free (threads n).state && rest

pub schedule_finished : Schedule → Bool
schedule_finished s = elim s.running_thread [
  | none ↦ all_free s.max_index s.threads
  | some i ↦ false
]
