-- ===== src/Fiber/Switch.antt =====
-- src/fiber/fibers.h and src/fiber/fibers.cc: `Fiber`, on one thread, in a build where a failed assertion
-- ends the process. A pointer to a fiber is a number. A callback is the list of what it does, and a
-- context what its fiber has left to do; `swapcontext` and the allocation of stacks succeed.
pub mod Calls
mod Tests
use cpp_cores.Base.{
  ℕ, zero, suc, ◌+◌, ◌-◌, ◌%◌, ◌^◌, bit_and, ◌≡◌, Bool, true, false, not, ◌&&◌, ◌||◌, List, [], ◌∷◌,
  Option, none, some, ◌==◌, if◌then◌else◌,
}

abbrev pub w64 : ℕ
w64 = 2 ^ 64

pub data State : Type 0 where
  init : State
  hold : State
  exec : State
  term : State
  ready : State
  except : State

pub data Op : Type 0 where
  work : (e : ℕ) → Op
  ready_next : Op
  hold_next : Op
  term_next : Op
  back : Op
  throw : Op

pub record Fiber : Type 0 where
  pub id : ℕ
  pub state : State
  pub has_stack : Bool
  pub ctx : List Op
  pub cb : Option (List Op)

-- `current` is `t_fiber`, `main` is `t_threadFiber`.
pub record Thread : Type 0 where
  pub fiber : ℕ → Fiber
  pub current : Option ℕ
  pub main : Option ℕ
  pub last_id : ℕ
  pub count : ℕ

abbrev pub set_fiber : ℕ → Fiber → Thread → Thread
set_fiber p f t = record t { fiber = λ q. if p == q then f else t.fiber q }

-- `TERM`, `EXCEPT` or `INIT`.
abbrev pub at_rest : State → Bool
at_rest State.init = true
at_rest State.hold = false
at_rest State.exec = false
at_rest State.term = true
at_rest State.ready = false
at_rest State.except = true

abbrev pub is_exec : State → Bool
is_exec State.init = false
is_exec State.hold = false
is_exec State.exec = true
is_exec State.term = false
is_exec State.ready = false
is_exec State.except = false

-- `TERM` or `EXCEPT`.
abbrev pub is_over : State → Bool
is_over State.init = false
is_over State.hold = false
is_over State.exec = false
is_over State.term = true
is_over State.ready = false
is_over State.except = true

-- The private constructor, of the main fiber; `p` is what `new` returns.
pub new_main : ℕ → Thread → Thread
new_main p t =
    let f : Fiber = record { id = 0; state = State.exec; has_stack = false; ctx = []; cb = none } in
    record (set_fiber p f t) { current = some p; count = bit_and t.count 1 }

-- `GetThis`; `p` is what `new` returns if there is no current fiber.
pub get_this : ℕ → Thread → ℕ × Thread
get_this p t = elim t.current [
  | none ↦ (p, record (new_main p t) { main = some p })
  | some q ↦ (q, t)
]

pub new_fiber : ℕ → List Op → Thread → Thread
new_fiber p cb t =
    let id = (t.last_id + 1) % w64 in
    let f : Fiber = record {
      id = id;
      state = State.init;
      has_stack = true;
      ctx = cb;
      cb = some cb;
    } in
    record (set_fiber p f t) { last_id = id; count = (t.count + 1) % w64 }

abbrev pub has_cb : Option (List Op) → Bool
has_cb none = false
has_cb (some cb) = true

abbrev pub is_at : ℕ → Option ℕ → Bool
is_at p none = false
is_at p (some q) = p == q

-- The destructor; `none` is a failed assertion.
pub destroy : ℕ → Thread → Option Thread
destroy p t =
    let f = t.fiber p in
    let fewer = record t { count = (t.count + w64 - 1) % w64 } in
    if f.has_stack
    then if at_rest f.state then some fewer else none
    else if has_cb f.cb && is_exec f.state
    then some (if is_at p t.current then record fewer { current = none } else fewer)
    else none

pub reset : ℕ → List Op → Thread → Option Thread
reset p cb t =
    let f = t.fiber p in
    if f.has_stack && at_rest f.state
    then some (set_fiber p (record f { state = State.init; ctx = cb; cb = some cb }) t)
    else none

-- `YieldToReady`, `YieldToHold` and `YieldToTerm` set the state; the switch after it, `swapOut`, is empty.
pub yield_to_ready : ℕ → Thread → Option Thread
yield_to_ready p t =
    let f = t.fiber p in
    if is_exec f.state then some (set_fiber p (record f { state = State.ready }) t) else none

pub yield_to_hold : ℕ → Thread → Option Thread
yield_to_hold p t =
    let f = t.fiber p in
    if is_exec f.state then some (set_fiber p (record f { state = State.hold }) t) else none

pub yield_to_term : ℕ → Thread → Option Thread
yield_to_term p t =
    let f = t.fiber p in
    if is_over f.state then none else some (set_fiber p (record f { state = State.term }) t)

-- What a switch to a fiber ends in: a switch back to the main fiber, or the end of the process.
pub data Outcome : Type 0 where
  switched : (after : Thread) → Outcome
  aborted : Outcome

-- `MainFunc` from the callback on, for the fiber `p`, which is the current one: after the callback, or an
-- exception of it, the empty `swapOut` returns and the assertion behind it fails.
pub run : ℕ → List Op → Thread → List ℕ × Outcome
run p [] t = ([], Outcome.aborted)
run p (Op.work e ∷ ops) t = let (log, out) = run p ops t in (e ∷ log, out)
run p (Op.ready_next ∷ ops) t = elim (yield_to_ready p t) [
  | none ↦ ([], Outcome.aborted)
  | some t' ↦ run p ops t'
]
run p (Op.hold_next ∷ ops) t = elim (yield_to_hold p t) [
  | none ↦ ([], Outcome.aborted)
  | some t' ↦ run p ops t'
]
run p (Op.term_next ∷ ops) t = elim (yield_to_term p t) [
  | none ↦ ([], Outcome.aborted)
  | some t' ↦ run p ops t'
]
run p (Op.back ∷ ops) t = (
  [],
  Outcome.switched (record (set_fiber p (record (t.fiber p) { ctx = ops }) t) { current = t.main }),
)
run p (Op.throw ∷ ops) t = ([], Outcome.aborted)

-- A call by the main fiber. Without one, the context to switch from is at a null pointer; a switch of the
-- main fiber to itself returns at once.
pub call : ℕ → Thread → List ℕ × Outcome
call p t =
    let t' : Thread = record (set_fiber p (record (t.fiber p) { state = State.exec }) t) {
      current = some p;
    } in
    elim t.main [
      | none ↦ ([], Outcome.aborted)
      | some m ↦ if p == m then ([], Outcome.switched t') else run p (t.fiber p).ctx t'
    ]
