-- ===== src/Queue/Stealing.antt =====
-- src/concurrent/work_stealing_queue.h: `WorkStealingQueue<T>`. Elements are only moved, so an
-- element is any number. `push` and `pop` belong to one owner, `steal` to any number of thieves; all
-- three are written one shared access at a time (`own`, `rob`), and an access takes effect at once
-- and in the order of the program. Queue/Stealing/Fence adds the runs in which the fence of `pop` does not
-- keep this order.
-- An index is a `size_t`: sums wrap at 2^64. A run in which the owner calls `push` so often that
-- `_bottom + _capacity` reaches 2^64 is left out (`call_push`).

pub mod Window
pub mod Invariant
mod PushMoves
pub mod PushHeld
mod PopMoves
mod ThiefMoves
pub mod Init
pub mod Interleaved
pub mod Fence
mod Tests
use cpp_cores.Base.{
  ℕ, zero, suc, ◌+◌, ◌-◌, ◌%◌, ◌^◌, ◌<◌, ◌≤◌, Bool, true, false, not, List, [], ◌∷◌, ◌++◌, Option,
  none, some, ◌≡◌, ◌==◌, leb, ltb, if◌then◌else◌, get_or, set, bit_and, ℕ_discrete, replicate,
}
use mathlib.Core.Logic.{ite}

pub record Deque : Type 0 where
  pub bottom : ℕ
  pub top : ℕ
  pub capacity : ℕ
  pub buffer : List ℕ

abbrev pub w64 : ℕ
w64 = 2 ^ 64

abbrev pub succ64 : ℕ → ℕ
succ64 i = (i + 1) % w64

abbrev pub pred64 : ℕ → ℕ
pred64 i = (i + w64 - 1) % w64

-- `i & (_capacity - 1)`
pub slot : ℕ → ℕ → ℕ
slot capacity i = bit_and i (capacity - 1)

pub new : Deque
new = record { bottom = 1; top = 1; capacity = 0; buffer = [] }

-- `init`: the status returned, and the queue. `memory` is the array that `new (std::nothrow)`
-- returns, or none.
pub init : Option (List ℕ) → ℕ → Deque → Bool × Deque
init memory capacity q =
    if not (q.capacity == 0)
    then (false, q)
    else if capacity == 0
    then (false, q)
    else if not (bit_and capacity (capacity - 1) == 0)
    then (false, q)
    else elim memory [
      | none ↦ (false, q)
      | some cells ↦ (true, record q { capacity = capacity; buffer = cells })
    ]

pub volatile_size : Deque → ℕ
volatile_size q = if leb q.bottom q.top then 0 else q.bottom - q.top

-- Where the owner stands, with its live variables.
pub data Owner : Type 0 where
  idle : Owner
  push_called : (e : ℕ) → Owner
  push_loaded : (e b : ℕ) → Owner
  push_free : (e b : ℕ) → Owner
  push_written : (e b : ℕ) → Owner
  pop_called : Owner
  pop_loaded : (b : ℕ) → Owner
  pop_some : (b : ℕ) → Owner
  pop_lowered : (b : ℕ) → Owner
  pop_got : (t b : ℕ) → Owner
  pop_last : (e t b : ℕ) → Owner
  pop_restore : (b : ℕ) → Owner

-- Where a thief stands in `steal`.
pub data Thief : Type 0 where
  idle : Thief
  called : Thief
  loaded : (t : ℕ) → Thief
  looping : (t : ℕ) → Thief
  ready : (t : ℕ) → Thief
  read : (e t : ℕ) → Thief

-- The shared queue, the threads, what `push` has stored, and what `pop` and `steal` have returned.
pub record System : Type 0 where
  pub queue : Deque
  pub owner : Owner
  pub thieves : ℕ → Thief
  pub pushed : List ℕ
  pub taken : List ℕ

abbrev pub update : (ℕ → Thief) → ℕ → Thief → ℕ → Thief
update f i a j = ite (ℕ_discrete i j) a (f j)

-- The next access of the owner.
pub own : Owner → System → System
own Owner.idle s = s
-- push: load `_bottom`; load `_top` and test; write the slot; store `_bottom`.
own (Owner.push_called e) s = record s { owner = Owner.push_loaded e s.queue.bottom }
own (Owner.push_loaded e b) s =
    if leb ((s.queue.top + s.queue.capacity) % w64) b
    then record s { owner = Owner.idle }
    else record s { owner = Owner.push_free e b }
own (Owner.push_free e b) s = record s {
  queue = record s.queue { buffer = set s.queue.buffer (slot s.queue.capacity b) e };
  owner = Owner.push_written e b;
}
own (Owner.push_written e b) s = record s {
  queue = record s.queue { bottom = succ64 b };
  owner = Owner.idle;
  pushed = s.pushed ++ e ∷ [];
}
-- pop: load `_bottom`; load `_top` and test; store `_bottom`; load `_top` and test; read the slot;
-- for the last element, compare and exchange `_top`; store `_bottom`.
own Owner.pop_called s = record s { owner = Owner.pop_loaded s.queue.bottom }
own (Owner.pop_loaded b) s =
    if leb b s.queue.top
    then record s { owner = Owner.idle }
    else record s { owner = Owner.pop_some b }
own (Owner.pop_some b) s = record s {
  queue = record s.queue { bottom = pred64 b };
  owner = Owner.pop_lowered b;
}
own (Owner.pop_lowered b) s =
    if ltb (pred64 b) s.queue.top
    then record s { owner = Owner.pop_restore b }
    else record s { owner = Owner.pop_got s.queue.top b }
own (Owner.pop_got t b) s =
    let e = get_or s.queue.buffer (slot s.queue.capacity (pred64 b)) 0 in
    if not (t == pred64 b)
    then record s { owner = Owner.idle; taken = s.taken ++ e ∷ [] }
    else record s { owner = Owner.pop_last e t b }
own (Owner.pop_last e t b) s =
    if s.queue.top == t
    then record s {
      queue = record s.queue { top = succ64 t };
      owner = Owner.pop_restore b;
      taken = s.taken ++ e ∷ [];
    }
    else record s { owner = Owner.pop_restore b }
own (Owner.pop_restore b) s = record s { queue = record s.queue { bottom = b }; owner = Owner.idle }

-- The next access of thief `i`: load `_top`; load `_bottom` and test; then, until the exchange wins,
-- load `_bottom` and test, read the slot, compare and exchange `_top`, which reloads `t` if it fails.
pub rob : ℕ → Thief → System → System
rob i Thief.idle s = s
rob i Thief.called s = record s { thieves = update s.thieves i (Thief.loaded s.queue.top) }
rob i (Thief.loaded t) s = record s {
  thieves = update s.thieves i (if leb s.queue.bottom t then Thief.idle else Thief.looping t);
}
rob i (Thief.looping t) s = record s {
  thieves = update s.thieves i (if leb s.queue.bottom t then Thief.idle else Thief.ready t);
}
rob i (Thief.ready t) s = record s {
  thieves = update s.thieves i (Thief.read (get_or s.queue.buffer (slot s.queue.capacity t) 0) t);
}
rob i (Thief.read e t) s =
    if s.queue.top == t
    then record s {
      queue = record s.queue { top = succ64 t };
      thieves = update s.thieves i Thief.idle;
      taken = s.taken ++ e ∷ [];
    }
    else record s { thieves = update s.thieves i (Thief.looping s.queue.top) }

-- Any thread may move at any time; an idle one may call.
pub data Step (s : System) : System → Type 0 where
  call_push :
      (e : ℕ)
      → s.owner ≡ Owner.idle
      → s.queue.bottom + s.queue.capacity + 1 < w64
      → Step s (record s { owner = Owner.push_called e })
  call_pop : s.owner ≡ Owner.idle → Step s (record s { owner = Owner.pop_called })
  call_steal :
      (i : ℕ)
      → s.thieves i ≡ Thief.idle
      → Step s (record s { thieves = update s.thieves i Thief.called })
  owned : Step s (own s.owner s)
  robbed : (i : ℕ) → Step s (rob i (s.thieves i) s)

pub data Reach (s : System) : System → Type 0 where
  here : Reach s s
  later : {t u : System} → Reach s t → Step t u → Reach s u

-- Idle threads over the queue that `init` makes of a new one.
abbrev pub start : ℕ → List ℕ → System
start capacity cells = record {
  queue = record { bottom = 1; top = 1; capacity = capacity; buffer = cells };
  owner = Owner.idle;
  thieves = λ _. Thief.idle;
  pushed = [];
  taken = [];
}
