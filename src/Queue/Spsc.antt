-- ===== src/Queue/Spsc.antt =====
-- src/concurrent/lockfree_queue_impl.h: `SpscLockFreeQueue<T, N>`. Elements are only moved, so an
-- element is any number; the `N` cells of `data_` are a list. `push` and `pop` are written twice:
-- whole, for one call that runs alone, and one shared access at a time, for a producer and a consumer
-- that interleave. The accesses take effect in one order, which the release stores and the acquire
-- loads of the two indices give to a single producer and a single consumer.
pub mod Window
pub mod Invariant
mod Moves
pub mod Sequential
pub mod Interleaved
mod Tests
use cpp_cores.Base.{
  ℕ, ◌+◌, Bool, true, false, List, [], ◌∷◌, ◌++◌, Option, none, some, ◌≡◌, ◌==◌, if◌then◌else◌,
  get_or, set, replicate,
}

pub record Ring : Type 0 where
  pub cells : List ℕ
  pub r : ℕ
  pub w : ℕ

module _ (n : ℕ) where
  -- `w_next = w + 1; if (w_next == N) w_next = 0;` and `if (++r == N) r = 0;`
  abbrev pub next : ℕ → ℕ
  next i = if i + 1 == n then 0 else i + 1

  -- The constructor; the cells hold whatever was there.
  pub new : List ℕ → Ring
  new junk = record { cells = junk; r = 0; w = 0 }

  unfoldable pub push : Ring → ℕ → Bool × Ring
  push q element =
      if next q.w == q.r
      then (false, q)
      else (true, record q { cells = set q.cells q.w element; w = next q.w })

  -- `pop(T &)`: the element is written only on success.
  pub pop : Ring → Option ℕ × Ring
  pop q = if q.r == q.w then (none, q) else (some (get_or q.cells q.r 0), record q { r = next q.r })

-- Where the producer stands in `push`, with its live variables.
pub data Producer : Type 0 where
  idle : Producer
  called : (element : ℕ) → Producer
  loaded : (element w : ℕ) → Producer
  free : (element w : ℕ) → Producer
  written : (element w : ℕ) → Producer

-- Where the consumer stands in `pop`.
pub data Consumer : Type 0 where
  idle : Consumer
  called : Consumer
  loaded : (r : ℕ) → Consumer
  ready : (r : ℕ) → Consumer
  taken : (element r : ℕ) → Consumer

-- The shared ring, the two threads, and what `push` has stored and `pop` has returned so far.
pub record System : Type 0 where
  pub ring : Ring
  pub producer : Producer
  pub consumer : Consumer
  pub pushed : List ℕ
  pub popped : List ℕ

module _ (n : ℕ) where
  -- The next access of the producer: load `w_`, load `r_` and test, write the cell, store `w_`.
  pub produce : Producer → System → System
  produce Producer.idle s = s
  produce (Producer.called e) s = record s { producer = Producer.loaded e s.ring.w }
  produce (Producer.loaded e w) s =
      if next n w == s.ring.r
      then record s { producer = Producer.idle }
      else record s { producer = Producer.free e w }
  produce (Producer.free e w) s = record s {
    ring = record { cells = set s.ring.cells w e; r = s.ring.r; w = s.ring.w };
    producer = Producer.written e w;
  }
  produce (Producer.written e w) s = record s {
    ring = record { cells = s.ring.cells; r = s.ring.r; w = next n w };
    producer = Producer.idle;
    pushed = s.pushed ++ e ∷ [];
  }

  -- The next access of the consumer: load `r_`, load `w_` and test, read the cell, store `r_`.
  pub consume : Consumer → System → System
  consume Consumer.idle s = s
  consume Consumer.called s = record s { consumer = Consumer.loaded s.ring.r }
  consume (Consumer.loaded r) s =
      if r == s.ring.w
      then record s { consumer = Consumer.idle }
      else record s { consumer = Consumer.ready r }
  consume (Consumer.ready r) s = record s { consumer = Consumer.taken (get_or s.ring.cells r 0) r }
  consume (Consumer.taken e r) s = record s {
    ring = record { cells = s.ring.cells; r = next n r; w = s.ring.w };
    consumer = Consumer.idle;
    popped = s.popped ++ e ∷ [];
  }

  -- Either thread may move at any time; an idle one may call with any element.
  pub data Step (s : System) : System → Type 0 where
    call_push :
        (e : ℕ) → s.producer ≡ Producer.idle → Step s (record s { producer = Producer.called e })
    call_pop : s.consumer ≡ Consumer.idle → Step s (record s { consumer = Consumer.called })
    produced : Step s (produce s.producer s)
    consumed : Step s (consume s.consumer s)

  pub data Reach (s : System) : System → Type 0 where
    here : Reach s s
    later : {t u : System} → Reach s t → Step t u → Reach s u

  -- A fresh queue and two idle threads.
  abbrev pub start : List ℕ → System
  start junk = record {
    ring = record { cells = junk; r = 0; w = 0 };
    producer = Producer.idle;
    consumer = Consumer.idle;
    pushed = [];
    popped = [];
  }
