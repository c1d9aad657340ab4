-- ===== src/Queue/Spsc/Interleaved.antt =====
-- What holds in every state that one producer and one consumer can reach.
use cpp_cores.Base.{
  ℕ, suc, ◌<◌, ◌≤◌, ◌≡◌, ◌≢◌, ◌⊎◌, refl, true, List, [], ◌++◌, ◌==◌, length, arith,
}
use cpp_cores.Queue.Spsc.{
  next, Producer, Consumer, System, Step, call_push, call_pop, produced, consumed, Reach, here,
  later, start,
}
use cpp_cores.Queue.Spsc.Window.{count, length-window}
use cpp_cores.Queue.Spsc.Invariant.{contents, ProducerFresh, ConsumerFresh, Inv}
use cpp_cores.Queue.Spsc.Moves.{produce-Inv, consume-Inv}

module _ (n : ℕ) where
  start-Inv : (junk : List ℕ) → 2 < n → length junk ≡ n → Inv n (start n junk)
  start-Inv junk big room = record {
    big = big;
    room = room;
    r_in = omega arith;
    w_in = omega arith;
    history = refl;
    producer = tt;
    consumer = tt;
  }

  Step-Inv : {s t : System} → Step n s t → Inv n s → Inv n t
  Step-Inv (call_push e idle) v = record {
    big = v.big;
    room = v.room;
    r_in = v.r_in;
    w_in = v.w_in;
    history = v.history;
    producer = tt;
    consumer = v.consumer;
  }
  Step-Inv (call_pop idle) v = record {
    big = v.big;
    room = v.room;
    r_in = v.r_in;
    w_in = v.w_in;
    history = v.history;
    producer = v.producer;
    consumer = tt;
  }
  Step-Inv {s} produced v = produce-Inv n s.producer s refl v
  Step-Inv {s} consumed v = consume-Inv n s.consumer s refl v

  pub Reach-Inv : {s t : System} → Reach n s t → Inv n s → Inv n t
  Reach-Inv here v = v
  Reach-Inv (later r st) v = Step-Inv st (Reach-Inv r v)

module _ (n : ℕ) (junk : List ℕ) (big : 2 < n) (room : length junk ≡ n) {s : System}
    (r : Reach n (start n junk) s) where
  reached : Inv n s
  reached = Reach-Inv n r (start-Inv n junk big room)

  -- However the two threads interleave, what has been pushed is what has been popped, in the same
  -- order, followed by what the ring still holds, and that is at most N - 1 elements.
  pub fifo : (s.pushed ≡ s.popped ++ contents n s.ring) × (suc (length (contents n s.ring)) ≤ n)
  fifo = (
    reached.history,
    ground (
      arith,
      length-window n s.ring.cells s.ring.r (count n s.ring.r s.ring.w),
      reached.r_in,
      reached.w_in,
    ),
  )

  -- While the producer is about to write, or has written, a cell, the consumer is not about to read
  -- the same cell, and has not read it without releasing it.
  pub no_race :
      (e w i : ℕ)
      → (s.producer ≡ Producer.free e w) ⊎ (s.producer ≡ Producer.written e w)
      → (s.consumer ≡ Consumer.ready i) ⊎ ((x : ℕ) × (s.consumer ≡ Consumer.taken x i))
      → w ≢ i
  no_race e w i p c = ground (arith, reached.producer, reached.consumer)

  -- `push` gives up at its test only if the ring holds N - 1 elements at that moment, and `pop` only
  -- if it holds none.
  pub refuses_only :
      ((e w : ℕ)
        → s.producer ≡ Producer.loaded e w
        → (next n w == s.ring.r) ≡ true
        → suc (length (contents n s.ring)) ≡ n)
      × ((i : ℕ) → s.consumer ≡ Consumer.loaded i → (i == s.ring.w) ≡ true → contents n s.ring ≡ [])
  refuses_only = (full, none_left)
    where
      full :
          (e w : ℕ)
          → s.producer ≡ Producer.loaded e w
          → (next n w == s.ring.r) ≡ true
          → suc (length (contents n s.ring)) ≡ n
      full e w p t =
          let fresh : ProducerFresh n s.ring (Producer.loaded e w) = rw p at (reached.producer) in
          ground (
            arith,
            length-window n s.ring.cells s.ring.r (count n s.ring.r s.ring.w),
            reached.r_in,
            reached.w_in,
          )

      none_left :
          (i : ℕ) → s.consumer ≡ Consumer.loaded i → (i == s.ring.w) ≡ true → contents n s.ring ≡ []
      none_left i c t =
          let fresh : ConsumerFresh n s.ring (Consumer.loaded i) = rw c at (reached.consumer) in
          let none_between : count n s.ring.r s.ring.w ≡ 0 = ground arith in rw none_between
