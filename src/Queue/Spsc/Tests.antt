-- ===== src/Queue/Spsc/Tests.antt =====
-- Runs of the single-producer single-consumer queue, and its theorems at concrete states.
use cpp_cores.Base.{
  ℕ, ◌≤◌, ◌≡◌, ◌≢◌, refl, inl, inr, false, suc, List, [], ◌∷◌, ◌++◌, length, some, arith,
}
use cpp_cores.Queue.Spsc.{
  Ring, push, pop, Producer, Consumer, System, Reach, here, later, call_push, call_pop, produced,
  consumed, start, produce, consume,
}
use cpp_cores.Queue.Spsc.Invariant.{contents}
use cpp_cores.Queue.Spsc.Sequential.{IsValid}
use cpp_cores.Queue.Spsc.Interleaved.{fifo, no_race}

-- 7, then 8 across the end of the array.
abbrev wrapped : Ring
wrapped = record { cells = 8 ∷ 0 ∷ 7 ∷ []; r = 2; w = 1 }

wrapped-IsValid : IsValid 3 wrapped
wrapped-IsValid = omega arith

push_full : push 3 wrapped 9 ≡ (false, wrapped)
unfolding push
push_full = refl

pop_wraps : pop 3 wrapped ≡ (some 7, record { cells = 8 ∷ 0 ∷ 7 ∷ []; r = 0; w = 1 })
unfolding pop
pop_wraps = refl

abbrev junk : List ℕ
junk = 5 ∷ 5 ∷ 5 ∷ []

-- The producer has stored 7 and written 8; the consumer is about to read 7.
abbrev midway : System
midway = record {
  ring = record { cells = 7 ∷ 8 ∷ 5 ∷ []; r = 0; w = 1 };
  producer = Producer.written 8 1;
  consumer = Consumer.ready 0;
  pushed = 7 ∷ [];
  popped = [];
}

-- 7 is pushed whole.
pushed_seven : Reach 3 (start 3 junk) (record {
  ring = record { cells = 7 ∷ 5 ∷ 5 ∷ []; r = 0; w = 1 };
  producer = Producer.idle;
  consumer = Consumer.idle;
  pushed = 7 ∷ [];
  popped = [];
})
unfolding produce
pushed_seven =
    later (later (later (later (later here (call_push 7 refl)) produced) produced) produced)
      produced

midway_reached : Reach 3 (start 3 junk) midway
unfolding produce consume
midway_reached =
    later
      (later
        (later
          (later (later (later (later pushed_seven (call_push 8 refl)) produced) produced) produced)
          (call_pop refl))
        consumed)
      consumed

fifo_example :
    (7 ∷ [] ≡ [] ++ contents 3 (midway.ring)) × (suc (length (contents 3 (midway.ring))) ≤ 3)
fifo_example = fifo 3 junk (omega arith) refl midway_reached

no_race_example : ◌≢◌ {A = ℕ} 1 0
no_race_example = no_race 3 junk (omega arith) refl midway_reached 8 1 0 (inr refl) (inl refl)

-- Both sides about to test: the queue was empty when the consumer loaded its index.
abbrev at_tests : System
at_tests = record {
  ring = record { cells = junk; r = 0; w = 0 };
  producer = Producer.loaded 9 0;
  consumer = Consumer.loaded 0;
  pushed = [];
  popped = [];
}

at_tests_reached : Reach 3 (start 3 junk) at_tests
unfolding produce consume
at_tests_reached =
    later (later (later (later here (call_push 9 refl)) produced) (call_pop refl)) consumed
