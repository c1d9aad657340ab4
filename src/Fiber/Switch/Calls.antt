-- ===== src/Fiber/Switch/Calls.antt =====
-- What a call of a fiber comes to, and what the main fiber comes to.
use cpp_cores.Base.{
  ℕ, ◌%◌, ◌≡◌, refl, ap, ◌∙◌, Bool, true, false, List, [], ◌∷◌, ◌++◌, map, Option, none, some, ◌==◌,
  if◌then◌else◌, arith,
}
use cpp_cores.Base.Bits.{bit_and_mask}
use cpp_cores.Fiber.Switch.{
  State, Op, Thread, Outcome, set_fiber, new_main, get_this, destroy, yield_to_ready, yield_to_hold,
  yield_to_term, run, call, is_at,
}

-- Whether the callback calls `back` somewhere.
unfoldable pub calls_back : List Op → Bool
calls_back [] = false
calls_back (Op.work e ∷ ops) = calls_back ops
calls_back (Op.ready_next ∷ ops) = calls_back ops
calls_back (Op.hold_next ∷ ops) = calls_back ops
calls_back (Op.term_next ∷ ops) = calls_back ops
calls_back (Op.back ∷ ops) = true
calls_back (Op.throw ∷ ops) = calls_back ops

-- The end of the process at a yield, or what follows it.
abbrev pub after_yield : ℕ → List Op → Option Thread → List ℕ × Outcome
after_yield p ops o = elim o [ none ↦ ([], Outcome.aborted) | some t ↦ run p ops t ]

pub after_yield-aborted :
    (p : ℕ) (ops : List Op) (o : Option Thread)
    → ((t : Thread) → (run p ops t).1 ≡ Outcome.aborted)
    → (after_yield p ops o).1 ≡ Outcome.aborted
after_yield-aborted p ops none h = refl
after_yield-aborted p ops (some t) h = h t

pub run-aborted :
    (p : ℕ) (ops : List Op) (t : Thread)
    → calls_back ops ≡ false
    → (run p ops t).1 ≡ Outcome.aborted
unfolding run calls_back
run-aborted p [] t h = refl
run-aborted p (Op.work e ∷ ops) t h = run-aborted p ops t h
run-aborted p (Op.ready_next ∷ ops) t h =
    after_yield-aborted p ops (yield_to_ready p t) (λ t'. run-aborted p ops t' h)
run-aborted p (Op.hold_next ∷ ops) t h =
    after_yield-aborted p ops (yield_to_hold p t) (λ t'. run-aborted p ops t' h)
run-aborted p (Op.term_next ∷ ops) t h =
    after_yield-aborted p ops (yield_to_term p t) (λ t'. run-aborted p ops t' h)
run-aborted p (Op.back ∷ ops) t h = absurd (ground arith)
run-aborted p (Op.throw ∷ ops) t h = refl

pub run-back :
    (p : ℕ) (es : List ℕ) (rest : List Op) (t : Thread)
    → run p (map Op.work es ++ Op.back ∷ rest) t ≡ (
      es,
      Outcome.switched
          (record (set_fiber p (record (t.fiber p) { ctx = rest }) t) { current = t.main }),
    )
unfolding run
run-back p [] rest t = refl
run-back p (e ∷ es) rest t = ap (λ x. (e ∷ x.0, x.1)) (run-back p es rest t)

abbrev pub executing : ℕ → Thread → Thread
executing p t = record (set_fiber p (record (t.fiber p) { state = State.exec }) t) {
  current = some p;
}

-- The switch of a call, from a given main fiber.
abbrev pub call_from : ℕ → Thread → Option ℕ → List ℕ × Outcome
call_from p t o = elim o [
  | none ↦ ([], Outcome.aborted)
  | some m ↦
      if p == m
      then ([], Outcome.switched (executing p t))
      else run p (t.fiber p).ctx (executing p t)
]

-- With another fiber as the main one, a call of a fiber does the work that the fiber has left before its next
-- call of `back`, which switches to the main fiber and leaves the rest for the next call.
pub call-back :
    (p m : ℕ) (es : List ℕ) (rest : List Op) (t : Thread)
    → t.main ≡ some m
    → (p == m) ≡ false
    → (t.fiber p).ctx ≡ map Op.work es ++ Op.back ∷ rest
    → (t' : Thread) × (call p t ≡ (es, Outcome.switched t')
        × t'.current ≡ some m
        × (t'.fiber p).ctx ≡ rest)
unfolding call
call-back p m es rest t h n e =
    let t1 = executing p t in
    let t2 : Thread = record (set_fiber p (record (t1.fiber p) { ctx = rest }) t1) {
      current = t.main;
    } in
    let self : (p == p) ≡ true = ground arith in
    let ran : run p (t.fiber p).ctx t1 ≡ (es, Outcome.switched t2) =
      ap (λ l. run p l t1) e ∙ run-back p es rest t1 in
    (t2, (ap (call_from p t) h ∙ (rw n ran), h, rw self refl))

-- A call, by the main fiber, of another fiber that does not call `back` again ends the process: when its
-- callback returns, throws or yields, the empty `swapOut` returns, and an assertion fails at last.
pub call-aborted :
    (p : ℕ) (t : Thread)
    → is_at p t.main ≡ false
    → calls_back (t.fiber p).ctx ≡ false
    → (call p t).1 ≡ Outcome.aborted
unfolding call
call-aborted p t n h = go t.main n
  where
    go : (o : Option ℕ) → is_at p o ≡ false → (call_from p t o).1 ≡ Outcome.aborted
    go none n = refl
    go (some m) n = rw n (run-aborted p (t.fiber p).ctx _ h)

-- The main fiber that `GetThis` makes sets the count of fibers to its lowest bit, and the assertion of its
-- destructor fails.
pub main_fiber :
    (p : ℕ) (t : Thread)
    → t.current ≡ none
    → (get_this p t).1.count ≡ t.count % 2 × destroy p (get_this p t).1 ≡ none
unfolding get_this new_main destroy
main_fiber p t h =
    let self : (p == p) ≡ true = ground arith in rw (h, self) (bit_and_mask 1 t.count, refl)
