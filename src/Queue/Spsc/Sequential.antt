-- ===== src/Queue/Spsc/Sequential.antt =====
-- One call at a time: the ring is a queue of at most N - 1 elements.
use cpp_cores.Base.{
  ℕ, ◌-◌, ◌<◌, ◌≡◌, ◌≢◌, refl, ap, ◌∙◌, Bool, true, false, List, [], ◌∷◌, ◌++◌, ◌==◌, if◌then◌else◌,
  get_or, set, length, arith, Option, none, some, Bool-cases, inl, inr, length-set, get_or-set_self,
}
use cpp_cores.Queue.Spsc.{Ring, next, push, pop}
use cpp_cores.Queue.Spsc.Window.{count, length-window}
use cpp_cores.Queue.Spsc.Invariant.{contents, contents_write, contents_publish, contents_take}

-- The abstract queue.
pub bounded_push : ℕ → List ℕ → ℕ → Bool × List ℕ
bounded_push cap l e = if length l == cap then (false, l) else (true, l ++ e ∷ [])

pub queue_pop : List ℕ → Option ℕ × List ℕ
queue_pop [] = (none, [])
queue_pop (x ∷ l) = (some x, l)

pub record IsValid (n : ℕ) (q : Ring) : Type 0 where
  pub room : length q.cells ≡ n
  pub r_in : q.r < n
  pub w_in : q.w < n

module _ (n : ℕ) (q : Ring) (v : IsValid n q) where
  length-contents : length (contents n q) ≡ count n q.r q.w
  length-contents = length-window n q.cells q.r (count n q.r q.w)

  pushed_contents :
      (e : ℕ)
      → next n q.w ≢ q.r
      → contents n (record { cells = set q.cells q.w e; r = q.r; w = next n q.w })
        ≡ contents n q ++ e ∷ []
  pushed_contents e ne =
      contents_publish n (set q.cells q.w e) q.r q.w v.r_in v.w_in ne
      ∙ ap (λ t. t ++ get_or (set q.cells q.w e) q.w 0 ∷ [])
          (contents_write n q.cells q.r q.w e v.r_in v.w_in)
      ∙ ap (λ y. contents n q ++ y ∷ [])
          (get_or-set_self q.cells q.w e 0 (omega (arith, v.room, v.w_in)))

  -- `push` returns what the bounded queue returns, leaves its contents in the ring, and keeps the
  -- ring valid.
  pub push_refines :
      (e : ℕ)
      → let (done, q') = push n q e in
        ((done, contents n q') ≡ bounded_push (n - 1) (contents n q) e) × IsValid n q'
  unfolding push bounded_push
  push_refines e = elim (Bool-cases (next n q.w == q.r)) [
    | inl full ↦
        let at_cap : (length (contents n q) == n - 1) ≡ true =
          ground (arith, length-contents, v.r_in, v.w_in) in
        rw (full, at_cap) (refl, v)
    | inr free ↦
        let below : (length (contents n q) == n - 1) ≡ false =
          ground (arith, length-contents, v.r_in, v.w_in) in
        let ne : next n q.w ≢ q.r = ground arith in
        rw (free, below)
          (
            rw (pushed_contents e ne),
            record {
              room = length-set q.cells q.w e ∙ v.room;
              r_in = v.r_in;
              w_in = ground (arith, v.w_in);
            },
          )
  ]

  -- `pop` returns the oldest element of the queue, or none from an empty one, leaves the rest in the
  -- ring, and keeps the ring valid.
  pub pop_refines :
      let (out, q') = pop n q in ((out, contents n q') ≡ queue_pop (contents n q)) × IsValid n q'
  unfolding pop queue_pop
  pop_refines = elim (Bool-cases (q.r == q.w)) [
    | inl empty ↦
        let none_between : count n q.r q.w ≡ 0 = ground arith in rw (empty, none_between) (refl, v)
    | inr left ↦
        let ne : q.r ≢ q.w = ground arith in
        rw (left, contents_take n q.cells q.r q.w v.r_in v.w_in ne)
          (refl, record { room = v.room; r_in = ground (arith, v.r_in); w_in = v.w_in })
  ]
