-- ===== src/Fiber/Timer/Order.antt =====
-- The comparator orders the timers, and the set stays in order.
use cpp_cores.Base.{
  mem, ℕ, ◌≡◌, refl, ap, ◌∙◌, ◌≤◌, true, false, not, ◌&&◌, ◌||◌, List, [], ◌∷◌, ◌==◌, arith, All,
  Bool-cases, inl, inr,
}
use cpp_cores.Fiber.Timer.{Timer, before, same_place, set_object, insert, find, erase}

module _ (f : ℕ → Timer) where
  pub before_trans : (p q r : ℕ) → before f p q ≡ true → before f q r ≡ true → before f p r ≡ true
  unfolding before
  before_trans p q r h k = ground arith

  pub before_irrefl : (p : ℕ) → before f p p ≡ false
  unfolding before
  before_irrefl p = ground arith

  pub same_place-eq : (p q : ℕ) → same_place f p q ≡ (p == q)
  unfolding before
  same_place-eq p q = ground arith

  pub before_next : (p q : ℕ) → before f p q ≡ true → (f p).next ≤ (f q).next
  unfolding before
  before_next p q h = ground arith

  -- Each element comes before all that follow it.
  abbrev pub Below : ℕ → List ℕ → Type 0
  Below p = All (λ q. before f p q ≡ true)

  abbrev pub Sorted : List ℕ → Type 0
  Sorted [] = Unit
  Sorted (p ∷ ps) = Below p ps × Sorted ps

  pub Below-trans : (p q : ℕ) (l : List ℕ) → before f p q ≡ true → Below q l → Below p l
  Below-trans p q [] h k = tt
  Below-trans p q (r ∷ l) h (k, ks) = (before_trans p q r h k, Below-trans p q l h ks)

  -- The search of the set is membership, and erasing takes out that one element.
  pub find-mem : (p : ℕ) (l : List ℕ) → find f p l ≡ mem p l
  unfolding find
  find-mem p [] = refl
  find-mem p (q ∷ l) = rw (same_place-eq p q, find-mem p l) refl

  pub same : (p q : ℕ) → before f p q ≡ false → before f q p ≡ false → p ≡ q
  unfolding before
  same p q h k = ground arith

  pub mem-insert : (p : ℕ) (l : List ℕ) (q : ℕ) → mem q (insert f p l) ≡ (q == p || mem q l)
  unfolding insert
  mem-insert p [] q = refl
  mem-insert p (r ∷ l) q = elim (Bool-cases (before f p r)) [
    | inl e ↦ rw e refl
    | inr e ↦ elim (Bool-cases (before f r p)) [
      | inl e' ↦ rw (e, e', mem-insert p l q) ground arith
      | inr e' ↦ let eq : p ≡ r = same p r e e' in rw (e, e', eq) ground arith
    ]
  ]

  pub Below-insert :
      (r p : ℕ) (l : List ℕ) → before f r p ≡ true → Below r l → Below r (insert f p l)
  unfolding insert
  Below-insert r p [] h k = (h, tt)
  Below-insert r p (q ∷ l) h (k, ks) = elim (Bool-cases (before f p q)) [
    | inl e ↦ rw e (h, (k, ks))
    | inr e ↦ elim (Bool-cases (before f q p)) [
      | inl e' ↦ rw (e, e') (k, Below-insert r p l h ks)
      | inr e' ↦ rw (e, e') (k, ks)
    ]
  ]

  -- An insertion keeps the order.
  pub insert-Sorted : (p : ℕ) (l : List ℕ) → Sorted l → Sorted (insert f p l)
  unfolding insert
  insert-Sorted p [] h = (tt, tt)
  insert-Sorted p (q ∷ l) (h, hs) = elim (Bool-cases (before f p q)) [
    | inl e ↦ rw e ((e, Below-trans p q l e h), (h, hs))
    | inr e ↦ elim (Bool-cases (before f q p)) [
      | inl e' ↦ rw (e, e') (Below-insert q p l e' h, insert-Sorted p l hs)
      | inr e' ↦ rw (e, e') (h, hs)
    ]
  ]

  pub Below-erase : (r p : ℕ) (l : List ℕ) → Below r l → Below r (erase f p l)
  unfolding erase
  Below-erase r p [] h = tt
  Below-erase r p (q ∷ l) (h, hs) = elim (Bool-cases (same_place f p q)) [
    | inl e ↦ rw e hs
    | inr e ↦ rw e (h, Below-erase r p l hs)
  ]

  pub erase-Sorted : (p : ℕ) (l : List ℕ) → Sorted l → Sorted (erase f p l)
  unfolding erase
  erase-Sorted p [] h = tt
  erase-Sorted p (q ∷ l) (h, hs) = elim (Bool-cases (same_place f p q)) [
    | inl e ↦ rw e hs
    | inr e ↦ rw e (Below-erase q p l h, erase-Sorted p l hs)
  ]

  -- A pointer that all others come after is not among them.
  pub mem-Below : (p : ℕ) (l : List ℕ) → Below p l → mem p l ≡ false
  unfolding before
  mem-Below p [] h = refl
  mem-Below p (q ∷ l) (h, hs) =
      let rest : mem p l ≡ false = mem-Below p l hs in
      let irrefl : before f p p ≡ false = before_irrefl p in
      elim (Bool-cases (p == q)) [
        | inl e ↦
            let eq : p ≡ q = ground arith in
            let clash : before f p p ≡ true = ap (before f p) eq ∙ h in absurd (ground arith)
        | inr e ↦ rw (e, rest) refl
      ]

  pub mem-erase :
      (p : ℕ) (l : List ℕ) (q : ℕ) → Sorted l → mem q (erase f p l) ≡ (mem q l && not (q == p))
  unfolding erase
  mem-erase p [] q h = refl
  mem-erase p (r ∷ l) q (h, hs) =
      let ih : mem q (erase f p l) ≡ (mem q l && not (q == p)) = mem-erase p l q hs in
      let gone : mem r l ≡ false = mem-Below r l h in
      let at : same_place f p r ≡ (p == r) = same_place-eq p r in
      let only : q ≡ r → mem q l ≡ false = λ eq. ap (λ x. mem x l) eq ∙ gone in
      elim (Bool-cases (p == r)) [
        | inl e ↦
            let eq : p ≡ r = ground arith in
            rw (at, e, eq)
              (elim (Bool-cases (q == r)) [
                | inl k ↦
                    let none_left : mem q l ≡ false = only (ground arith) in rw (k, none_left) refl
                | inr k ↦ rw k ground arith
              ])
        | inr e ↦ rw (at, e, ih) ground arith
      ]

-- A change of a timer outside the list leaves the order as it is.
module _ (f : ℕ → Timer) (p : ℕ) (t : Timer) where
  pub Below-frame :
      (q : ℕ) (l : List ℕ)
      → (p == q) ≡ false
      → mem p l ≡ false
      → Below f q l
      → Below (set_object f p t) q l
  unfolding before
  Below-frame q [] h k b = tt
  Below-frame q (r ∷ l) h k (b, bs) =
      let other : (p == r) ≡ false = ground arith in
      (rw (h, other) b, Below-frame q l h (ground arith) bs)

  pub frame-Sorted : (l : List ℕ) → mem p l ≡ false → Sorted f l → Sorted (set_object f p t) l
  frame-Sorted [] h k = tt
  frame-Sorted (q ∷ l) h (k, ks) =
      (Below-frame q l (ground arith) (ground arith) k, frame-Sorted l (ground arith) ks)
