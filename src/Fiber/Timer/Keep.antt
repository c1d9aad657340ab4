-- ===== src/Fiber/Timer/Keep.antt =====
-- The operations keep the set of timers in order, and a callback in each timer of it.
use cpp_cores.Base.{
  mem, ℕ, ◌≡◌, ap, ◌∙◌, true, false, not, ◌&&◌, List, [], ◌∷◌, ◌==◌, arith, All, Bool-cases, inl,
  inr,
}
use cpp_cores.Fiber.Timer.{Timer, is_some, before, same_place, set_object, insert, erase}
use cpp_cores.Fiber.Timer.Order.{Sorted, insert-Sorted, erase-Sorted, mem-erase, frame-Sorted}

abbrev pub Armed : (ℕ → Timer) → ℕ → Type 0
Armed f p = is_some (f p).cb ≡ true

-- The timers are in the order of the comparator, each once, and each has a callback.
abbrev pub Valid : (ℕ → Timer) → List ℕ → Type 0
Valid f l = Sorted f l × All (Armed f) l

module _ (P : ℕ → Type 0) (f : ℕ → Timer) (p : ℕ) where
  pub All-insert : (l : List ℕ) → P p → All P l → All P (insert f p l)
  unfolding insert
  All-insert [] h k = (h, tt)
  All-insert (q ∷ l) h (k, ks) = elim (Bool-cases (before f p q)) [
    | inl e ↦ rw e (h, (k, ks))
    | inr e ↦ elim (Bool-cases (before f q p)) [
      | inl e' ↦ rw (e, e') (k, All-insert l h ks)
      | inr e' ↦ rw (e, e') (k, ks)
    ]
  ]

  pub All-erase : (l : List ℕ) → All P l → All P (erase f p l)
  unfolding erase
  All-erase [] h = tt
  All-erase (q ∷ l) (h, hs) = elim (Bool-cases (same_place f p q)) [
    | inl e ↦ rw e hs
    | inr e ↦ rw e (h, All-erase l hs)
  ]

module _ (f : ℕ → Timer) (p : ℕ) (t : Timer) where
  pub frame-All :
      (l : List ℕ) → mem p l ≡ false → All (Armed f) l → All (Armed (set_object f p t)) l
  frame-All [] h k = tt
  frame-All (q ∷ l) h (k, ks) =
      let other : (p == q) ≡ false = ground arith in (rw other k, frame-All l (ground arith) ks)

  -- A timer outside the set can change.
  pub frame-Valid : (l : List ℕ) → mem p l ≡ false → Valid f l → Valid (set_object f p t) l
  frame-Valid l h (s, a) = (frame-Sorted f p t l h s, frame-All l h a)

  pub set_object_self : set_object f p t p ≡ t
  set_object_self = ground arith

  -- Changed so that it has a callback, it goes into the set.
  pub put-Valid :
      (l : List ℕ)
      → mem p l ≡ false
      → is_some t.cb ≡ true
      → Valid f l
      → Valid (set_object f p t) (insert (set_object f p t) p l)
  put-Valid l h k v =
      let g : ℕ → Timer = set_object f p t in
      let (s, a) = frame-Valid l h v in
      let armed : Armed g p = ap (λ x. is_some x.cb) set_object_self ∙ k in
      (insert-Sorted g p l s, All-insert (Armed g) g p l armed a)

module _ (f : ℕ → Timer) (p : ℕ) where
  pub erase-Valid : (l : List ℕ) → Valid f l → Valid f (erase f p l)
  erase-Valid l (s, a) = (erase-Sorted f p l s, All-erase (Armed f) f p l a)

  pub erased : (l : List ℕ) → Valid f l → mem p (erase f p l) ≡ false
  erased l (s, a) =
      let h : mem p (erase f p l) ≡ (mem p l && not (p == p)) = mem-erase f p l p s in ground arith
