-- ===== src/Container/ByteArray/Loops.antt =====
-- The loops of `write` and `read` over the nodes are one copy in the bytes of all nodes.
use cpp_cores.Base.{
  ℕ, zero, suc, ◌+◌, ◌-◌, ◌/◌, ◌≤◌, ◌<◌, ◌≡◌, refl, sym, ap, ◌∙◌, false, List, [], ◌∷◌, ◌++◌,
  Option, none, some, ◌==◌, leb, if◌then◌else◌, length, take, drop, arith, All, Bool-cases, inl,
  inr, length-append, append-nil, leb→le,
}
use mathlib.Core.List.{flatten}
use native.Mathlib.Nat.{div-eq_of_lt, div-eq-sub-div}
use cpp_cores.Container.ByteArray.{overwrite, slice, write_loop, read_loop, beyond, beyond_read}
use cpp_cores.Container.ByteArray.Copy.{
  length-overwrite, overwrite-nil, overwrite-append, overwrite-take, slice-append, slice_short,
}

-- All blocks have the one size.
abbrev pub Blocks : ℕ → List (List ℕ) → Type 0
Blocks base = All (λ node. length node ≡ base)

pub length-drop {ℓ} : {A : Type ℓ} (k : ℕ) (xs : List A) → length (drop k xs) ≡ length xs - k
length-drop zero xs = omega arith
length-drop (suc k) [] = omega arith
length-drop (suc k) (x ∷ xs) = omega (arith, length-drop k xs)

pub drop_past {ℓ} : {A : Type ℓ} (k : ℕ) (xs : List A) → length xs ≤ k → drop k xs ≡ []
drop_past zero [] h = refl
drop_past zero (x ∷ xs) h = absurd (omega arith)
drop_past (suc k) [] h = refl
drop_past (suc k) (x ∷ xs) h = drop_past k xs (omega arith)

module _ (base : ℕ) (pos : 0 < base) where
  pub div_next : (n : ℕ) → base ≤ n → n / base ≡ suc ((n - base) / base)
  div_next n h = omega (arith, div-eq-sub-div pos h)

  -- Whether the last node is left is whether its end is reached.
  pub moved-div : (n : ℕ) → n ≤ base → (if base == n then 1 else 0) ≡ n / base
  moved-div n h = elim (Bool-cases (base == n)) [
    | inl e ↦
        let at : base ≡ n = ground arith in
        let one : n / base ≡ suc ((n - base) / base) = div_next n (omega arith) in
        let rest : (n - base) / base ≡ zero = div-eq_of_lt (omega arith) in
        rw e (omega (arith, one, rest))
    | inr e ↦
        let less : n < base = ground arith in
        let none_left : n / base ≡ zero = div-eq_of_lt less in rw e (sym none_left)
  ]

  -- What the loop of `write` is to return.
  abbrev pub Wrote : ℕ → List ℕ → List (List ℕ) → Option (List (List ℕ) × ℕ) → Type 0
  Wrote npos bs ns out =
      (ns' : List (List ℕ)) × (k : ℕ) × (out ≡ some (ns', k)
        × flatten ns' ≡ overwrite npos bs (flatten ns)
        × k ≡ (npos + length bs) / base
        × Blocks base ns')

  -- The last round.
  pub Wrote-last :
      (npos : ℕ) (bs node : List ℕ) (ns : List (List ℕ))
      → length node ≡ base
      → Blocks base ns
      → npos + length bs ≤ base
      → Wrote npos bs
          (node ∷ ns)
          (some (overwrite npos bs node ∷ ns, if length node == npos + length bs then 1 else 0))
  unfolding flatten
  Wrote-last npos bs node ns h hs f =
      let copied : overwrite npos bs (node ++ flatten ns)
          ≡ overwrite npos bs node
            ++ overwrite (npos - length node) (drop (length node - npos) bs) (flatten ns) =
        overwrite-append npos bs node (flatten ns) _ _ refl refl in
      let no_more : drop (length node - npos) bs ≡ [] = drop_past _ bs (omega arith) in
      let same : overwrite npos bs node ++ flatten ns ≡ overwrite npos bs (node ++ flatten ns) =
        sym (rw (copied, no_more, overwrite-nil (npos - length node) (flatten ns)) refl) in
      let moved : (if length node == npos + length bs then 1 else 0) ≡ (npos + length bs) / base =
        rw h (moved-div (npos + length bs) f) in
      (overwrite npos bs node ∷ ns, _, (refl, same, moved, (length-overwrite npos bs node ∙ h, hs)))

  -- A round that fills its node.
  pub Wrote-beyond :
      (npos : ℕ) (bs node : List ℕ) (ns : List (List ℕ)) (out : Option (List (List ℕ) × ℕ))
      → length node ≡ base
      → npos < base
      → base ≤ npos + length bs
      → Wrote 0 (drop (length node - npos) bs) ns out
      → Wrote npos bs (node ∷ ns) (beyond (overwrite npos (take (length node - npos) bs) node) out)
  unfolding flatten
  Wrote-beyond npos bs node ns out h l f (ns', k, (e, flat, moved, blocks)) =
      let full : overwrite npos (take (length node - npos) bs) node ≡ overwrite npos bs node =
        overwrite-take npos bs node _ refl in
      let copied : overwrite npos bs (node ++ flatten ns)
          ≡ overwrite npos bs node ++ overwrite 0 (drop (length node - npos) bs) (flatten ns) =
        overwrite-append npos bs node (flatten ns) _ 0 refl (omega arith) in
      let left : length (drop (length node - npos) bs) ≡ npos + length bs - base =
        omega (arith, length-drop (length node - npos) bs) in
      let same_left : 0 + length (drop (length node - npos) bs) ≡ npos + length bs - base =
        omega (arith, left) in
      let next : (npos + length bs) / base ≡ suc ((npos + length bs - base) / base) =
        div_next _ f in
      let count : suc k ≡ (npos + length bs) / base =
        sym (next ∙ ap suc (sym (moved ∙ ap (λ x. x / base) same_left))) in
      (
        overwrite npos bs node ∷ ns',
        suc k,
        (
          rw (e, full) refl,
          rw (flat, copied) refl,
          count,
          (length-overwrite npos bs node ∙ h, blocks),
        ),
      )

  pub write_loop-overwrite :
      (npos : ℕ) (bs : List ℕ) (ns : List (List ℕ))
      → Blocks base ns
      → npos < base
      → npos + length bs ≤ length (flatten ns)
      → Wrote npos bs ns (write_loop npos bs ns)
  unfolding write_loop flatten
  write_loop-overwrite npos [] ns h l f =
      (ns, 0, (refl, sym (overwrite-nil npos (flatten ns)), sym (div-eq_of_lt (omega arith)), h))
  write_loop-overwrite npos (b ∷ bs) [] h l f = absurd (omega arith)
  write_loop-overwrite npos (b ∷ bs) (node ∷ ns) (h, hs) l f =
      let all : length (node ++ flatten ns) ≡ length node + length (flatten ns) =
        length-append node (flatten ns) in
      let left : length (drop (length node - npos) (b ∷ bs))
          ≡ length (b ∷ bs) - (length node - npos) =
        length-drop (length node - npos) (b ∷ bs) in
      let rest : Wrote 0 (drop (length node - npos) (b ∷ bs)) ns
          (write_loop 0 (drop (length node - npos) (b ∷ bs)) ns) =
        write_loop-overwrite 0 (drop (length node - npos) (b ∷ bs)) ns hs pos (omega arith) in
      elim (Bool-cases (leb (length (b ∷ bs)) (length node - npos))) [
        | inl e ↦
            let fits : npos + length (b ∷ bs) ≤ base =
              omega (arith, leb→le (length (b ∷ bs)) (length node - npos) e) in
            rw e (Wrote-last npos (b ∷ bs) node ns h hs fits)
        | inr e ↦ rw e (Wrote-beyond npos (b ∷ bs) node ns _ h l (ground arith) rest)
      ]

  -- What the loop of `read` is to return.
  abbrev pub HasRead : ℕ → ℕ → List (List ℕ) → Option (List ℕ × ℕ) → Type 0
  HasRead npos n ns out = out ≡ some (slice npos n (flatten ns), (npos + n) / base)

  pub HasRead-last :
      (npos n : ℕ) (node : List ℕ) (ns : List (List ℕ))
      → length node ≡ base
      → npos + n ≤ base
      → HasRead npos n
          (node ∷ ns)
          (some (slice npos n node, if length node == npos + n then 1 else 0))
  unfolding flatten slice
  HasRead-last npos n node ns h f =
      let copied : slice npos n (node ++ flatten ns)
          ≡ slice npos n node ++ slice (npos - length node) 0 (flatten ns) =
        slice-append npos n node (flatten ns) (length node - npos) (npos - length node) 0 refl refl
          (omega arith) in
      let same : slice npos n (node ++ flatten ns) ≡ slice npos n node = copied ∙ append-nil _ in
      let moved : (if length node == npos + n then 1 else 0) ≡ (npos + n) / base =
        rw h (moved-div (npos + n) f) in
      rw (same, moved) refl

  pub HasRead-beyond :
      (npos n : ℕ) (node : List ℕ) (ns : List (List ℕ)) (out : Option (List ℕ × ℕ))
      → length node ≡ base
      → npos < base
      → base ≤ npos + n
      → HasRead 0 (n - (length node - npos)) ns out
      → HasRead npos n (node ∷ ns) (beyond_read (slice npos (length node - npos) node) out)
  unfolding flatten
  HasRead-beyond npos n node ns out h l f e =
      let full : slice npos (length node - npos) node ≡ slice npos n node =
        slice_short npos n node _ refl (omega arith) in
      let copied : slice npos n (node ++ flatten ns)
          ≡ slice npos n node ++ slice 0 (n - (length node - npos)) (flatten ns) =
        slice-append npos n node (flatten ns) _ 0 _ refl (omega arith) refl in
      let left : 0 + (n - (length node - npos)) ≡ npos + n - base = omega arith in
      let next : (npos + n) / base ≡ suc ((0 + (n - (length node - npos))) / base) =
        rw left (div_next _ f) in
      rw (e, full, copied, next) refl

  pub read_loop-slice :
      (npos n : ℕ) (ns : List (List ℕ))
      → Blocks base ns
      → npos < base
      → npos + n ≤ length (flatten ns)
      → HasRead npos n ns (read_loop npos n ns)
  unfolding read_loop flatten slice
  read_loop-slice npos zero ns h l f =
      let at : (npos + 0) / base ≡ zero = div-eq_of_lt (omega arith) in rw at refl
  read_loop-slice npos (suc n) [] h l f = absurd (omega arith)
  read_loop-slice npos (suc n) (node ∷ ns) (h, hs) l f =
      let all : length (node ++ flatten ns) ≡ length node + length (flatten ns) =
        length-append node (flatten ns) in
      let rest : HasRead 0 (suc n - (length node - npos)) ns
          (read_loop 0 (suc n - (length node - npos)) ns) =
        read_loop-slice 0 (suc n - (length node - npos)) ns hs pos (omega arith) in
      elim (Bool-cases (leb (suc n) (length node - npos))) [
        | inl e ↦ rw e (HasRead-last npos (suc n) node ns h (ground arith))
        | inr e ↦ rw e (HasRead-beyond npos (suc n) node ns _ h l (ground arith) rest)
      ]

  -- Past the last node the loop reads through null.
  pub read_loop-none :
      (npos n : ℕ) (ns : List (List ℕ))
      → Blocks base ns
      → npos < base
      → 0 < n
      → length (flatten ns) < npos + n
      → read_loop npos n ns ≡ none
  unfolding read_loop flatten
  read_loop-none npos zero ns h l p f = absurd (omega arith)
  read_loop-none npos (suc n) [] h l p f = refl
  read_loop-none npos (suc n) (node ∷ ns) (h, hs) l p f =
      let all : length (node ++ flatten ns) ≡ length node + length (flatten ns) =
        length-append node (flatten ns) in
      let more : leb (suc n) (length node - npos) ≡ false = ground arith in
      let rest : read_loop 0 (suc n - (length node - npos)) ns ≡ none =
        read_loop-none 0 (suc n - (length node - npos)) ns hs pos (ground arith) (ground arith) in
      rw (more, rest) refl
