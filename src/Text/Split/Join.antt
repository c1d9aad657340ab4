-- ===== src/Text/Split/Join.antt =====
-- Joining what `split` returns, and how many pieces there are.
use cpp_cores.Base.{
  ℕ, ◌<◌, ◌≤◌, ◌≡◌, refl, sym, ap, ap₂, ◌∙◌, List, [], ◌∷◌, ◌++◌, ◌==◌, length, arith, Bool-cases,
  inl, inr,
}
use cpp_cores.Text.Split.{w64, less_one, prepend, split_loop, split_at, split}

-- The pieces with the delimiter between them.
pub join : ℕ → List (List ℕ) → List ℕ
join delim [] = []
join delim (piece ∷ []) = piece
join delim (piece ∷ next ∷ pieces) = piece ++ delim ∷ join delim (next ∷ pieces)

join-prepend :
    (delim c : ℕ) (piece : List ℕ) (pieces : List (List ℕ))
    → join delim (prepend c (piece ∷ pieces)) ≡ c ∷ join delim (piece ∷ pieces)
unfolding join
join-prepend delim c piece [] = refl
join-prepend delim c piece (next ∷ pieces) = refl

-- There is always a piece.
abbrev Some : List (List ℕ) → Type 0
Some pieces = (piece : List ℕ) × (rest : List (List ℕ)) × (pieces ≡ piece ∷ rest)

module _ (delim : ℕ) where
  split_loop-Some : (max : ℕ) (s : List ℕ) → Some (split_loop (λ c. c == delim) max s)
  unfolding split_loop
  split_loop-Some max [] = ([], [], refl)
  split_loop-Some max (c ∷ rest) = elim (Bool-cases (c == delim)) [
    | inl stop ↦ elim (Bool-cases (less_one max == 1)) [
      | inl last ↦ rw (stop, last) ([], _, refl)
      | inr more ↦ rw (stop, more) ([], _, refl)
    ]
    | inr goes ↦
        let (piece, pieces, e) = split_loop-Some max rest in rw (goes, e) (c ∷ piece, pieces, refl)
  ]

  join-split_loop : (max : ℕ) (s : List ℕ) → join delim (split_loop (λ c. c == delim) max s) ≡ s
  unfolding split_loop join
  join-split_loop max [] = refl
  join-split_loop max (c ∷ rest) = elim (Bool-cases (c == delim)) [
    | inl stop ↦
        let same : delim ≡ c = ground arith in
        elim (Bool-cases (less_one max == 1)) [
          | inl last ↦ rw (stop, last) (ap (λ d. d ∷ rest) same)
          | inr more ↦
              let (piece, pieces, e) = split_loop-Some (less_one max) rest in
              let back = join-split_loop (less_one max) rest in
              rw (stop, more, e) (ap₂ ◌∷◌ same (ap (join delim) (sym e) ∙ back))
        ]
    | inr goes ↦
        let (piece, pieces, e) = split_loop-Some max rest in
        let back = join-split_loop max rest in
        rw (goes, e)
          (join-prepend delim c piece pieces ∙ ap (λ t. c ∷ t) (ap (join delim) (sym e) ∙ back))
  ]

  length-split_loop :
      (max : ℕ) (s : List ℕ)
      → 2 ≤ max
      → max < w64
      → length (split_loop (λ c. c == delim) max s) ≤ max
  unfolding split_loop
  length-split_loop max [] two small = omega arith
  length-split_loop max (c ∷ rest) two small = elim (Bool-cases (c == delim)) [
    | inl stop ↦ elim (Bool-cases (less_one max == 1)) [
      | inl last ↦ rw (stop, last) two
      | inr more ↦
          let still_two : 2 ≤ less_one max = ground arith in
          let below : less_one max < max = omega arith in
          let inner = length-split_loop (less_one max) rest still_two (omega arith) in
          rw (stop, more) (omega arith)
    ]
    | inr goes ↦
        let (piece, pieces, e) = split_loop-Some max rest in
        let inner = length-split_loop max rest two small in
        rw (goes, e) (omega (arith, ap length e))
  ]

-- Joining the pieces of any string with the delimiter gives the string back, whatever the bound on the
-- number of pieces.
pub join-split : (str : List ℕ) (delim max : ℕ) → join delim (split str delim max) ≡ str
unfolding split split_at join
join-split [] delim max = refl
join-split (c ∷ str) delim max = join-split_loop delim max (c ∷ str)

-- With a bound of at least two that is a 64-bit number, there are at most so many pieces.
pub length-split :
    (str : List ℕ) (delim max : ℕ) → 2 ≤ max → max < w64 → length (split str delim max) ≤ max
unfolding split split_at
length-split [] delim max two small = omega arith
length-split (c ∷ str) delim max two small = length-split_loop delim max (c ∷ str) two small
