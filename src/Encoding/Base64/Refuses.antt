-- ===== src/Encoding/Base64/Refuses.antt =====
-- What `base64decode` refuses, and that its loop never runs out of rounds.
use cpp_cores.Base.{
  ℕ, zero, suc, ◌+◌, ◌*◌, ◌%◌, ◌^◌, ◌≤◌, ◌≡◌, ◌≢◌, refl, List, [], ◌∷◌, Option, none, some, ◌⊎◌,
  inl, inr, Bool-cases, Option-cases, bit_or, ltb, ◌==◌, length, arith,
}
use cpp_cores.Encoding.Base64.{load4, group, value, decode_loop, base64decode}

-- The inner loop takes as many characters as it adds to `i`, and stops at four.
abbrev Took : ℕ → Option (ℕ × ℕ × ℕ × List ℕ) → Type 0
Took n none = Unit
Took n (some (i, padding, packed, rest)) = (i + length rest ≡ n) × (i ≤ 4)

load4-Took :
    (s : List ℕ) (n i padding packed : ℕ)
    → i + length s ≡ n
    → i ≤ 4
    → Took n (load4 i padding packed s)
unfolding load4
load4-Took [] n i padding packed e h = (e, h)
load4-Took (c ∷ cs) n i padding packed e h = elim (Bool-cases (ltb i 4)) [
  | inr full ↦ rw full (e, h)
  | inl room ↦ elim (Bool-cases (c == b'=')) [
    | inl eq ↦
        rw (room, eq)
          (load4-Took cs n (i + 1) (padding + 1) (packed * 2 ^ 6) (omega arith) (ground arith))
    | inr ne ↦ elim (Bool-cases (ltb 0 padding)) [
      | inl late ↦ rw (room, ne, late) tt
      | inr fine ↦ elim (Option-cases (value c)) [
        | inl bad ↦ rw (room, ne, fine, bad) tt
        | inr (v, good) ↦
            rw (room, ne, fine, good)
              (load4-Took cs n (i + 1) padding (bit_or (packed * 2 ^ 6) v) (omega arith)
                (ground arith))
      ]
    ]
  ]
]

group_four :
    (i padding packed : ℕ) (rest bytes : List ℕ)
    → group (i, padding, packed, rest) ≡ some bytes
    → i ≡ 4
unfolding group
group_four i padding packed rest bytes e = ground arith

-- A round that goes on has taken four characters.
round_four :
    (s : List ℕ) (load : ℕ × ℕ × ℕ × List ℕ) (bytes : List ℕ)
    → load4 0 0 0 s ≡ some load
    → group load ≡ some bytes
    → length load.3 + 4 ≡ length s
round_four s (i, padding, packed, rest) bytes e g =
    let took : Took (length s) (some (i, padding, packed, rest)) =
      rw e at (load4-Took s (length s) 0 0 0 (omega arith) (omega arith)) in
    omega (arith, took.0, group_four i padding packed rest bytes g)

decode_loop-four : (f : ℕ) (s : List ℕ) → (decode_loop f s ≡ none) ⊎ (length s % 4 ≡ 0)
unfolding decode_loop
decode_loop-four zero [] = inr refl
decode_loop-four (suc f) [] = inr refl
decode_loop-four zero (c ∷ cs) = inl refl
decode_loop-four (suc f) (c ∷ cs) = elim (Option-cases (load4 0 0 0 (c ∷ cs))) [
  | inl bad ↦ inl (rw bad)
  | inr (load, e) ↦ elim (Option-cases (group load)) [
    | inl bad ↦ inl (rw (e, bad))
    | inr (bytes, g) ↦ elim (decode_loop-four f load.3) [
      | inl bad ↦ inl (rw (e, g, bad))
      | inr four ↦ inr (omega (arith, round_four (c ∷ cs) load bytes e g))
    ]
  ]
]

-- A text whose length is no multiple of four decodes to the empty string.
pub base64decode-ragged : (s : List ℕ) → length s % 4 ≢ 0 → base64decode s ≡ []
unfolding base64decode
base64decode-ragged s h = elim (decode_loop-four (length s) s) [
  | inl bad ↦ rw bad
  | inr four ↦ absurd (h four)
]

-- As many rounds as characters are enough: more make no difference.
pub decode_loop_rounds :
    (f g : ℕ) (s : List ℕ) → length s ≤ f → length s ≤ g → decode_loop f s ≡ decode_loop g s
unfolding decode_loop
decode_loop_rounds zero zero [] hf hg = refl
decode_loop_rounds zero (suc g) [] hf hg = refl
decode_loop_rounds (suc f) zero [] hf hg = refl
decode_loop_rounds (suc f) (suc g) [] hf hg = refl
decode_loop_rounds zero g (c ∷ cs) hf hg = absurd (omega arith)
decode_loop_rounds (suc f) zero (c ∷ cs) hf hg = absurd (omega arith)
decode_loop_rounds (suc f) (suc g) (c ∷ cs) hf hg = elim (Option-cases (load4 0 0 0 (c ∷ cs))) [
  | inl bad ↦ rw bad
  | inr (load, e) ↦ elim (Option-cases (group load)) [
    | inl bad ↦ rw (e, bad)
    | inr (bytes, k) ↦
        let four = round_four (c ∷ cs) load bytes e k in
        rw (e, k, decode_loop_rounds f g load.3 (omega arith) (omega arith))
  ]
]
