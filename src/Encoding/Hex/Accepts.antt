-- ===== src/Encoding/Hex/Accepts.antt =====
-- Which texts `data_from_hexstring` accepts, what it makes of them, and how it refuses the others.
use cpp_cores.Base.{
  ℕ, ◌+◌, ◌-◌, ◌/◌, ◌%◌, ◌<◌, ◌≡◌, refl, ◌∙◌, ◌⊎◌, inl, inr, false, ◌&&◌, List, [], ◌∷◌, map, arith,
  bit_and, leb, length, All, Bytes, Bool-cases, ℕ_discrete,
}
use cpp_cores.Base.Bits.{bit_and_mask}
use cpp_cores.Encoding.Hex.{
  odd_length, invalid_hexstring, Result, ok, err, ◌>>=◌, hex_digit, hex_loop, hexstring_from_data,
  nibble, join, unhex_loop, unhex_into, data_from_hexstring,
}
use cpp_cores.Encoding.Hex.RoundTrip.{is_hex, IsHex, lower, join_lem}

-- What the `switch` makes of one character.
record Digit (c v : ℕ) : Type 0 where
  value : nibble c ≡ ok v
  small : v < 16
  print : hex_digit v ≡ lower c
  hex : IsHex c

record NoDigit (c : ℕ) : Type 0 where
  refused : nibble c ≡ err invalid_hexstring
  no_hex : is_hex c ≡ false

nibble-cases : (c : ℕ) → ((v : ℕ) × Digit c v) ⊎ NoDigit c
unfolding nibble hex_digit
nibble-cases c = elim (Bool-cases (leb b'a' c && leb c b'f')) [
  | inl a ↦ inl (c - b'a' + 10, ground arith)
  | inr not_a ↦ elim (Bool-cases (leb b'A' c && leb c b'F')) [
    | inl a ↦ inl (c - b'A' + 10, ground arith)
    | inr not_b ↦ elim (Bool-cases (leb b'0' c && leb c b'9')) [
      | inl a ↦ inl (c - b'0', ground arith)
      | inr not_c ↦ inr (ground arith)
    ]
  ]
]

-- What a result of the loop says of the text.
abbrev Verdict : List ℕ → Result (List ℕ) → Type 0
Verdict s (ok d) = All IsHex s × (hex_loop d ≡ map lower s) × Bytes d
Verdict s (err odd_length) = ⊥
Verdict s (err invalid_hexstring) = ¬ All IsHex s

halves_of_join :
    (hi lo : ℕ)
    → hi < 16
    → lo < 16
    → (bit_and (join hi lo / 16) 0xf ≡ hi) × (bit_and (join hi lo) 0xf ≡ lo) × (join hi lo < 256)
halves_of_join hi lo h l =
    ground
      (arith, join_lem hi lo h l, bit_and_mask 4 (join hi lo / 16), bit_and_mask 4 (join hi lo))

Verdict-cons :
    (h l u v : ℕ) (s : List ℕ) (r : Result (List ℕ))
    → Digit h u
    → Digit l v
    → Verdict s r
    → Verdict (h ∷ l ∷ s) (r >>= λ bytes. ok (join u v ∷ bytes))
unfolding hex_loop
Verdict-cons h l u v s (ok d) dh dl (hex, text, bytes) =
    let halves = halves_of_join u v dh.small dl.small in
    ((dh.hex, (dl.hex, hex)), rw (halves.0, halves.1, dh.print, dl.print, text), (halves.2, bytes))
Verdict-cons h l u v s (err odd_length) dh dl w = w
Verdict-cons h l u v s (err invalid_hexstring) dh dl w = λ hs. w hs.1.1

unhex_loop-Verdict : (s : List ℕ) → length s % 2 ≡ 0 → Verdict s (unhex_loop s)
unfolding unhex_loop hex_loop
unhex_loop-Verdict [] e = (tt, refl, tt)
unhex_loop-Verdict (h ∷ []) e = absurd (omega arith)
unhex_loop-Verdict (h ∷ l ∷ s) e = elim (nibble-cases h) [
  | inr nh ↦ rw nh.refused (λ hs. cc (hs.0, nh.no_hex))
  | inl (u, dh) ↦ elim (nibble-cases l) [
    | inr nl ↦ rw (dh.value, nl.refused) (λ hs. cc (hs.1.0, nl.no_hex))
    | inl (v, dl) ↦
        rw (dh.value, dl.value)
          (Verdict-cons h l u v s (unhex_loop s) dh dl (unhex_loop-Verdict s (omega arith)))
  ]
]

-- The outcome on each kind of text, for both checks and the loop.
abbrev pub Outcome : List ℕ → Result (List ℕ) → Type 0
Outcome s (ok d) =
    (length s % 2 ≡ 0) × All IsHex s × (hexstring_from_data d ≡ map lower s) × Bytes d
Outcome s (err odd_length) = length s % 2 ≡ 1
Outcome s (err invalid_hexstring) = (length s % 2 ≡ 0) × (¬ All IsHex s)

hexstring_from_data_lem : (d : List ℕ) → hexstring_from_data d ≡ hex_loop d
unfolding hexstring_from_data hex_loop
hexstring_from_data_lem [] = refl
hexstring_from_data_lem (b ∷ d) = ground arith

data_from_hexstring_even : (s : List ℕ) → length s % 2 ≡ 0 → data_from_hexstring s ≡ unhex_loop s
unfolding data_from_hexstring unhex_into unhex_loop
data_from_hexstring_even [] e = refl
data_from_hexstring_even (c ∷ s) e = ground arith

data_from_hexstring_odd : (s : List ℕ) → length s % 2 ≡ 1 → data_from_hexstring s ≡ err odd_length
unfolding data_from_hexstring
data_from_hexstring_odd s e = ground arith

Outcome-Verdict : (s : List ℕ) (r : Result (List ℕ)) → length s % 2 ≡ 0 → Verdict s r → Outcome s r
Outcome-Verdict s (ok d) e (hex, text, bytes) = (e, hex, hexstring_from_data_lem d ∙ text, bytes)
Outcome-Verdict s (err odd_length) e w = absurd w
Outcome-Verdict s (err invalid_hexstring) e w = (e, w)

-- `data_from_hexstring` reports `odd_length` only for a text of odd length, `invalid_hexstring` only
-- for one of even length with a character that is no hexadecimal digit; a text that it accepts has
-- even length and digits alone, and printing the bytes read gives the text in lower case.
pub data_from_hexstring-Outcome : (s : List ℕ) → Outcome s (data_from_hexstring s)
data_from_hexstring-Outcome s = elim (ℕ_discrete (length s % 2) 0) [
  | yes even ↦
      rw (data_from_hexstring_even s even)
        (Outcome-Verdict s (unhex_loop s) even (unhex_loop-Verdict s even))
  | no odd ↦ let e : length s % 2 ≡ 1 = omega arith in rw (data_from_hexstring_odd s e) e
]
