-- ===== src/Encoding/Base64/Groups.antt =====
-- One round of the encoder and one of the decoder, as arithmetic.
use cpp_cores.Base.{
  ℕ, ◌+◌, ◌*◌, ◌^◌, ◌<◌, ◌≡◌, refl, Bool, true, false, ◌&&◌, not, List, [], ◌∷◌, ◌∙◌, Option, none,
  some, ◌==◌, arith,
}
use cpp_cores.Base.Bits.{bit_or_shifted, all_below, all_below_sound}
use cpp_cores.Encoding.Base64.{char_at, push_byte, load3, value, load4}

pub push_byte_lem : (p b : ℕ) → p < 2 ^ 24 → b < 256 → push_byte p b ≡ p * 256 + b
unfolding push_byte
push_byte_lem p b hp hb = ground (arith, bit_or_shifted 8 p b)

abbrev is_some_of : Option ℕ → ℕ → Bool
is_some_of none v = false
is_some_of (some u) v = u == v

-- The ladder of the decoder inverts the alphabet of the encoder, which has no `=`.
alphabet_table :
    all_below 64 (λ v. is_some_of (value (char_at v)) v && not (char_at v == b'=')) ≡ true
unfolding all_below value char_at
alphabet_table = refl

pub value-char_at : (v : ℕ) → v < 64 → (value (char_at v) ≡ some v) × ((char_at v == b'=') ≡ false)
value-char_at v h = ground (
  arith,
  all_below_sound 64 (λ v. is_some_of (value (char_at v)) v && not (char_at v == b'=')) v
      alphabet_table h,
)

pub load3-full : (p : ℕ) (rest : List ℕ) → load3 p 3 rest ≡ (p, 3, rest)
unfolding load3
load3-full p [] = refl
load3-full p (b ∷ bs) = refl

pub load4-full :
    (padding p : ℕ) (rest : List ℕ) → load4 4 padding p rest ≡ some (4, padding, p, rest)
unfolding load4
load4-full padding p [] = refl
load4-full padding p (c ∷ cs) = refl

-- The decoder takes in one digit of the alphabet.
load4-digit :
    (i p v : ℕ) (rest : List ℕ)
    → i < 4
    → v < 64
    → load4 i 0 p (char_at v ∷ rest) ≡ load4 (i + 1) 0 (p * 64 + v) rest
unfolding load4
load4-digit i p v rest hi hv = ground (arith, value-char_at v hv, bit_or_shifted 6 p v)

-- It takes in a `=`.
load4-equals :
    (i padding p : ℕ) (rest : List ℕ)
    → i < 4
    → load4 i padding p (b'=' ∷ rest) ≡ load4 (i + 1) (padding + 1) (p * 64) rest
unfolding load4
load4-equals i padding p rest hi = ground arith

module _ (u v : ℕ) (hu : u < 64) (hv : v < 64) (rest : List ℕ) where
  pub load4_two :
      load4 0 0 0 (char_at u ∷ char_at v ∷ b'=' ∷ b'=' ∷ rest)
      ≡ some (4, 2, ((0 * 64 + u) * 64 + v) * 64 * 64, rest)
  load4_two =
      load4-digit 0 0 u _ (omega arith) hu
      ∙ load4-digit 1 (0 * 64 + u) v _ (omega arith) hv
      ∙ load4-equals 2 0 ((0 * 64 + u) * 64 + v) _ (omega arith)
      ∙ load4-equals 3 1 (((0 * 64 + u) * 64 + v) * 64) _ (omega arith)
      ∙ load4-full 2 _ rest

  pub load4_three :
      (w : ℕ)
      → w < 64
      → load4 0 0 0 (char_at u ∷ char_at v ∷ char_at w ∷ b'=' ∷ rest)
        ≡ some (4, 1, (((0 * 64 + u) * 64 + v) * 64 + w) * 64, rest)
  load4_three w hw =
      load4-digit 0 0 u _ (omega arith) hu
      ∙ load4-digit 1 (0 * 64 + u) v _ (omega arith) hv
      ∙ load4-digit 2 ((0 * 64 + u) * 64 + v) w _ (omega arith) hw
      ∙ load4-equals 3 0 (((0 * 64 + u) * 64 + v) * 64 + w) _ (omega arith)
      ∙ load4-full 1 _ rest

  pub load4_quad :
      (w x : ℕ)
      → w < 64
      → x < 64
      → load4 0 0 0 (char_at u ∷ char_at v ∷ char_at w ∷ char_at x ∷ rest)
        ≡ some (4, 0, (((0 * 64 + u) * 64 + v) * 64 + w) * 64 + x, rest)
  load4_quad w x hw hx =
      load4-digit 0 0 u _ (omega arith) hu
      ∙ load4-digit 1 (0 * 64 + u) v _ (omega arith) hv
      ∙ load4-digit 2 ((0 * 64 + u) * 64 + v) w _ (omega arith) hw
      ∙ load4-digit 3 (((0 * 64 + u) * 64 + v) * 64 + w) x _ (omega arith) hx
      ∙ load4-full 0 _ rest
