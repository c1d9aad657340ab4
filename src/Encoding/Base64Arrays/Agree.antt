-- ===== src/Encoding/Base64Arrays/Agree.antt =====
-- The two encoders of the repository print the same text.
use cpp_cores.Base.{
  ℕ, zero, suc, ◌/◌, ◌^◌, ◌<◌, ◌≤◌, ◌≡◌, refl, sym, ◌∙◌, true, ◌&&◌, List, [], ◌∷◌, map, append-nil,
  bit_and, ◌==◌, length, arith, Bytes,
}
use cpp_cores.Base.Bits.{bit_and_mask, all_below, all_below_sound}
use cpp_cores.Encoding.Base64.{char_at, quad, encode_loop, base64encode}
use cpp_cores.Encoding.Base64.RoundTrip.{
  word3, quad_full, quad_one, quad_two, encode_three, encode_two, encode_one,
}
use cpp_cores.Encoding.Base64Arrays.{
  first_three, all_four, zero_fill, encode_tail, encode_bytes, base64_encoding,
}

mask_table :
    all_below 256 (λ x.
      bit_and x 0xfc / 2 ^ 2 == x / 4
      && bit_and x 0xf0 / 2 ^ 4 == x / 16
      && bit_and x 0xc0 / 2 ^ 6 == x / 64)
    ≡ true
unfolding all_below
mask_table = refl

masks :
    (x : ℕ)
    → x < 256
    → (bit_and x 0xfc / 2 ^ 2 ≡ x / 4)
      × (bit_and x 0xf0 / 2 ^ 4 ≡ x / 16)
      × (bit_and x 0xc0 / 2 ^ 6 ≡ x / 64)
masks x h = ground (
  arith,
  all_below_sound 256
      (λ x.
        bit_and x 0xfc / 2 ^ 2 == x / 4
        && bit_and x 0xf0 / 2 ^ 4 == x / 16
        && bit_and x 0xc0 / 2 ^ 6 == x / 64)
      x mask_table h,
)

all_four_lem :
    (a b c : ℕ)
    → a < 256
    → b < 256
    → c < 256
    → map char_at (all_four (a ∷ b ∷ c ∷ [])) ≡ quad (word3 a b c) 0
unfolding all_four first_three
all_four_lem a b c ha hb hc =
    rw (quad_full (word3 a b c), (masks a ha).0, (masks b hb).1, (masks c hc).2)
      (ground (arith, bit_and_mask 2 a, bit_and_mask 4 b, bit_and_mask 6 c))

tail_two : (a b z : ℕ) → a < 256 → b < 256 → encode_tail 2 (a ∷ b ∷ z ∷ []) ≡ quad (word3 a b 0) 1
unfolding encode_tail first_three zero_fill
tail_two a b z ha hb =
    rw (quad_one (word3 a b 0), (masks a ha).0, (masks b hb).1)
      (ground (arith, bit_and_mask 2 a, bit_and_mask 4 b))

tail_one : (a y z : ℕ) → a < 256 → encode_tail 1 (a ∷ y ∷ z ∷ []) ≡ quad (word3 a 0 0) 2
unfolding encode_tail first_three zero_fill
tail_one a y z ha = rw (quad_two (word3 a 0 0), (masks a ha).0) (ground (arith, bit_and_mask 2 a))

encode_bytes-loop :
    (g : ℕ) (d : List ℕ) (x y z : ℕ)
    → length d ≤ g
    → Bytes d
    → encode_bytes d 0 (x ∷ y ∷ z ∷ []) ≡ encode_loop g d
unfolding encode_bytes encode_loop encode_tail
encode_bytes-loop zero [] x y z hg h = refl
encode_bytes-loop (suc g) [] x y z hg h = refl
encode_bytes-loop zero (a ∷ d) x y z hg h = absurd (omega arith)
encode_bytes-loop (suc g) (a ∷ []) x y z hg h =
    tail_one a y z h.0 ∙ sym (encode_one g a h.0 ∙ append-nil _)
encode_bytes-loop (suc g) (a ∷ b ∷ []) x y z hg h =
    tail_two a b z h.0 h.1.0 ∙ sym (encode_two g a b h.0 h.1.0 ∙ append-nil _)
encode_bytes-loop (suc g) (a ∷ b ∷ c ∷ d) x y z hg h = rw (
  encode_three g a b c d h.0 h.1.0 h.1.1.0,
  all_four_lem a b c h.0 h.1.0 h.1.1.0,
  encode_bytes-loop g d a b c (omega arith) h.1.1.1,
)

-- `Base64Encoding` of encoding.cc and `base64encode` of hash.cc print the same text, whatever the
-- array of the former holds at the start.
pub base64_encoding-base64encode :
    (x y z : ℕ) (d : List ℕ) → Bytes d → base64_encoding (x ∷ y ∷ z ∷ []) d ≡ base64encode d
unfolding base64_encoding base64encode
base64_encoding-base64encode x y z d h = encode_bytes-loop (length d) d x y z (omega arith) h
