-- ===== src/Encoding/Fixed/RoundTrip.antt =====
-- Fixed-width integers and their little-endian bytes: each direction undoes the other.
use cpp_cores.Base.{ℕ, ◌+◌, ◌*◌, ◌/◌, ◌%◌, ◌^◌, ◌<◌, ◌≡◌, [], ◌∷◌, arith, Bytes}
use cpp_cores.Base.Bits.{bit_or_onto}
use cpp_cores.Encoding.Fixed.{encode_fixed32, encode_fixed64, decode_fixed32, decode_fixed64}

-- The bytes of a buffer as digits to the base 256.
pub decode_fixed32_lem :
    (a b c d : ℕ)
    → a < 256
    → b < 256
    → c < 256
    → d < 256
    → decode_fixed32 (a ∷ b ∷ c ∷ d ∷ []) ≡ a + 2 ^ 8 * b + 2 ^ 16 * c + 2 ^ 24 * d
unfolding decode_fixed32
decode_fixed32_lem a b c d ha hb hc hd = ground (
  arith,
  bit_or_onto 8 b a,
  bit_or_onto 16 c (a + 2 ^ 8 * b),
  bit_or_onto 24 d (a + 2 ^ 8 * b + 2 ^ 16 * c),
)

-- Decoding the four bytes of a 32-bit number gives the number, and encoding what any four bytes
-- decode to gives the bytes.
pub fixed32_inverse :
    (v a b c d : ℕ)
    → v < 2 ^ 32
    → Bytes (a ∷ b ∷ c ∷ d ∷ [])
    → (decode_fixed32 (encode_fixed32 v) ≡ v)
      × (encode_fixed32 (decode_fixed32 (a ∷ b ∷ c ∷ d ∷ [])) ≡ a ∷ b ∷ c ∷ d ∷ [])
unfolding encode_fixed32
fixed32_inverse v a b c d hv h = (
  omega (
    arith,
    decode_fixed32_lem (v % 256) (v / 2 ^ 8 % 256) (v / 2 ^ 16 % 256) (v / 2 ^ 24 % 256)
        (omega arith) (omega arith) (omega arith) (omega arith),
  ),
  rw (decode_fixed32_lem a b c d (omega arith) (omega arith) (omega arith) (omega arith))
      (ground arith),
)

decode_fixed64_lem :
    (a b c d e f g h : ℕ)
    → Bytes (a ∷ b ∷ c ∷ d ∷ e ∷ f ∷ g ∷ h ∷ [])
    → decode_fixed64 (a ∷ b ∷ c ∷ d ∷ e ∷ f ∷ g ∷ h ∷ [])
      ≡ a + 2 ^ 8 * b + 2 ^ 16 * c + 2 ^ 24 * d + 2 ^ 32 * e + 2 ^ 40 * f + 2 ^ 48 * g + 2 ^ 56 * h
unfolding decode_fixed64
decode_fixed64_lem a b c d e f g h bytes = ground (
  arith,
  bit_or_onto 8 b a,
  bit_or_onto 16 c (a + 2 ^ 8 * b),
  bit_or_onto 24 d (a + 2 ^ 8 * b + 2 ^ 16 * c),
  bit_or_onto 32 e (a + 2 ^ 8 * b + 2 ^ 16 * c + 2 ^ 24 * d),
  bit_or_onto 40 f (a + 2 ^ 8 * b + 2 ^ 16 * c + 2 ^ 24 * d + 2 ^ 32 * e),
  bit_or_onto 48 g (a + 2 ^ 8 * b + 2 ^ 16 * c + 2 ^ 24 * d + 2 ^ 32 * e + 2 ^ 40 * f),
  bit_or_onto 56 h (a + 2 ^ 8 * b + 2 ^ 16 * c + 2 ^ 24 * d + 2 ^ 32 * e + 2 ^ 40 * f + 2 ^ 48 * g),
)

-- Decoding the eight bytes of a 64-bit number gives the number.
pub fixed64_inverse : (v : ℕ) → v < 2 ^ 64 → decode_fixed64 (encode_fixed64 v) ≡ v
unfolding encode_fixed64
fixed64_inverse v h = omega (
  arith,
  decode_fixed64_lem (v % 256) (v / 2 ^ 8 % 256) (v / 2 ^ 16 % 256) (v / 2 ^ 24 % 256)
      (v / 2 ^ 32 % 256) (v / 2 ^ 40 % 256) (v / 2 ^ 48 % 256) (v / 2 ^ 56 % 256) (omega arith),
)
