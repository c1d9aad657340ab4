-- ===== src/Encoding/Fixed.antt =====
-- src/utils/encoding.h: `EncodeFixed32`, `EncodeFixed64`, `DecodeFixed32`, `DecodeFixed64`. The
-- encoders write a buffer, here the list of the bytes; the decoders read one.
pub mod RoundTrip
mod Tests
use cpp_cores.Base.{ℕ, ◌*◌, ◌/◌, ◌%◌, ◌^◌, List, [], ◌∷◌, bit_or, get_or}

-- `static_cast<uint8_t>(v)`
abbrev u8 : ℕ → ℕ
u8 v = v % 256

pub encode_fixed32 : ℕ → List ℕ
encode_fixed32 value =
    u8 value ∷ u8 (value / 2 ^ 8) ∷ u8 (value / 2 ^ 16) ∷ u8 (value / 2 ^ 24) ∷ []

unfoldable pub encode_fixed64 : ℕ → List ℕ
encode_fixed64 value =
    u8 value
    ∷ u8 (value / 2 ^ 8)
    ∷ u8 (value / 2 ^ 16)
    ∷ u8 (value / 2 ^ 24)
    ∷ u8 (value / 2 ^ 32)
    ∷ u8 (value / 2 ^ 40)
    ∷ u8 (value / 2 ^ 48)
    ∷ u8 (value / 2 ^ 56)
    ∷ []

-- `static_cast<uint32_t>(buffer[i]) << k`
abbrev shl32 : ℕ → ℕ → ℕ
shl32 b k = b * 2 ^ k % 2 ^ 32

abbrev shl64 : ℕ → ℕ → ℕ
shl64 b k = b * 2 ^ k % 2 ^ 64

unfoldable pub decode_fixed32 : List ℕ → ℕ
decode_fixed32 buffer =
    bit_or
      (bit_or (bit_or (get_or buffer 0 0) (shl32 (get_or buffer 1 0) 8))
        (shl32 (get_or buffer 2 0) 16))
      (shl32 (get_or buffer 3 0) 24)

unfoldable pub decode_fixed64 : List ℕ → ℕ
decode_fixed64 buffer =
    let or1 = bit_or (get_or buffer 0 0) (shl64 (get_or buffer 1 0) 8) in
    let or2 = bit_or or1 (shl64 (get_or buffer 2 0) 16) in
    let or3 = bit_or or2 (shl64 (get_or buffer 3 0) 24) in
    let or4 = bit_or or3 (shl64 (get_or buffer 4 0) 32) in
    let or5 = bit_or or4 (shl64 (get_or buffer 5 0) 40) in
    let or6 = bit_or or5 (shl64 (get_or buffer 6 0) 48) in bit_or or6 (shl64 (get_or buffer 7 0) 56)
