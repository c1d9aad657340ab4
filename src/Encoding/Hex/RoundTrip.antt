-- ===== src/Encoding/Hex/RoundTrip.antt =====
-- Hexadecimal text and data: each direction undoes the other, and what is refused.
use cpp_cores.Base.{
  ℕ, ◌+◌, ◌*◌, ◌/◌, ◌<◌, ◌≡◌, refl, Bool, true, ◌&&◌, ◌||◌, List, [], ◌∷◌, arith, bit_and, leb,
  if◌then◌else◌, length, Bytes,
}
use cpp_cores.Base.Bits.{bit_and_mask, bit_or_shifted}
use cpp_cores.Encoding.Hex.{
  ok, hex_digit, hex_loop, hexstring_from_data, nibble, join, unhex_loop, unhex_into,
  data_from_hexstring,
}

abbrev pub is_hex : ℕ → Bool
is_hex c = (leb b'a' c && leb c b'f') || (leb b'A' c && leb c b'F') || (leb b'0' c && leb c b'9')

abbrev pub IsHex : ℕ → Type 0
IsHex c = is_hex c ≡ true

-- The lower-case form of a hexadecimal digit.
abbrev pub lower : ℕ → ℕ
lower c = if leb b'A' c && leb c b'F' then c + 32 else c

nibble-hex_digit : (v : ℕ) → v < 16 → nibble (hex_digit v) ≡ ok v
unfolding nibble hex_digit
nibble-hex_digit v h = ground arith

pub join_lem : (hi lo : ℕ) → hi < 16 → lo < 16 → join hi lo ≡ hi * 16 + lo
join_lem hi lo h l = ground (arith, bit_or_shifted 4 hi lo)

high_nibble : (b : ℕ) → b < 256 → bit_and (b / 16) 0xf ≡ b / 16
high_nibble b h = omega (arith, bit_and_mask 4 (b / 16))

join_halves : (b : ℕ) → b < 256 → join (bit_and (b / 16) 0xf) (bit_and b 0xf) ≡ b
join_halves b h =
    ground
      (arith, high_nibble b h, bit_and_mask 4 b, join_lem (bit_and (b / 16) 0xf) (bit_and b 0xf))

low_nibble : (b : ℕ) → bit_and b 0xf < 16
low_nibble b = omega (arith, bit_and_mask 4 b)

unhex-hex : (d : List ℕ) → Bytes d → unhex_loop (hex_loop d) ≡ ok d
unfolding hex_loop unhex_loop
unhex-hex [] _ = refl
unhex-hex (b ∷ bs) (hb, hs) = rw (
  nibble-hex_digit (bit_and (b / 16) 0xf) (low_nibble (b / 16)),
  nibble-hex_digit (bit_and b 0xf) (low_nibble b),
  unhex-hex bs hs,
  join_halves b hb,
)

length-hex_loop : (d : List ℕ) → length (hex_loop d) ≡ 2 * length d
unfolding hex_loop
length-hex_loop [] = refl
length-hex_loop (b ∷ bs) = omega (arith, length-hex_loop bs)

-- Decoding the hexadecimal text of any data returns that data.
pub data-hexstring : (d : List ℕ) → Bytes d → data_from_hexstring (hexstring_from_data d) ≡ ok d
unfolding data_from_hexstring hexstring_from_data unhex_into
data-hexstring [] _ = refl
data-hexstring (b ∷ bs) h = ground (arith, length-hex_loop (b ∷ bs), unhex-hex (b ∷ bs) h)
