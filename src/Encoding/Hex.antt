-- ===== src/Encoding/Hex.antt =====
-- src/utils/hash.cc: `hexstring_from_data` and `data_from_hexstring`. The pointer-and-length
-- arguments are the list of the bytes they delimit; the output buffer is the list of its writes.
pub mod RoundTrip
pub mod Accepts
mod Tests
use cpp_cores.Base.{
  ℕ, ◌+◌, ◌-◌, ◌*◌, ◌/◌, ◌%◌, Bool, ◌&&◌, List, [], ◌∷◌, Option, none, some, bit_and, bit_or, ltb,
  leb, ◌==◌, if◌then◌else◌, length, not,
}

-- `throw std::invalid_argument`, with one case for each message.
pub data Error : Type 0 where
  odd_length : Error
  invalid_hexstring : Error

pub data Result (A : Type 0) : Type 0 where
  ok : A → Result A
  err : Error → Result A

infixl 5 ◌>>=◌
abbrev pub ◌>>=◌ : {A B : Type 0} → Result A → (A → Result B) → Result B
ok a >>= f = f a
err e >>= f = err e

-- `c = (c > 9) ? c + 'a' - 10 : c + '0'`
pub hex_digit : ℕ → ℕ
hex_digit c = if ltb 9 c then c + b'a' - 10 else c + b'0'

-- The loop over the bytes: two digits for each.
pub hex_loop : List ℕ → List ℕ
hex_loop [] = []
hex_loop (b ∷ bs) = hex_digit (bit_and (b / 16) 0xf) ∷ hex_digit (bit_and b 0xf) ∷ hex_loop bs

pub hexstring_from_data : List ℕ → List ℕ
hexstring_from_data data_ = if length data_ == 0 then [] else hex_loop data_

-- The `switch` on one character: the value of the digit, or the exception of `default`.
pub nibble : ℕ → Result ℕ
nibble c =
    if leb b'a' c && leb c b'f'
    then ok (c - b'a' + 10)
    else if leb b'A' c && leb c b'F'
    then ok (c - b'A' + 10)
    else if leb b'0' c && leb c b'9'
    then ok (c - b'0')
    else err invalid_hexstring

-- `byte = hi << 4; byte |= lo;` on an `unsigned char`.
abbrev pub join : ℕ → ℕ → ℕ
join hi lo = bit_or (hi * 16 % 256) lo

-- The loop over the characters, two in a round. It is entered with an even number of them, so the
-- clause for a single one is never taken.
pub unhex_loop : List ℕ → Result (List ℕ)
unhex_loop [] = ok []
unhex_loop (h ∷ []) = err invalid_hexstring
unhex_loop (h ∷ l ∷ rest) = do
  hi ← nibble h
  lo ← nibble l
  bytes ← unhex_loop rest
  ok (join hi lo ∷ bytes)

-- The overload that writes to a buffer.
pub unhex_into : List ℕ → Result (List ℕ)
unhex_into s = if not (length s % 2 == 0) then err odd_length else unhex_loop s

pub data_from_hexstring : List ℕ → Result (List ℕ)
data_from_hexstring s =
    if not (length s % 2 == 0)
    then err odd_length
    else if length s == 0
    then ok []
    else unhex_into s
