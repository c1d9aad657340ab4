-- ===== src/Encoding/Base64Arrays.antt =====
-- src/utils/encoding.h and encoding.cc: `Base64Encoding` and `Base64Decoding`, which work in the
-- arrays `char_array_3` and `char_array_4`. The arrays are not initialised: what they hold at the
-- start is an argument, `a3` or `a4`. An `unsigned char` is a number below 256.
pub mod Agree
pub mod RoundTrip
mod Tests
use cpp_cores.Base.{
  ℕ, zero, suc, ◌+◌, ◌-◌, ◌*◌, ◌/◌, ◌%◌, ◌^◌, Bool, ◌&&◌, ◌||◌, not, List, [], ◌∷◌, ◌++◌, map,
  bit_and, leb, ltb, ◌==◌, Option, none, some, if◌then◌else◌, length, get_or, set, take, replicate,
}
use cpp_cores.Encoding.Base64.{alphabet, char_at}

abbrev pub u8 : ℕ → ℕ
u8 n = n % 256

-- `char_array_4[0..2]` from `char_array_3`.
pub first_three : List ℕ → List ℕ
first_three a3 =
    u8 (bit_and (get_or a3 0 0) 0xfc / 2 ^ 2)
    ∷ u8 (bit_and (get_or a3 0 0) 0x03 * 2 ^ 4 + bit_and (get_or a3 1 0) 0xf0 / 2 ^ 4)
    ∷ u8 (bit_and (get_or a3 1 0) 0x0f * 2 ^ 2 + bit_and (get_or a3 2 0) 0xc0 / 2 ^ 6)
    ∷ []

-- All of `char_array_4`.
pub all_four : List ℕ → List ℕ
all_four a3 = first_three a3 ++ u8 (bit_and (get_or a3 2 0) 0x3f) ∷ []

-- `for (j = i; j < 3; j++) char_array_3[j] = '\0';` on the rounds that are left.
pub zero_fill : ℕ → ℕ → List ℕ → List ℕ
zero_fill zero j a3 = a3
zero_fill (suc rounds) j a3 = zero_fill rounds (j + 1) (set a3 j 0)

-- `if (i) { … }` after the loop.
pub encode_tail : ℕ → List ℕ → List ℕ
encode_tail i a3 =
    if i == 0
    then []
    else map char_at (take (i + 1) (first_three (zero_fill (3 - i) i a3))) ++ replicate (3 - i) b'='

pub encode_bytes : List ℕ → ℕ → List ℕ → List ℕ
encode_bytes [] i a3 = encode_tail i a3
encode_bytes (b ∷ bs) i a3 =
    let full = encode_bytes bs 0 (set a3 i b) in
    let more = encode_bytes bs (i + 1) (set a3 i b) in
    if i + 1 == 3 then map char_at (all_four (set a3 i b)) ++ full else more

pub base64_encoding : List ℕ → List ℕ → List ℕ
base64_encoding a3 bytes = encode_bytes bytes 0 a3

-- `isalnum` of the "C" locale.
pub isalnum : ℕ → Bool
isalnum c = (leb b'0' c && leb c b'9') || (leb b'A' c && leb c b'Z') || (leb b'a' c && leb c b'z')

pub is_base64 : ℕ → Bool
is_base64 c = isalnum c || c == b'+' || c == b'/'

-- `base64_chars.find(c)`: the first position, or `npos`.
pub find_from : ℕ → List ℕ → ℕ → ℕ
find_from i [] c = 2 ^ 64 - 1
find_from i (x ∷ xs) c = if x == c then i else find_from (i + 1) xs c

pub find : ℕ → ℕ
find c = u8 (find_from 0 alphabet c)

-- `char_array_3` from the values in `char_array_4`.
pub three_bytes : List ℕ → List ℕ
three_bytes a4 =
    u8 (get_or a4 0 0 * 2 ^ 2 + bit_and (get_or a4 1 0) 0x30 / 2 ^ 4)
    ∷ u8 (bit_and (get_or a4 1 0) 0xf * 2 ^ 4 + bit_and (get_or a4 2 0) 0x3c / 2 ^ 2)
    ∷ u8 (bit_and (get_or a4 2 0) 0x3 * 2 ^ 6 + get_or a4 3 0)
    ∷ []

-- `for (j = 0; j < i; j++) char_array_4[j] = base64_chars.find(char_array_4[j]);`
pub find_all : ℕ → List ℕ → List ℕ
find_all zero a4 = a4
find_all (suc i) [] = []
find_all (suc i) (c ∷ a4) = find c ∷ find_all i a4

-- `if (i) { … }` after the loop.
pub decode_tail : ℕ → List ℕ → List ℕ
decode_tail i a4 = if i == 0 then [] else take (i - 1) (three_bytes (find_all i a4))

pub decode_chars : List ℕ → ℕ → List ℕ → List ℕ
decode_chars [] i a4 = decode_tail i a4
decode_chars (c ∷ cs) i a4 =
    let full = decode_chars cs 0 (find_all 4 (set a4 i c)) in
    let more = decode_chars cs (i + 1) (set a4 i c) in
    if not (c == b'=') && is_base64 c
    then (if i + 1 == 4 then three_bytes (find_all 4 (set a4 i c)) ++ full else more)
    else decode_tail i a4

-- `in_len` and `in_` are of type `int`: from 2^31 characters on they leave its range, and the result is
-- `none`.
pub base64_decoding : List ℕ → List ℕ → Option (List ℕ)
base64_decoding a4 encoded =
    if ltb (length encoded) (2 ^ 31) then some (decode_chars encoded 0 a4) else none
