-- ===== src/Encoding/Base64.antt =====
-- src/utils/hash.cc: `base64encode` and `base64decode`. A pointer that runs up to `end` is the list
-- of what is left. `packed` of the encoder is a 32-bit word; `int packed` of the decoder holds at
-- most 24 bits, so its shifts are written without a wrap.
pub mod Groups
pub mod RoundTrip
pub mod Refuses
mod Tests
use cpp_cores.Base.{
  ℕ, zero, suc, ◌+◌, ◌-◌, ◌*◌, ◌/◌, ◌%◌, ◌^◌, Bool, true, false, ◌&&◌, not, List, [], ◌∷◌, ◌++◌,
  Option, none, some, bit_and, bit_or, ltb, leb, ◌==◌, if◌then◌else◌, length, get_or, codes,
  replicate,
}

abbrev pub alphabet : List ℕ
alphabet = codes "ABCDEFGHIJKLMNOPQRSTUVWXYZabcdefghijklmnopqrstuvwxyz0123456789+/"

-- `base64[i]`; every index that the code forms is below 64.
unfoldable pub char_at : ℕ → ℕ
char_at i = get_or alphabet i 0

-- `packed = (packed << 8) | *ptr`, on `unsigned int`.
pub push_byte : ℕ → ℕ → ℕ
push_byte packed b = bit_or (packed * 2 ^ 8 % 2 ^ 32) b

-- `for (; i < 3 && ptr < end; ++i, ++ptr)`: the word, `i`, and the bytes that are left.
pub load3 : ℕ → ℕ → List ℕ → ℕ × ℕ × List ℕ
load3 packed i [] = (packed, i, [])
load3 packed i (b ∷ bs) =
    if ltb i 3 then load3 (push_byte packed b) (i + 1) bs else (packed, i, b ∷ bs)

-- `for (; i < 3; ++i) packed <<= 8;` on the rounds that are left.
pub pad_word : ℕ → ℕ → ℕ
pad_word zero packed = packed
pad_word (suc rounds) packed = pad_word rounds (packed * 2 ^ 8 % 2 ^ 32)

-- What one round appends.
pub quad : ℕ → ℕ → List ℕ
quad packed padding =
    char_at (packed / 2 ^ 18)
      ∷ char_at (bit_and (packed / 2 ^ 12) 0x3f)
      ∷ (if not (padding == 2) then char_at (bit_and (packed / 2 ^ 6) 0x3f) ∷ [] else [])
    ++ (if padding == 0 then char_at (bit_and packed 0x3f) ∷ [] else [])
    ++ replicate padding b'='

-- Each round takes at least one byte, so as many rounds as bytes are enough.
unfoldable pub encode_loop : ℕ → List ℕ → List ℕ
encode_loop fuel [] = []
encode_loop zero (b ∷ bs) = []
encode_loop (suc fuel) (b ∷ bs) =
    let (packed, i, rest) = load3 0 0 (b ∷ bs) in
    let padding : ℕ = if i == 2 then 1 else if i == 1 then 2 else 0 in
    quad (pad_word (3 - i) packed) padding ++ encode_loop fuel rest

unfoldable pub base64encode : List ℕ → List ℕ
base64encode data_ = encode_loop (length data_) data_

infixl 5 ◌>>=◌
abbrev pub ◌>>=◌ {ℓ κ} : {A : Type ℓ} {B : Type κ} → Option A → (A → Option B) → Option B
none >>= f = none
some a >>= f = f a

-- The ladder of ranges; `none` is the `return ""` of an invalid character.
pub value : ℕ → Option ℕ
value c =
    if leb b'A' c && leb c b'Z'
    then some (c - b'A')
    else if leb b'a' c && leb c b'z'
    then some (c - b'a' + 26)
    else if leb b'0' c && leb c b'9'
    then some (c - b'0' + 52)
    else if c == b'+'
    then some 62
    else if c == b'/'
    then some 63
    else none

-- The inner loop of the decoder. The result is `i`, `padding`, `packed` and the text that is left;
-- `none` is a `return ""`.
pub load4 : ℕ → ℕ → ℕ → List ℕ → Option (ℕ × ℕ × ℕ × List ℕ)
load4 i padding packed [] = some (i, padding, packed, [])
load4 i padding packed (c ∷ cs) =
    let pad = load4 (i + 1) (padding + 1) (packed * 2 ^ 6) cs in
    let digit = value c >>= λ val. load4 (i + 1) padding (bit_or (packed * 2 ^ 6) val) cs in
    if ltb i 4
    then (if c == b'=' then pad else if ltb 0 padding then none else digit)
    else some (i, padding, packed, c ∷ cs)

abbrev is_end : List ℕ → Bool
is_end [] = true
is_end (c ∷ cs) = false

-- The three checks after the inner loop, and the bytes that the round writes.
pub group : ℕ × ℕ × ℕ × List ℕ → Option (List ℕ)
group (i, padding, packed, rest) =
    if not (i == 4)
    then none
    else if ltb 0 padding && not (is_end rest)
    then none
    else if ltb 2 padding
    then none
    else some (
        bit_and (packed / 2 ^ 16) 0xff
          ∷ (if not (padding == 2) then bit_and (packed / 2 ^ 8) 0xff ∷ [] else [])
        ++ (if padding == 0 then bit_and packed 0xff ∷ [] else []))

-- `none` is a `return ""`. Each round takes at least one character, so as many rounds as characters
-- are enough.
pub decode_loop : ℕ → List ℕ → Option (List ℕ)
decode_loop fuel [] = some []
decode_loop zero (c ∷ cs) = none
decode_loop (suc fuel) (c ∷ cs) = do
  loaded ← load4 0 0 0 (c ∷ cs)
  bytes ← group loaded
  more ← decode_loop fuel loaded.3
  some (bytes ++ more)

abbrev or_empty : Option (List ℕ) → List ℕ
or_empty none = []
or_empty (some bytes) = bytes

pub base64decode : List ℕ → List ℕ
base64decode src = or_empty (decode_loop (length src) src)
