-- ===== src/Encoding/Base64Arrays/Tests.antt =====
-- Runs of the base64 codec of encoding.cc, and its theorems at concrete data.
use cpp_cores.Base.{◌≡◌, ◌<◌, ◌^◌, length, some, refl, [], ◌∷◌, codes, arith}
use cpp_cores.Encoding.Base64.{base64encode, char_at}
use cpp_cores.Encoding.Base64Arrays.{
  base64_encoding, base64_decoding, encode_bytes, encode_tail, all_four, first_three, zero_fill,
  decode_chars, decode_tail, find_all, find, find_from, three_bytes, is_base64, isalnum,
}
use cpp_cores.Encoding.Base64Arrays.Agree.{base64_encoding-base64encode}
use cpp_cores.Encoding.Base64Arrays.RoundTrip.{base64_decoding-base64_encoding}

printed : base64_encoding (1 ∷ 2 ∷ 3 ∷ []) (codes "light w") ≡ codes "bGlnaHQgdw=="
unfolding base64_encoding encode_bytes encode_tail all_four first_three zero_fill char_at
printed = refl

-- The loop stops at the first character outside the alphabet.
read_stops : base64_decoding (1 ∷ 2 ∷ 3 ∷ 4 ∷ []) (codes "TWFu!!!!") ≡ some (codes "Man")
unfolding base64_decoding decode_chars decode_tail find_all find find_from three_bytes is_base64
    isalnum
read_stops = refl

base64_encoding-base64encode_example :
    base64_encoding (1 ∷ 2 ∷ 3 ∷ []) (codes "Ma") ≡ base64encode (codes "Ma")
base64_encoding-base64encode_example = base64_encoding-base64encode 1 2 3 (codes "Ma") (omega arith)

ma_short : length (base64_encoding (1 ∷ 2 ∷ 3 ∷ []) (codes "Ma")) < 2 ^ 31
unfolding base64_encoding encode_bytes encode_tail all_four first_three zero_fill char_at
ma_short = omega arith

base64_decoding-base64_encoding_example :
    base64_decoding (4 ∷ 5 ∷ 6 ∷ 7 ∷ []) (base64_encoding (1 ∷ 2 ∷ 3 ∷ []) (codes "Ma"))
    ≡ some (codes "Ma")
base64_decoding-base64_encoding_example =
    base64_decoding-base64_encoding 1 2 3 4 5 6 7 (codes "Ma") (omega arith) ma_short
