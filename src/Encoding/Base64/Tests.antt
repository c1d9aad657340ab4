-- ===== src/Encoding/Base64/Tests.antt =====
-- Runs of the base64 codec of hash.cc, and its theorems at concrete data.
use cpp_cores.Base.{◌≡◌, refl, [], codes, arith}
use cpp_cores.Encoding.Base64.{
  char_at, push_byte, load3, pad_word, quad, encode_loop, base64encode, value, load4, group,
  decode_loop, base64decode,
}
use cpp_cores.Encoding.Base64.RoundTrip.{base64decode-base64encode}

encoded : base64encode (codes "Man") ≡ codes "TWFu"
unfolding base64encode encode_loop quad pad_word load3 push_byte char_at
encoded = refl

encoded_padded : base64encode (codes "light w") ≡ codes "bGlnaHQgdw=="
unfolding base64encode encode_loop quad pad_word load3 push_byte char_at
encoded_padded = refl

decoded_padded : base64decode (codes "bGlnaHQgdw==") ≡ codes "light w"
unfolding base64decode decode_loop group load4 value
decoded_padded = refl

decoded_invalid : base64decode (codes "bGln!HQgdw==") ≡ []
unfolding base64decode decode_loop group load4 value
decoded_invalid = refl

decoded_inner_padding : base64decode (codes "dw==dw==") ≡ []
unfolding base64decode decode_loop group load4 value
decoded_inner_padding = refl

base64decode-base64encode_example : base64decode (base64encode (codes "light w")) ≡ codes "light w"
base64decode-base64encode_example = base64decode-base64encode (codes "light w") (omega arith)
