-- ===== src/Encoding/Hex/Tests.antt =====
-- Runs of the hexadecimal codec, and its theorems at concrete texts.
use cpp_cores.Base.{◌≡◌, refl, [], ◌∷◌, codes, arith}
use cpp_cores.Encoding.Hex.{
  err, ok, odd_length, invalid_hexstring, hexstring_from_data, data_from_hexstring, hex_loop,
  unhex_into, unhex_loop, nibble, hex_digit,
}
use cpp_cores.Encoding.Hex.Accepts.{Outcome, data_from_hexstring-Outcome}
use cpp_cores.Encoding.Hex.RoundTrip.{data-hexstring}

hex_text : hexstring_from_data (0 ∷ 255 ∷ 171 ∷ []) ≡ codes "00ffab"
unfolding hexstring_from_data hex_loop hex_digit
hex_text = refl

odd_text : data_from_hexstring (codes "00f") ≡ err odd_length
unfolding data_from_hexstring
odd_text = refl

bad_text : data_from_hexstring (codes "0g") ≡ err invalid_hexstring
unfolding data_from_hexstring unhex_into unhex_loop nibble
bad_text = refl

data-hexstring_example :
    data_from_hexstring (hexstring_from_data (0 ∷ 255 ∷ 171 ∷ [])) ≡ ok (0 ∷ 255 ∷ 171 ∷ [])
data-hexstring_example = data-hexstring (0 ∷ 255 ∷ 171 ∷ []) (omega arith)

data_from_hexstring-Outcome_example : Outcome (codes "0aFF") (data_from_hexstring (codes "0aFF"))
data_from_hexstring-Outcome_example = data_from_hexstring-Outcome (codes "0aFF")
