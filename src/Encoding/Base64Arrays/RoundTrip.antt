-- ===== src/Encoding/Base64Arrays/RoundTrip.antt =====
-- `Base64Decoding` reads back what either encoder prints.
use cpp_cores.Base.{
  ℕ, zero, suc, ◌/◌, ◌^◌, ◌<◌, ◌≤◌, ◌≡◌, refl, ap, ltb, some, true, not, ◌&&◌, List, [], ◌∷◌, ◌++◌,
  bit_and, ◌==◌, length, take, arith, Bytes,
}
use cpp_cores.Base.Bits.{bit_and_mask, all_below, all_below_sound}
use cpp_cores.Encoding.Base64.{char_at, encode_loop, base64encode}
use cpp_cores.Encoding.Base64.RoundTrip.{
  s0, s1, s2, s3, word3, quad_full, quad_one, quad_two, encode_three, encode_two, encode_one,
}
use cpp_cores.Encoding.Base64Arrays.{
  isalnum, is_base64, find_from, find, three_bytes, find_all, decode_tail, decode_chars,
  base64_decoding, base64_encoding,
}
use cpp_cores.Encoding.Base64Arrays.Agree.{base64_encoding-base64encode}

-- Every character of the alphabet is taken, and found at its place.
letter_table :
    all_below 64 (λ v. not (char_at v == b'=') && is_base64 (char_at v) && find (char_at v) == v)
    ≡ true
unfolding all_below char_at is_base64 isalnum find find_from
letter_table = refl

record IsLetter (c v : ℕ) : Type 0 where
  taken : (not (c == b'=') && is_base64 c) ≡ true
  found : find c ≡ v

letter : (v : ℕ) → v < 64 → IsLetter (char_at v) v
letter v h = ground (
  arith,
  all_below_sound 64
      (λ v. not (char_at v == b'=') && is_base64 (char_at v) && find (char_at v) == v) v
      letter_table h,
)

mask_table :
    all_below 64 (λ x. bit_and x 0x30 / 2 ^ 4 == x / 16 && bit_and x 0x3c / 2 ^ 2 == x / 4) ≡ true
unfolding all_below
mask_table = refl

masks : (x : ℕ) → x < 64 → (bit_and x 0x30 / 2 ^ 4 ≡ x / 16) × (bit_and x 0x3c / 2 ^ 2 ≡ x / 4)
masks x h = ground (
  arith,
  all_below_sound 64 (λ x. bit_and x 0x30 / 2 ^ 4 == x / 16 && bit_and x 0x3c / 2 ^ 2 == x / 4) x
      mask_table h,
)

-- The three bytes of the sextets of a word.
three_bytes_lem :
    (a b c : ℕ)
    → a < 256
    → b < 256
    → c < 256
    → let w = word3 a b c in three_bytes (s0 w ∷ s1 w ∷ s2 w ∷ s3 w ∷ []) ≡ a ∷ b ∷ c ∷ []
unfolding three_bytes
three_bytes_lem a b c ha hb hc =
    let w = word3 a b c in
    rw ((masks (s1 w) (omega arith)).0, (masks (s2 w) (omega arith)).1)
      (ground (arith, bit_and_mask 4 (s1 w), bit_and_mask 2 (s2 w)))

-- Four characters of the alphabet are one round, whatever the array held.
decode_four :
    (t u v w : ℕ) (cs : List ℕ) (p q r s : ℕ)
    → t < 64
    → u < 64
    → v < 64
    → w < 64
    → decode_chars (char_at t ∷ char_at u ∷ char_at v ∷ char_at w ∷ cs) 0 (p ∷ q ∷ r ∷ s ∷ [])
      ≡ three_bytes (t ∷ u ∷ v ∷ w ∷ []) ++ decode_chars cs 0 (t ∷ u ∷ v ∷ w ∷ [])
unfolding decode_chars find_all
decode_four t u v w cs p q r s ht hu hv hw =
    let lt = letter t ht in
    let lu = letter u hu in
    let lv = letter v hv in
    let lw = letter w hw in
    rw (lt.taken, lu.taken, lv.taken, lw.taken, lt.found, lu.found, lv.found, lw.found)

-- A `=` after two or three characters ends the loop.
decode_three :
    (t u v : ℕ) (cs : List ℕ) (p q r s : ℕ)
    → t < 64
    → u < 64
    → v < 64
    → decode_chars (char_at t ∷ char_at u ∷ char_at v ∷ b'=' ∷ cs) 0 (p ∷ q ∷ r ∷ s ∷ [])
      ≡ take 2 (three_bytes (t ∷ u ∷ v ∷ s ∷ []))
unfolding decode_chars decode_tail find_all
decode_three t u v cs p q r s ht hu hv =
    let lt = letter t ht in
    let lu = letter u hu in
    let lv = letter v hv in rw (lt.taken, lu.taken, lv.taken, lt.found, lu.found, lv.found)

decode_two :
    (t u : ℕ) (cs : List ℕ) (p q r s : ℕ)
    → t < 64
    → u < 64
    → decode_chars (char_at t ∷ char_at u ∷ b'=' ∷ cs) 0 (p ∷ q ∷ r ∷ s ∷ [])
      ≡ take 1 (three_bytes (t ∷ u ∷ r ∷ s ∷ []))
unfolding decode_chars decode_tail find_all
decode_two t u cs p q r s ht hu =
    let lt = letter t ht in let lu = letter u hu in rw (lt.taken, lu.taken, lt.found, lu.found)

take_two_bytes :
    (a b s : ℕ)
    → a < 256
    → b < 256
    → let w = word3 a b 0 in take 2 (three_bytes (s0 w ∷ s1 w ∷ s2 w ∷ s ∷ [])) ≡ a ∷ b ∷ []
unfolding three_bytes
take_two_bytes a b s ha hb =
    let w = word3 a b 0 in
    rw ((masks (s1 w) (omega arith)).0, (masks (s2 w) (omega arith)).1)
      (ground (arith, bit_and_mask 4 (s1 w)))

take_one_byte :
    (a r s : ℕ)
    → a < 256
    → let w = word3 a 0 0 in take 1 (three_bytes (s0 w ∷ s1 w ∷ r ∷ s ∷ [])) ≡ a ∷ []
unfolding three_bytes
take_one_byte a r s ha = let w = word3 a 0 0 in rw ((masks (s1 w) (omega arith)).0) (ground arith)

decode_nil : (p q r s : ℕ) → decode_chars [] 0 (p ∷ q ∷ r ∷ s ∷ []) ≡ []
unfolding decode_chars decode_tail
decode_nil p q r s = refl

decode_chars-encode_loop :
    (g : ℕ) (d : List ℕ) (p q r s : ℕ)
    → length d ≤ g
    → Bytes d
    → decode_chars (encode_loop g d) 0 (p ∷ q ∷ r ∷ s ∷ []) ≡ d
unfolding encode_loop
decode_chars-encode_loop zero [] p q r s hg h = decode_nil p q r s
decode_chars-encode_loop (suc g) [] p q r s hg h = decode_nil p q r s
decode_chars-encode_loop zero (a ∷ d) p q r s hg h = absurd (omega arith)
decode_chars-encode_loop (suc g) (a ∷ []) p q r s hg h =
    let w = word3 a 0 0 in
    rw (
      encode_one g a h.0,
      quad_two w,
      decode_two (s0 w) (s1 w) (b'=' ∷ []) p q r s (omega arith) (omega arith),
      take_one_byte a r s h.0,
    )
decode_chars-encode_loop (suc g) (a ∷ b ∷ []) p q r s hg h =
    let w = word3 a b 0 in
    rw (
      encode_two g a b h.0 h.1.0,
      quad_one w,
      decode_three (s0 w) (s1 w) (s2 w) [] p q r s (omega arith) (omega arith) (omega arith),
      take_two_bytes a b s h.0 h.1.0,
    )
decode_chars-encode_loop (suc g) (a ∷ b ∷ c ∷ d) p q r s hg h =
    let w = word3 a b c in
    rw (
      encode_three g a b c d h.0 h.1.0 h.1.1.0,
      quad_full w,
      decode_four (s0 w) (s1 w) (s2 w) (s3 w) (encode_loop g d) p q r s (omega arith) (omega arith)
          (omega arith) (omega arith),
      three_bytes_lem a b c h.0 h.1.0 h.1.1.0,
      decode_chars-encode_loop g d (s0 w) (s1 w) (s2 w) (s3 w) (omega arith) h.1.1.1,
    )

-- `Base64Decoding` undoes `Base64Encoding`, whatever their arrays hold at the start, if the text has
-- fewer than 2^31 characters.
pub base64_decoding-base64_encoding :
    (x y z p q r s : ℕ) (d : List ℕ)
    → Bytes d
    → length (base64_encoding (x ∷ y ∷ z ∷ []) d) < 2 ^ 31
    → base64_decoding (p ∷ q ∷ r ∷ s ∷ []) (base64_encoding (x ∷ y ∷ z ∷ []) d) ≡ some d
unfolding base64_decoding base64encode
base64_decoding-base64_encoding x y z p q r s d h short =
    let fits : ltb (length (base64_encoding (x ∷ y ∷ z ∷ []) d)) (2 ^ 31) ≡ true = ground arith in
    rw (fits, base64_encoding-base64encode x y z d h)
      (ap some (decode_chars-encode_loop (length d) d p q r s (omega arith) h))
