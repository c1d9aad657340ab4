-- ===== src/Encoding/Base64/RoundTrip.antt =====
-- Decoding what `base64encode` prints returns the data.
use cpp_cores.Base.{
  ℕ, zero, suc, ◌+◌, ◌*◌, ◌/◌, ◌%◌, ◌^◌, ◌<◌, ◌≤◌, ◌≡◌, refl, ap, List, [], ◌∷◌, ◌++◌, some,
  bit_and, length, arith, Bytes,
}
use cpp_cores.Base.Bits.{bit_and_mask}
use cpp_cores.Encoding.Base64.{
  char_at, push_byte, load3, pad_word, quad, encode_loop, base64encode, group, decode_loop,
  base64decode, ◌>>=◌,
}
use cpp_cores.Encoding.Base64.Groups.{push_byte_lem, load3-full, load4_two, load4_three, load4_quad}

-- The sextets of a 24-bit word.
abbrev pub s0 : ℕ → ℕ
s0 w = w / 2 ^ 18

abbrev pub s1 : ℕ → ℕ
s1 w = w / 2 ^ 12 % 64

abbrev pub s2 : ℕ → ℕ
s2 w = w / 2 ^ 6 % 64

abbrev pub s3 : ℕ → ℕ
s3 w = w % 64

abbrev pub word3 : ℕ → ℕ → ℕ → ℕ
word3 a b c = (a * 256 + b) * 256 + c

pub quad_full :
    (w : ℕ) → quad w 0 ≡ char_at (s0 w) ∷ char_at (s1 w) ∷ char_at (s2 w) ∷ char_at (s3 w) ∷ []
unfolding quad
quad_full w = rw (bit_and_mask 6 (w / 2 ^ 12), bit_and_mask 6 (w / 2 ^ 6), bit_and_mask 6 w)

pub quad_one : (w : ℕ) → quad w 1 ≡ char_at (s0 w) ∷ char_at (s1 w) ∷ char_at (s2 w) ∷ b'=' ∷ []
unfolding quad
quad_one w = rw (bit_and_mask 6 (w / 2 ^ 12), bit_and_mask 6 (w / 2 ^ 6))

pub quad_two : (w : ℕ) → quad w 2 ≡ char_at (s0 w) ∷ char_at (s1 w) ∷ b'=' ∷ b'=' ∷ []
unfolding quad
quad_two w = rw (bit_and_mask 6 (w / 2 ^ 12))

push_two : (a b : ℕ) → a < 256 → b < 256 → push_byte (push_byte 0 a) b ≡ a * 256 + b
push_two a b ha hb = ground (arith, push_byte_lem 0 a, push_byte_lem (push_byte 0 a) b)

push_three :
    (a b c : ℕ)
    → a < 256
    → b < 256
    → c < 256
    → push_byte (push_byte (push_byte 0 a) b) c ≡ word3 a b c
push_three a b c ha hb hc =
    ground (arith, push_two a b ha hb, push_byte_lem (push_byte (push_byte 0 a) b) c)

-- The rounds of the encoder, on three bytes, two and one.
pub encode_three :
    (f a b c : ℕ) (rest : List ℕ)
    → a < 256
    → b < 256
    → c < 256
    → encode_loop (suc f) (a ∷ b ∷ c ∷ rest) ≡ quad (word3 a b c) 0 ++ encode_loop f rest
unfolding encode_loop load3 pad_word
encode_three f a b c rest ha hb hc =
    rw (load3-full (push_byte (push_byte (push_byte 0 a) b) c) rest, push_three a b c ha hb hc)

pub encode_two :
    (f a b : ℕ) → a < 256 → b < 256 → encode_loop (suc f) (a ∷ b ∷ []) ≡ quad (word3 a b 0) 1 ++ []
unfolding encode_loop load3 pad_word
encode_two f a b ha hb = ap (λ w. quad w 1 ++ []) (omega (arith, push_two a b ha hb))

pub encode_one : (f a : ℕ) → a < 256 → encode_loop (suc f) (a ∷ []) ≡ quad (word3 a 0 0) 2 ++ []
unfolding encode_loop load3 pad_word
encode_one f a ha = ap (λ w. quad w 2 ++ []) (omega (arith, push_byte_lem 0 a))

resplit : (w : ℕ) → w < 2 ^ 24 → (((0 * 64 + s0 w) * 64 + s1 w) * 64 + s2 w) * 64 + s3 w ≡ w
resplit w h = omega arith

bytes_of :
    (a b c : ℕ)
    → a < 256
    → b < 256
    → c < 256
    → (bit_and (word3 a b c / 2 ^ 16) 0xff ≡ a)
      × (bit_and (word3 a b c / 2 ^ 8) 0xff ≡ b)
      × (bit_and (word3 a b c) 0xff ≡ c)
bytes_of a b c ha hb hc = omega (
  arith,
  bit_and_mask 8 (word3 a b c / 2 ^ 16),
  bit_and_mask 8 (word3 a b c / 2 ^ 8),
  bit_and_mask 8 (word3 a b c),
)

-- The rounds of the decoder undo those of the encoder.
decode_three :
    (f a b c : ℕ) (rest : List ℕ)
    → a < 256
    → b < 256
    → c < 256
    → decode_loop (suc f) (quad (word3 a b c) 0 ++ rest)
      ≡ (decode_loop f rest >>= λ more. some (a ∷ b ∷ c ∷ more))
unfolding decode_loop group
decode_three f a b c rest ha hb hc =
    let w = word3 a b c in
    let hw : w < 2 ^ 24 = omega arith in
    let bytes = bytes_of a b c ha hb hc in
    rw (
      quad_full w,
      load4_quad (s0 w) (s1 w) (omega arith) (omega arith) rest (s2 w) (s3 w) (omega arith)
          (omega arith),
      resplit w hw,
      bytes.0,
      bytes.1,
      bytes.2,
    )

decode_two :
    (f a b : ℕ)
    → a < 256
    → b < 256
    → decode_loop (suc f) (quad (word3 a b 0) 1 ++ []) ≡ some (a ∷ b ∷ [])
unfolding decode_loop group
decode_two f a b ha hb =
    let w = word3 a b 0 in
    let whole : (((0 * 64 + s0 w) * 64 + s1 w) * 64 + s2 w) * 64 ≡ w = omega arith in
    let bytes = bytes_of a b 0 ha hb (omega arith) in
    rw (
      quad_one w,
      load4_three (s0 w) (s1 w) (omega arith) (omega arith) [] (s2 w) (omega arith),
      whole,
      bytes.0,
      bytes.1,
    )

decode_one : (f a : ℕ) → a < 256 → decode_loop (suc f) (quad (word3 a 0 0) 2 ++ []) ≡ some (a ∷ [])
unfolding decode_loop group
decode_one f a ha =
    let w = word3 a 0 0 in
    let whole : ((0 * 64 + s0 w) * 64 + s1 w) * 64 * 64 ≡ w = omega arith in
    let bytes = bytes_of a 0 0 ha (omega arith) (omega arith) in
    rw (quad_two w, load4_two (s0 w) (s1 w) (omega arith) (omega arith) [], whole, bytes.0)

decode-encode_loop :
    (f g : ℕ) (d : List ℕ)
    → length d ≤ f
    → length d ≤ g
    → Bytes d
    → decode_loop f (encode_loop g d) ≡ some d
unfolding decode_loop encode_loop
decode-encode_loop zero zero [] hf hg _ = refl
decode-encode_loop (suc f) zero [] hf hg _ = refl
decode-encode_loop zero (suc g) [] hf hg _ = refl
decode-encode_loop (suc f) (suc g) [] hf hg _ = refl
decode-encode_loop zero g (a ∷ d) hf hg h = absurd (omega arith)
decode-encode_loop (suc f) zero (a ∷ d) hf hg h = absurd (omega arith)
decode-encode_loop (suc f) (suc g) (a ∷ []) hf hg h = rw (encode_one g a h.0) (decode_one f a h.0)
decode-encode_loop (suc f) (suc g) (a ∷ b ∷ []) hf hg h =
    rw (encode_two g a b h.0 h.1.0) (decode_two f a b h.0 h.1.0)
decode-encode_loop (suc f) (suc g) (a ∷ b ∷ c ∷ d) hf hg h =
    let ih = decode-encode_loop f g d (omega arith) (omega arith) h.1.1.1 in
    rw (
      encode_three g a b c d h.0 h.1.0 h.1.1.0,
      decode_three f a b c (encode_loop g d) h.0 h.1.0 h.1.1.0,
      ih,
    )

-- Four characters for every three bytes begun.
length-encode_loop :
    (g : ℕ) (d : List ℕ)
    → length d ≤ g
    → Bytes d
    → length (encode_loop g d) ≡ 4 * ((length d + 2) / 3)
unfolding encode_loop
length-encode_loop zero [] hg _ = refl
length-encode_loop (suc g) [] hg _ = refl
length-encode_loop zero (a ∷ d) hg h = absurd (omega arith)
length-encode_loop (suc g) (a ∷ []) hg h = rw (encode_one g a h.0, quad_two)
length-encode_loop (suc g) (a ∷ b ∷ []) hg h = rw (encode_two g a b h.0 h.1.0, quad_one)
length-encode_loop (suc g) (a ∷ b ∷ c ∷ d) hg h =
    rw (encode_three g a b c d h.0 h.1.0 h.1.1.0, quad_full)
      (omega (arith, length-encode_loop g d (omega arith) h.1.1.1))

-- The encoder prints four characters for every three bytes begun.
pub length-base64encode :
    (d : List ℕ) → Bytes d → length (base64encode d) ≡ 4 * ((length d + 2) / 3)
unfolding base64encode
length-base64encode d h = length-encode_loop (length d) d (omega arith) h

-- Decoding the base64 text of any data returns that data.
pub base64decode-base64encode : (d : List ℕ) → Bytes d → base64decode (base64encode d) ≡ d
unfolding base64decode base64encode
base64decode-base64encode d h = rw (
    decode-encode_loop (length (encode_loop (length d) d)) (length d) d
      (omega (arith, length-encode_loop (length d) d (omega arith) h)) (omega arith) h)
