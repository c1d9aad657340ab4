-- ===== src/Hash/Block/Injective.antt =====
-- `Hash` loses nothing of its seed, nor of any one aligned group of four bytes.
use cpp_cores.Base.{
  ℕ, ◌+◌, ◌*◌, ◌/◌, ◌%◌, ◌^◌, ◌<◌, ◌≡◌, ◌≢◌, refl, sym, ap, ◌∙◌, List, [], ◌∷◌, ◌++◌, bit_xor,
  arith, length, length-append, Bytes,
}
use cpp_cores.Base.Bits.Xor.{
  xor_shift, xor_shift_injective, bit_xor_injective, bit_xor_comm, bit_xor_low,
}
use cpp_cores.Encoding.Fixed.{decode_fixed32}
use cpp_cores.Encoding.Fixed.RoundTrip.{decode_fixed32_lem}
use cpp_cores.Hash.Block.{w32, multiplier, multiply, mix, hash_loop, start, hash}

-- The inverse of the multiplier modulo 2^32.
abbrev inverse : ℕ
inverse = 3625553563

times_inverse : (h : ℕ) → h < w32 → h * multiplier % w32 * inverse % w32 ≡ h
times_inverse h small = omega arith

times_injective :
    (x y : ℕ) → x < w32 → y < w32 → x * multiplier % w32 ≡ y * multiplier % w32 → x ≡ y
times_injective x y hx hy e =
    sym (times_inverse x hx) ∙ ap (λ t. t * inverse % w32) e ∙ times_inverse y hy

multiply_16 : (x y : ℕ) → x < w32 → y < w32 → multiply 16 x ≡ multiply 16 y → x ≡ y
unfolding multiply
multiply_16 x y hx hy e = times_injective x y hx hy (
    xor_shift_injective 16 (x * multiplier % w32) (y * multiplier % w32) (omega arith) (omega arith)
      e)

multiply_24 : (x y : ℕ) → x < w32 → y < w32 → multiply 24 x ≡ multiply 24 y → x ≡ y
unfolding multiply
multiply_24 x y hx hy e = times_injective x y hx hy (
    xor_shift_injective 24 (x * multiplier % w32) (y * multiplier % w32) (omega arith) (omega arith)
      e)

xor_shift_16_lt : (x : ℕ) → x < w32 → xor_shift 16 x < w32
xor_shift_16_lt x h =
    let low = bit_xor_low 32 0 x (x / 2 ^ 16) h (omega arith) in omega (arith, low.1)

mix-lt : (h w : ℕ) → mix h w < w32
unfolding mix multiply
mix-lt h w = xor_shift_16_lt ((h + w) % w32 * multiplier % w32) (omega arith)

mix_state : (h h' w : ℕ) → h < w32 → h' < w32 → mix h w ≡ mix h' w → h ≡ h'
unfolding mix
mix_state h h' w hh hh' e =
    omega (arith, multiply_16 ((h + w) % w32) ((h' + w) % w32) (omega arith) (omega arith) e)

mix_word : (h w w' : ℕ) → w < w32 → w' < w32 → mix h w ≡ mix h w' → w ≡ w'
unfolding mix
mix_word h w w' hw hw' e =
    omega (arith, multiply_16 ((h + w) % w32) ((h + w') % w32) (omega arith) (omega arith) e)

loop_state :
    (bytes : List ℕ) (h h' : ℕ)
    → h < w32
    → h' < w32
    → hash_loop h bytes ≡ hash_loop h' bytes
    → h ≡ h'
unfolding hash_loop
loop_state (a ∷ b ∷ c ∷ d ∷ rest) h h' hh hh' e =
    let w = decode_fixed32 (a ∷ b ∷ c ∷ d ∷ []) in
    mix_state h h' w hh hh' (loop_state rest (mix h w) (mix h' w) (mix-lt h w) (mix-lt h' w) e)
loop_state (a ∷ b ∷ c ∷ []) h h' hh hh' e =
    let sum = λ (t : ℕ). (((t + c * 2 ^ 16) % w32 + b * 2 ^ 8) % w32 + a) % w32 in
    omega (arith, multiply_24 (sum h) (sum h') (omega arith) (omega arith) e)
loop_state (a ∷ b ∷ []) h h' hh hh' e =
    let sum = λ (t : ℕ). ((t + b * 2 ^ 8) % w32 + a) % w32 in
    omega (arith, multiply_24 (sum h) (sum h') (omega arith) (omega arith) e)
loop_state (a ∷ []) h h' hh hh' e =
    omega (arith, multiply_24 ((h + a) % w32) ((h' + a) % w32) (omega arith) (omega arith) e)
loop_state [] h h' hh hh' e = e

-- The upper half of `n * m` does not reach the hash.
start_low : (n seed : ℕ) → seed < w32 → start n seed ≡ bit_xor seed (n * multiplier % w32)
unfolding start
start_low n seed small =
    let p = n * multiplier % 2 ^ 64 in
    let low = bit_xor_low 32 (p / w32) (p % w32) seed (omega arith) small in
    let whole : p / w32 * 2 ^ 32 + p % w32 ≡ p = omega arith in
    let turned = bit_xor_comm seed p ∙ ap (λ t. bit_xor t seed) (sym whole) ∙ low.0 in
    let same : p % w32 ≡ n * multiplier % w32 = omega arith in
    omega (arith, turned, low.1, bit_xor_comm (p % w32) seed, ap (bit_xor seed) same)

start_injective : (n s s' : ℕ) → s < w32 → s' < w32 → start n s ≡ start n s' → s ≡ s'
start_injective n s s' hs hs' e =
    bit_xor_injective s s' (n * multiplier % w32) (sym (start_low n s hs) ∙ e ∙ start_low n s' hs')

start-lt : (n seed : ℕ) → start n seed < w32
unfolding start
start-lt n seed = omega arith

-- Whatever the data is, two different seeds of 32 bits give two different hashes.
pub hash-seed_ne :
    (bytes : List ℕ) (s s' : ℕ) → s < w32 → s' < w32 → s ≢ s' → hash bytes s ≢ hash bytes s'
unfolding hash
hash-seed_ne bytes s s' hs hs' other e =
    let n = length bytes in
    other (
      start_injective n s s' hs hs'
        (loop_state bytes (start n s) (start n s') (start-lt n s) (start-lt n s') e))

-- The groups of four bytes, one after the other.
abbrev pub groups : List (ℕ × ℕ × ℕ × ℕ) → List ℕ
groups [] = []
groups ((a, b, c, d) ∷ gs) = a ∷ b ∷ c ∷ d ∷ groups gs

after_groups :
    (gs : List (ℕ × ℕ × ℕ × ℕ)) (h : ℕ)
    → h < w32
    → (h' : ℕ) × (h' < w32)
      × ((rest : List ℕ) → hash_loop h (groups gs ++ rest) ≡ hash_loop h' rest)
unfolding hash_loop
after_groups [] h small = (h, small, λ rest. refl)
after_groups ((a, b, c, d) ∷ gs) h small =
    after_groups gs (mix h (decode_fixed32 (a ∷ b ∷ c ∷ d ∷ []))) (mix-lt h _)

fixed32_injective :
    (a b c d a' b' c' d' : ℕ)
    → Bytes (a ∷ b ∷ c ∷ d ∷ [])
    → Bytes (a' ∷ b' ∷ c' ∷ d' ∷ [])
    → decode_fixed32 (a ∷ b ∷ c ∷ d ∷ []) ≡ decode_fixed32 (a' ∷ b' ∷ c' ∷ d' ∷ [])
    → (a ≡ a') × (b ≡ b') × (c ≡ c') × (d ≡ d')
fixed32_injective a b c d a' b' c' d' (ha, (hb, (hc, (hd, _)))) (ha', (hb', (hc', (hd', _)))) e =
    omega (
      arith,
      e,
      decode_fixed32_lem a b c d ha hb hc hd,
      decode_fixed32_lem a' b' c' d' ha' hb' hc' hd',
    )

fixed32-lt : (a b c d : ℕ) → Bytes (a ∷ b ∷ c ∷ d ∷ []) → decode_fixed32 (a ∷ b ∷ c ∷ d ∷ []) < w32
fixed32-lt a b c d (ha, (hb, (hc, (hd, _)))) = omega (arith, decode_fixed32_lem a b c d ha hb hc hd)

hash-group_injective :
    (gs : List (ℕ × ℕ × ℕ × ℕ)) (rest : List ℕ) (seed a b c d a' b' c' d' : ℕ)
    → Bytes (a ∷ b ∷ c ∷ d ∷ [])
    → Bytes (a' ∷ b' ∷ c' ∷ d' ∷ [])
    → hash (groups gs ++ (a ∷ b ∷ c ∷ d ∷ rest)) seed
      ≡ hash (groups gs ++ (a' ∷ b' ∷ c' ∷ d' ∷ rest)) seed
    → (a ≡ a') × (b ≡ b') × (c ≡ c') × (d ≡ d')
unfolding hash hash_loop
hash-group_injective gs rest seed a b c d a' b' c' d' hx hy e =
    let x = a ∷ b ∷ c ∷ d ∷ rest in
    let y = a' ∷ b' ∷ c' ∷ d' ∷ rest in
    let lengths : length (groups gs ++ x) ≡ length (groups gs ++ y) =
      omega (arith, length-append (groups gs) x, length-append (groups gs) y) in
    let n = length (groups gs ++ x) in
    let (h, small, through) = after_groups gs (start n seed) (start-lt n seed) in
    let u = decode_fixed32 (a ∷ b ∷ c ∷ d ∷ []) in
    let v = decode_fixed32 (a' ∷ b' ∷ c' ∷ d' ∷ []) in
    let inner : hash_loop (mix h u) rest ≡ hash_loop (mix h v) rest =
      sym (through x)
      ∙ e
      ∙ ap (λ k. hash_loop (start k seed) (groups gs ++ y)) (sym lengths)
      ∙ through y in
    let words =
      mix_word h u v (fixed32-lt a b c d hx) (fixed32-lt a' b' c' d' hy)
        (loop_state rest (mix h u) (mix h v) (mix-lt h u) (mix-lt h v) inner) in
    fixed32_injective a b c d a' b' c' d' hx hy words

-- Two texts that differ in one aligned group of four bytes and nowhere else have different hashes, with
-- any seed.
pub hash-group_ne :
    (gs : List (ℕ × ℕ × ℕ × ℕ)) (rest : List ℕ) (seed a b c d a' b' c' d' : ℕ)
    → Bytes (a ∷ b ∷ c ∷ d ∷ [])
    → Bytes (a' ∷ b' ∷ c' ∷ d' ∷ [])
    → a ∷ b ∷ c ∷ d ∷ [] ≢ a' ∷ b' ∷ c' ∷ d' ∷ []
    → hash (groups gs ++ (a ∷ b ∷ c ∷ d ∷ rest)) seed
      ≢ hash (groups gs ++ (a' ∷ b' ∷ c' ∷ d' ∷ rest)) seed
hash-group_ne gs rest seed a b c d a' b' c' d' hx hy other e =
    let (ea, eb, ec, ed) = hash-group_injective gs rest seed a b c d a' b' c' d' hx hy e in
    other (cc)
