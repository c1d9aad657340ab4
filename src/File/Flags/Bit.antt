-- ===== src/File/Flags/Bit.antt =====
-- One bit of a word: testing it and setting it.
use cpp_cores.Base.{
  ℕ, zero, suc, ◌+◌, ◌*◌, ◌/◌, ◌%◌, ◌^◌, ◌<◌, ◌≤◌, ◌≡◌, ap, bit_and, bit_or, arith,
}
use cpp_cores.Base.Bits.{bit_and_step, bit_or_step, bit_and-zero, bit_or-zero}
use native.Mathlib.Nat.{pow-suc, one-le-pow}

-- A word from the digits above a place, the digit there, and those below.
abbrev pub word : ℕ → ℕ → ℕ → ℕ → ℕ
word k q b r = q * 2 ^ suc k + (b * 2 ^ k + r)

mul-two_pow : (q k : ℕ) → q * 2 ^ suc k ≡ 2 * (q * 2 ^ k)
mul-two_pow q k = omega (arith, ap (λ (t : ℕ). q * t) (pow-suc 2 k))

word-half :
    (k q b r : ℕ) → (word (suc k) q b r / 2 ≡ word k q b (r / 2)) × (word (suc k) q b r % 2 ≡ r % 2)
word-half k q b r = omega (arith, mul-two_pow q (suc k), mul-two_pow q k, mul-two_pow b k)

pub bit_and-word : (k q b r : ℕ) → b < 2 → r < 2 ^ k → bit_and (word k q b r) (2 ^ k) ≡ b * 2 ^ k
bit_and-word zero q b zero hb hr =
    omega (arith, bit_and_step (q * 2 + (b * 1 + 0)) 1, bit_and-zero ((q * 2 + (b * 1 + 0)) / 2))
bit_and-word zero q b (suc r) hb hr = absurd (omega arith)
bit_and-word (suc k) q b r hb hr =
    let half = word-half k q b r in
    let moved = ap (λ (t : ℕ). bit_and t (2 ^ k)) half.0 in
    let place : 2 ^ suc k / 2 ≡ 2 ^ k = omega (arith, pow-suc 2 k) in
    let even : 2 ^ suc k % 2 ≡ 0 = omega (arith, pow-suc 2 k) in
    let placed = ap (λ (t : ℕ). bit_and (word (suc k) q b r / 2) t) place in
    omega (
      arith,
      bit_and_step (word (suc k) q b r) (2 ^ suc k),
      bit_and-word k q b (r / 2) hb (omega (arith, pow-suc 2 k)),
      moved,
      placed,
      even,
      mul-two_pow b k,
    )

pub bit_or-word : (k q r : ℕ) → r < 2 ^ k → bit_or (word k q 0 r) (2 ^ k) ≡ word k q 1 r
bit_or-word zero q zero hr =
    omega (arith, bit_or_step (q * 2 + (0 * 1 + 0)) 1, bit_or-zero ((q * 2 + (0 * 1 + 0)) / 2))
bit_or-word zero q (suc r) hr = absurd (omega arith)
bit_or-word (suc k) q r hr =
    let half = word-half k q 0 r in
    let half' = word-half k q 1 r in
    let moved = ap (λ (t : ℕ). bit_or t (2 ^ k)) half.0 in
    let place : 2 ^ suc k / 2 ≡ 2 ^ k = omega (arith, pow-suc 2 k) in
    let even : 2 ^ suc k % 2 ≡ 0 = omega (arith, pow-suc 2 k) in
    let placed = ap (λ (t : ℕ). bit_or (word (suc k) q 0 r / 2) t) place in
    omega (
      arith,
      bit_or_step (word (suc k) q 0 r) (2 ^ suc k),
      bit_or-word k q (r / 2) (omega (arith, pow-suc 2 k)),
      moved,
      placed,
      even,
      half,
      half',
    )

spread : (q b m : ℕ) → (q * 2 + b) * m ≡ 2 * (q * m) + b * m
spread q b m = grind arith

-- Every number is such a word.
pub word_of : (k f : ℕ) → (q : ℕ) × (b : ℕ) × (r : ℕ) × ((f ≡ word k q b r) × (b < 2) × (r < 2 ^ k))
word_of k f =
    let m = 2 ^ k in
    let positive : 1 ≤ m = one-le-pow k 2 (omega arith) in
    let whole : f / m * m + f % m ≡ f = grind arith in
    let low : f % m < m = grind arith in
    let upper : f / m / 2 * 2 + f / m % 2 ≡ f / m = omega arith in
    let scaled = ap (λ (t : ℕ). t * m) upper in
    let sum : f ≡ word k (f / m / 2) (f / m % 2) (f % m) =
      omega (arith, whole, scaled, spread (f / m / 2) (f / m % 2) m, mul-two_pow (f / m / 2) k) in
    (f / m / 2, f / m % 2, f % m, (sum, omega arith, low))
