-- ===== src/Base/Bits/Xor.antt =====
-- Laws of `^`: it cancels itself, it acts on the low digits alone where the other number is small, and
-- `x ^ (x >> k)` loses nothing where the upper part of `x` has at most `k` digits.
use cpp_cores.Base.Bits.Digits.{xor_digit, zero-bit_xor}
use Prim.Native.Nat.{ℕ, zero, suc, ◌+◌, ◌*◌, ◌/◌, ◌%◌, ◌^◌, ◌<◌, ◌≤◌, bit_xor}
use mathlib.Core.Path.{◌≡◌, refl, sym, ap, ◌∙◌}
use native.Mathlib.Omega.{arith}
use native.Mathlib.Nat.{pow-suc}

-- The recursions below go from `a` and `b` to their halves; `n` bounds both.
xor_cancel_upto : (n a b : ℕ) → a ≤ n → b ≤ n → bit_xor (bit_xor a b) b ≡ a
xor_cancel_upto zero zero zero h k = refl
xor_cancel_upto zero zero (suc b) h k = absurd (omega arith)
xor_cancel_upto zero (suc a) b h k = absurd (omega arith)
xor_cancel_upto (suc n) a b h k =
    let half : bit_xor a b / 2 ≡ bit_xor (a / 2) (b / 2) = omega (arith, xor_digit a b) in
    let rest = ap (λ (t : ℕ). bit_xor t (b / 2)) half in
    omega (
      arith,
      xor_digit a b,
      xor_digit (bit_xor a b) b,
      rest,
      xor_cancel_upto n (a / 2) (b / 2) (omega arith) (omega arith),
    )

pub bit_xor_cancel : (a b : ℕ) → bit_xor (bit_xor a b) b ≡ a
bit_xor_cancel a b = xor_cancel_upto (a + b) a b (omega arith) (omega arith)

pub bit_xor_injective : (a a' b : ℕ) → bit_xor a b ≡ bit_xor a' b → a ≡ a'
bit_xor_injective a a' b e =
    sym (bit_xor_cancel a b) ∙ ap (λ t. bit_xor t b) e ∙ bit_xor_cancel a' b

xor_comm_upto : (n a b : ℕ) → a ≤ n → b ≤ n → bit_xor a b ≡ bit_xor b a
xor_comm_upto zero zero zero h k = refl
xor_comm_upto zero zero (suc b) h k = absurd (omega arith)
xor_comm_upto zero (suc a) b h k = absurd (omega arith)
xor_comm_upto (suc n) a b h k = omega (
  arith,
  xor_digit a b,
  xor_digit b a,
  xor_comm_upto n (a / 2) (b / 2) (omega arith) (omega arith),
)

pub bit_xor_comm : (a b : ℕ) → bit_xor a b ≡ bit_xor b a
bit_xor_comm a b = xor_comm_upto (a + b) a b (omega arith) (omega arith)

pub bit_xor-zero : (a : ℕ) → bit_xor a 0 ≡ a
bit_xor-zero a = bit_xor_comm a 0 ∙ zero-bit_xor a

mul-two_pow : (q k : ℕ) → q * 2 ^ suc k ≡ 2 * (q * 2 ^ k)
mul-two_pow q k = omega (arith, ap (λ (t : ℕ). q * t) (pow-suc 2 k))

-- A number of `k` digits changes the low `k` digits only.
pub bit_xor_low :
    (k q r s : ℕ)
    → r < 2 ^ k
    → s < 2 ^ k
    → (bit_xor (q * 2 ^ k + r) s ≡ q * 2 ^ k + bit_xor r s) × (bit_xor r s < 2 ^ k)
bit_xor_low zero q zero zero hr hs = ground (arith, bit_xor-zero (q * 1 + 0), bit_xor-zero 0)
bit_xor_low zero q zero (suc s) hr hs = absurd (omega arith)
bit_xor_low zero q (suc r) s hr hs = absurd (omega arith)
bit_xor_low (suc k) q r s hr hs =
    let half : (q * 2 ^ suc k + r) / 2 ≡ q * 2 ^ k + r / 2 = omega (arith, mul-two_pow q k) in
    let low : (q * 2 ^ suc k + r) % 2 ≡ r % 2 = omega (arith, mul-two_pow q k) in
    let halves = bit_xor_low k q (r / 2) (s / 2) (omega arith) (omega arith) in
    let above = xor_digit (q * 2 ^ suc k + r) s in
    let moved = ap (λ (t : ℕ). bit_xor t (s / 2)) half in
    (
      omega (arith, halves.0, above, low, moved, mul-two_pow q k, xor_digit r s),
      omega (arith, halves.1, xor_digit r s, pow-suc 2 k),
    )

-- `x ^ (x >> k)`.
abbrev pub xor_shift : ℕ → ℕ → ℕ
xor_shift k x = bit_xor x (x / 2 ^ k)

parts_of : (m q r s : ℕ) → s ≡ q * m + r → r < m → (s / m ≡ q) × (s % m ≡ r)
parts_of m q r s e h =
    let quotient : s / m ≡ q = grind arith in
    let whole : s / m * m + s % m ≡ s = grind arith in
    (quotient, omega (arith, whole, ap (λ (t : ℕ). t * m) quotient))

-- The upper part of a number with at most `2 * k` digits shows in `x ^ (x >> k)`, and gives the rest.
xor_shift_parts :
    (k x : ℕ)
    → x < 2 ^ k * 2 ^ k
    → (xor_shift k x / 2 ^ k ≡ x / 2 ^ k)
      × (xor_shift k x % 2 ^ k ≡ bit_xor (x % 2 ^ k) (x / 2 ^ k))
xor_shift_parts k x h =
    let upper : x / 2 ^ k < 2 ^ k = grind arith in
    let lower : x % 2 ^ k < 2 ^ k = grind arith in
    let whole : x / 2 ^ k * 2 ^ k + x % 2 ^ k ≡ x = grind arith in
    let low = bit_xor_low k (x / 2 ^ k) (x % 2 ^ k) (x / 2 ^ k) lower upper in
    let sum : xor_shift k x ≡ x / 2 ^ k * 2 ^ k + bit_xor (x % 2 ^ k) (x / 2 ^ k) =
      ap (λ t. bit_xor t (x / 2 ^ k)) (sym whole) ∙ low.0 in
    parts_of (2 ^ k) (x / 2 ^ k) (bit_xor (x % 2 ^ k) (x / 2 ^ k)) (xor_shift k x) sum low.1

pub xor_shift_injective :
    (k x y : ℕ) → x < 2 ^ k * 2 ^ k → y < 2 ^ k * 2 ^ k → xor_shift k x ≡ xor_shift k y → x ≡ y
xor_shift_injective k x y hx hy e =
    let px = xor_shift_parts k x hx in
    let py = xor_shift_parts k y hy in
    let upper : x / 2 ^ k ≡ y / 2 ^ k = sym px.0 ∙ ap (λ t. t / 2 ^ k) e ∙ py.0 in
    let mixed : bit_xor (x % 2 ^ k) (x / 2 ^ k) ≡ bit_xor (y % 2 ^ k) (x / 2 ^ k) =
      sym px.1 ∙ ap (λ t. t % 2 ^ k) e ∙ py.1 ∙ ap (λ t. bit_xor (y % 2 ^ k) t) (sym upper) in
    let lower = bit_xor_injective (x % 2 ^ k) (y % 2 ^ k) (x / 2 ^ k) mixed in
    grind (arith, upper, lower)
