-- ===== src/Uint128.antt =====
-- src/utils/uint128_t.h: `uint_t<128>`, two 64-bit halves, with its conversions, sum, difference and
-- comparisons. A half is a number below 2^64; the arithmetic on halves wraps.
pub mod Arithmetic
pub mod Order
mod Tests
use cpp_cores.Base.{
  ℕ, ◌+◌, ◌-◌, ◌*◌, ◌%◌, ◌^◌, ◌<◌, Bool, ◌&&◌, ◌||◌, not, ltb, leb, ◌==◌, if◌then◌else◌,
}

pub record Uint128 : Type 0 where
  pub lo : ℕ
  pub hi : ℕ

abbrev pub w64 : ℕ
w64 = 2 ^ 64

-- `bool` in an arithmetic expression.
abbrev pub bit : Bool → ℕ
bit b = if b then 1 else 0

-- The constructor from two halves, `uint_t(high, low)`.
abbrev pub of_halves : ℕ → ℕ → Uint128
of_halves high low = record { lo = low; hi = high }

-- The constructor from the compiler's `uint128_t`: the low half is the cast of `value`, the high
-- half that of `value << 64`, a 128-bit shift.
pub of_native : ℕ → Uint128
of_native value = of_halves (value * 2 ^ 64 % 2 ^ 128 % w64) (value % w64)

pub add : Uint128 → Uint128 → Uint128
add x y =
    let lo = (x.lo + y.lo) % w64 in
    let carry = ltb x.lo lo in of_halves (((x.hi + y.hi) % w64 + bit carry) % w64) lo

pub sub : Uint128 → Uint128 → Uint128
sub x y =
    let lo = (x.lo + w64 - y.lo) % w64 in
    let borrow = ltb x.lo lo in of_halves (((x.hi + w64 - y.hi) % w64 + w64 - bit borrow) % w64) lo

-- `operator==`
pub eq : Uint128 → Uint128 → Bool
eq x y = not (x.lo == y.lo) || not (x.hi == y.hi)

pub ne : Uint128 → Uint128 → Bool
unfolding eq
ne x y = not (eq x y)

pub lt : Uint128 → Uint128 → Bool
lt x y = ltb x.hi y.hi || (x.hi == y.hi && ltb x.lo y.lo)

pub le : Uint128 → Uint128 → Bool
le x y = ltb x.hi y.hi || (x.hi == y.hi && leb x.lo y.lo)

pub gt : Uint128 → Uint128 → Bool
unfolding le
gt x y = not (le x y)

pub ge : Uint128 → Uint128 → Bool
unfolding lt
ge x y = not (lt x y)

-- The number that the halves stand for, and the range of the halves.
abbrev pub value : Uint128 → ℕ
value x = x.hi * w64 + x.lo

pub record Fits (x : Uint128) : Type 0 where
  pub lo_fits : x.lo < w64
  pub hi_fits : x.hi < w64
