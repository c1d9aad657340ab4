-- ===== src/Uint128/Tests.antt =====
-- Runs of the 128-bit integers, and their theorems at concrete numbers.
use cpp_cores.Base.{◌+◌, ◌-◌, ◌%◌, ◌^◌, ◌≡◌, refl, Bool, arith}
use cpp_cores.Uint128.{Uint128, of_halves, add, sub, eq, value, Fits}
use cpp_cores.Uint128.Arithmetic.{value-sub}

abbrev one : Uint128
one = of_halves 0 1

abbrev big : Uint128
big = of_halves 1 0

one-Fits : Fits one
one-Fits = omega arith

big-Fits : Fits big
big-Fits = omega arith

-- 1 + 1 is 2^64 + 2.
one_and_one : add one one ≡ of_halves 1 2
unfolding add
one_and_one = refl

one_is_not_one : eq one one ≡ Bool.false
unfolding eq
one_is_not_one = refl

value-sub_example : (value (sub big one) ≡ (2 ^ 64 + 2 ^ 128 - 1) % 2 ^ 128) × Fits (sub big one)
value-sub_example = value-sub big one big-Fits one-Fits
