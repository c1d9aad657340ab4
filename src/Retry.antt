-- ===== src/Retry.antt =====
-- src/utils/retry_policy.h: `ExponentialRetryPolicy`. An `int32_t` is an integer from -2^31 on and below
-- 2^31, and a product outside this range is undefined, the result `none`.
pub mod Interval
mod Tests
use cpp_cores.Base.{
  ℕ, zero, suc, ◌+◌, ◌*◌, ◌^◌, Bool, true, Option, none, some, leb, ltb, ◌==◌, if◌then◌else◌, min,
}
use cpp_cores.Base.Int.{ℤ, pos, negsuc, neg, times, opposite}

pub record ExponentialRetryPolicy : Type 0 where
  pub base_interval_ms : ℤ
  pub max_interval_ms : ℤ

abbrev pub is_int32 : ℤ → Bool
is_int32 (pos n) = ltb n (2 ^ 31)
is_int32 (negsuc n) = ltb n (2 ^ 31)

abbrev pub in_range : ℤ → Option ℤ
in_range p = if is_int32 p then some p else none

-- The product of two `int`s.
abbrev pub product : ℤ → ℤ → Option ℤ
product a (pos b) = in_range (times a b)
product a (negsuc b) = in_range (opposite (times a (b + 1)))

-- `1 << k` for a `k` up to 31, where the last is the least `int`.
abbrev pub shift_one : ℕ → ℤ
shift_one k = if k == 31 then neg (2 ^ 31) else pos (2 ^ k)

-- `std::min`
abbrev pub minimum : ℤ → ℤ → ℤ
minimum (pos a) (pos b) = pos (min a b)
minimum (pos a) (negsuc b) = negsuc b
minimum (negsuc a) (pos b) = negsuc a
minimum (negsuc a) (negsuc b) = if leb a b then negsuc b else negsuc a

abbrev pub capped : ℤ → Option ℤ → Option ℤ
capped most none = none
capped most (some p) = some (minimum most p)

pub get_retry_interval : ExponentialRetryPolicy → ℕ → Option ℤ
get_retry_interval policy retry_count =
    capped policy.max_interval_ms (product policy.base_interval_ms (shift_one (min retry_count 31)))
