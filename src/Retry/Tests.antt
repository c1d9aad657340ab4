-- ===== src/Retry/Tests.antt =====
-- The policy at concrete counts.
use cpp_cores.Base.{◌*◌, ◌^◌, ◌≡◌, refl, some, none, leb, ltb, ◌==◌, if◌then◌else◌, min, arith}
use cpp_cores.Base.Int.{ℤ, neg}
use cpp_cores.Retry.{get_retry_interval}
use cpp_cores.Retry.Interval.{policy, get_retry_interval_lem}

third : get_retry_interval (policy 100 1000) 3 ≡ some (ℤ.pos 800)
unfolding get_retry_interval
third = refl

capped_interval : get_retry_interval (policy 100 1000) 4 ≡ some (ℤ.pos 1000)
unfolding get_retry_interval
capped_interval = refl

-- A base of 100 milliseconds has no interval from the 25th retry on.
overflow : get_retry_interval (policy 100 1000) 25 ≡ none
unfolding get_retry_interval
overflow = refl

get_retry_interval_lem_example : get_retry_interval (policy 100 1000) 25 ≡ (
    if leb 25 30
    then (if ltb (100 * 2 ^ 25) (2 ^ 31) then some (ℤ.pos (min 1000 (100 * 2 ^ 25))) else none)
    else if 100 == 1
    then some (neg (2 ^ 31))
    else none)
get_retry_interval_lem_example = get_retry_interval_lem 100 1000 25 (omega arith)
