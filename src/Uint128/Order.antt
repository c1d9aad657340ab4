-- ===== src/Uint128/Order.antt =====
-- The comparisons of `uint_t<128>`.
use cpp_cores.Base.{◌<◌, ◌≤◌, ◌≡◌, ◌≢◌, ◌↔◌, true, arith}
use cpp_cores.Uint128.{Uint128, eq, ne, lt, le, gt, ge, value, Fits}

-- The four orders compare the numbers that the halves stand for.
pub orders :
    (x y : Uint128)
    → Fits x
    → Fits y
    → ((lt x y ≡ true) ↔ (value x < value y))
      × ((le x y ≡ true) ↔ (value x ≤ value y))
      × ((gt x y ≡ true) ↔ (value y < value x))
      × ((ge x y ≡ true) ↔ (value y ≤ value x))
unfolding lt le gt ge
orders x y fx fy = (
  (λ e. ground arith, λ e. ground arith),
  (λ e. ground arith, λ e. ground arith),
  (λ e. ground arith, λ e. ground arith),
  (λ e. ground arith, λ e. ground arith),
)

-- `==` holds exactly of different numbers, and `!=` exactly of equal ones.
pub equality_swapped :
    (x y : Uint128)
    → Fits x
    → Fits y
    → ((eq x y ≡ true) ↔ (value x ≢ value y)) × ((ne x y ≡ true) ↔ (value x ≡ value y))
unfolding eq ne
equality_swapped x y fx fy =
    ((λ e. ground arith, λ e. ground arith), (λ e. ground arith, λ e. ground arith))
