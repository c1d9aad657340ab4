-- ===== src/Uint128/Arithmetic.antt =====
-- Sums, differences and conversions of `uint_t<128>` against arithmetic modulo 2^128.
use cpp_cores.Base.{ℕ, ◌+◌, ◌-◌, ◌%◌, ◌^◌, ◌<◌, ◌≡◌, ◌↔◌, arith}
use cpp_cores.Uint128.{Uint128, of_native, add, sub, value, Fits}

-- The difference is the difference modulo 2^128, with both halves in range.
pub value-sub :
    (x y : Uint128)
    → Fits x
    → Fits y
    → (value (sub x y) ≡ (value x + 2 ^ 128 - value y) % 2 ^ 128) × Fits (sub x y)
unfolding sub
value-sub x y fx fy = ground arith

-- The sum is the sum modulo 2^128 exactly when the low half of the second number is zero: `carry`
-- is set where the low halves do not overflow.
pub value-add :
    (x y : Uint128)
    → Fits x
    → Fits y
    → (value (add x y) ≡ (value x + value y) % 2 ^ 128) ↔ (y.lo ≡ 0)
unfolding add
value-add x y fx fy = (λ e. ground arith, λ e. ground arith)

-- A native 128-bit number survives the conversion exactly when it is below 2^64: the high half is lost.
pub value-of_native : (v : ℕ) → v < 2 ^ 128 → (value (of_native v) ≡ v) ↔ (v < 2 ^ 64)
unfolding of_native
value-of_native v h = (λ e. omega arith, λ e. omega arith)
