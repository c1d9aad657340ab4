-- ===== src/Retry/Interval.antt =====
-- The interval of every count, and where there is none.
use cpp_cores.Base.{
  ℕ, zero, suc, ◌-◌, ◌*◌, ◌^◌, ◌<◌, ◌≤◌, ◌≡◌, refl, ap, ◌∙◌, false, none, some, leb, ltb, ◌==◌,
  if◌then◌else◌, min, arith, Bool-cases, inl, inr,
}
use cpp_cores.Base.Int.{ℤ, neg}
use cpp_cores.Retry.{
  ExponentialRetryPolicy, in_range, product, shift_one, capped, get_retry_interval,
}

abbrev pub policy : ℕ → ℕ → ExponentialRetryPolicy
policy base most = record { base_interval_ms = ℤ.pos base; max_interval_ms = ℤ.pos most }

early :
    (base most n : ℕ)
    → n ≤ 30
    → get_retry_interval (policy base most) n
      ≡ (if ltb (base * 2 ^ n) (2 ^ 31) then some (ℤ.pos (min most (base * 2 ^ n))) else none)
unfolding get_retry_interval
early base most n h =
    let count : min n 31 ≡ n = omega arith in
    let below : (n == 31) ≡ false = ground arith in
    let shift : shift_one (min n 31) ≡ ℤ.pos (2 ^ n) = ap shift_one count ∙ rw below refl in
    ap (λ p. capped (ℤ.pos most) (product (ℤ.pos base) p)) shift ∙ ground arith

neg-suc : (n : ℕ) → 0 < n → neg n ≡ ℤ.negsuc (n - 1)
neg-suc zero h = absurd (omega arith)
neg-suc (suc n) h = ap ℤ.negsuc (omega arith)

late :
    (base most n : ℕ)
    → 31 ≤ n
    → 0 < base
    → get_retry_interval (policy base most) n ≡ (if base == 1 then some (neg (2 ^ 31)) else none)
unfolding get_retry_interval
late base most n h positive =
    let count : min n 31 ≡ 31 = omega arith in
    let shift : shift_one (min n 31) ≡ neg (2 ^ 31) = ap shift_one count in
    ap (λ p. capped (ℤ.pos most) (product (ℤ.pos base) p)) shift
    ∙ ap (λ z. capped (ℤ.pos most) (in_range z)) (neg-suc (base * 2 ^ 31) (omega arith))
    ∙ ground arith

-- For a positive base: up to 30 retries the interval is the base times 2 to the number of
-- retries, at most the maximum, as long as the product is below 2^31, and undefined beyond that; from 31
-- retries on it is -2^31 for a base of 1, and undefined for any other.
pub get_retry_interval_lem :
    (base most n : ℕ)
    → 0 < base
    → get_retry_interval (policy base most) n ≡ (
        if leb n 30
        then (if ltb (base * 2 ^ n) (2 ^ 31) then some (ℤ.pos (min most (base * 2 ^ n))) else none)
        else if base == 1
        then some (neg (2 ^ 31))
        else none)
get_retry_interval_lem base most n positive = elim (Bool-cases (leb n 30)) [
  | inl few ↦ rw few (early base most n (ground arith))
  | inr many ↦ rw many (late base most n (ground arith) positive)
]
