-- ===== src/Queue/Stealing/Init.antt =====
-- `init` accepts exactly the capacities that the index arithmetic needs.
use cpp_cores.Base.{
  ℕ, zero, suc, ◌-◌, ◌/◌, ◌%◌, ◌^◌, ◌<◌, ◌≤◌, ◌≡◌, ◌↔◌, refl, ◌∙◌, true, false, List, some, ◌==◌,
  arith, bit_and, Bool-cases, inl, inr,
}
use native.Mathlib.Nat.{pow-suc}
use cpp_cores.Base.Bits.{bit_and_step, bit_and_self, bit_and_mask}
use cpp_cores.Queue.Stealing.{new, init}
use cpp_cores.Queue.Stealing.Window.{IsPow, pow_pos}

-- A positive number without a digit in common with its predecessor is a power of two.
mask-IsPow_upto : (fuel n : ℕ) → n ≤ fuel → 0 < n → bit_and n (n - 1) ≡ 0 → IsPow n
mask-IsPow_upto zero n le pos h = absurd (omega arith)
mask-IsPow_upto (suc fuel) n le pos h = elim (Bool-cases (n % 2 == 0)) [
  | inl even ↦
      let half : (n - 1) / 2 ≡ n / 2 - 1 = ground arith in
      let digits = bit_and_step n (n - 1) in
      let halved : bit_and (n / 2) ((n - 1) / 2) ≡ 0 = omega (arith, digits) in
      let smaller : bit_and (n / 2) (n / 2 - 1) ≡ 0 = rw half at halved in
      let (p, e) = mask-IsPow_upto fuel (n / 2) (omega arith) (ground arith) smaller in
      (suc p, ground (arith, e, pow-suc 2 p))
  | inr odd ↦ (0, ground (arith, bit_and_step n (n - 1), bit_and_self (n / 2)))
]

-- A power of two has no digit in common with its predecessor.
mask_of_pow : (p : ℕ) → bit_and (2 ^ p) (2 ^ p - 1) ≡ 0
mask_of_pow p = bit_and_mask p (2 ^ p) ∙ mod_self (2 ^ p)
  where
    mod_self : (n : ℕ) → n % n ≡ 0
    mod_self n = grind arith

no_digit : (capacity : ℕ) → IsPow capacity → bit_and capacity (capacity - 1) ≡ 0
no_digit capacity (p, e) = rw e (mask_of_pow p)

not_zero : (capacity : ℕ) → IsPow capacity → (capacity == 0) ≡ true → ⊥
not_zero capacity pow e = ground (arith, pow_pos capacity pow)

not_masked : (capacity : ℕ) → IsPow capacity → (bit_and capacity (capacity - 1) == 0) ≡ false → ⊥
not_masked capacity pow e = ground (arith, no_digit capacity pow)

-- `init` of a new queue, given memory, succeeds exactly for the powers of two; it then sets the
-- capacity and the buffer, and otherwise leaves the queue as it was.
pub init-IsPow :
    (capacity : ℕ) (cells : List ℕ)
    → (((init (some cells) capacity new).0 ≡ true) ↔ IsPow capacity)
      × (IsPow capacity
          → (init (some cells) capacity new).1
            ≡ record { bottom = 1; top = 1; capacity = capacity; buffer = cells })
      × ((init (some cells) capacity new).0 ≡ false → (init (some cells) capacity new).1 ≡ new)
unfolding init new
init-IsPow capacity cells = elim (Bool-cases (capacity == 0)) [
  | inl zero_ ↦ rw zero_ (
    (λ e. cc, λ p. absurd (not_zero capacity p zero_)),
    λ p. absurd (not_zero capacity p zero_),
    λ e. refl,
  )
  | inr pos ↦ elim (Bool-cases (bit_and capacity (capacity - 1) == 0)) [
    | inl mask ↦
        rw (pos, mask)
          (
            (
              λ e. mask-IsPow_upto capacity capacity (omega arith) (ground arith) (ground arith),
              λ p. refl,
            ),
            λ p. refl,
            λ e. cc,
          )
    | inr no_mask ↦
        rw (pos, no_mask)
          (
            (λ e. cc, λ p. absurd (not_masked capacity p no_mask)),
            λ p. absurd (not_masked capacity p no_mask),
            λ e. refl,
          )
  ]
]
