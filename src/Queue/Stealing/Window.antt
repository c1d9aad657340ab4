-- ===== src/Queue/Stealing/Window.antt =====
-- The slots from one index up, and the masked index as a remainder.
use cpp_cores.Base.{
  ℕ, zero, suc, ◌+◌, ◌-◌, ◌%◌, ◌^◌, ◌<◌, ◌≤◌, ◌≡◌, ◌≢◌, refl, ap, ap₂, sym, ◌∙◌, List, [], ◌∷◌,
  ◌++◌, get_or, set, arith, dec_lt, get_or-set_ne, length,
}
use native.Mathlib.Nat.{mod-add-mod, mod-eq_of_lt, mod-eq-sub-mod, mod-lt, one-le-pow}
use cpp_cores.Base.Bits.{bit_and_mask}
use cpp_cores.Queue.Stealing.{slot}

abbrev pub IsPow : ℕ → Type 0
IsPow capacity = (p : ℕ) × (capacity ≡ 2 ^ p)

pub pow_pos : (capacity : ℕ) → IsPow capacity → 0 < capacity
pow_pos capacity (p, e) = rw e (one-le-pow p 2 (omega arith))

-- `i & (capacity - 1)` is the remainder, since the capacity is a power of two.
pub slot_lem : (capacity i : ℕ) → IsPow capacity → slot capacity i ≡ i % capacity
unfolding slot
slot_lem capacity i (p, e) = rw e (bit_and_mask p i)

pub slot-lt : (capacity i : ℕ) → IsPow capacity → slot capacity i < capacity
slot-lt capacity i pow = rw (slot_lem capacity i pow) (mod-lt i (pow_pos capacity pow))

mod-shift-ne : (n h d : ℕ) → h < n → 0 < d → d < n → (h + d) % n ≢ h
mod-shift-ne n h d hh hd hn = elim (dec_lt (h + d) n) [
  | yes below ↦ omega (arith, mod-eq_of_lt below)
  | no above ↦ omega (
    arith,
    mod-eq-sub-mod {n = h + d} {m = n} (omega arith),
    mod-eq_of_lt {n = h + d - n} {m = n} (omega arith),
  )
]

-- Indices less than a capacity apart use different slots.
pub slot-ne :
    (capacity i j : ℕ)
    → IsPow capacity
    → i < j
    → j < i + capacity
    → slot capacity j ≢ slot capacity i
slot-ne capacity i j pow lt near =
    let far : j ≡ i + (j - i) = omega arith in
    let apart =
      mod-shift-ne capacity (i % capacity) (j - i) (mod-lt i (pow_pos capacity pow)) (omega arith)
        (omega arith) in
    rw (slot_lem capacity i pow, slot_lem capacity j pow)
      (λ same. apart (mod-add-mod i capacity (j - i) ∙ ap (λ t. t % capacity) (sym far) ∙ same))

module _ (capacity : ℕ) where
  -- The elements at `count` indices from `i` up.
  abbrev pub window : List ℕ → ℕ → ℕ → List ℕ
  window cells i zero = []
  window cells i (suc count) = get_or cells (slot capacity i) 0 ∷ window cells (suc i) count

  pub window-set :
      (cells : List ℕ) (i count b e : ℕ)
      → IsPow capacity
      → i + count ≤ b
      → b < i + capacity
      → window (set cells (slot capacity b) e) i count ≡ window cells i count
  window-set cells i zero b e pow past near = refl
  window-set cells i (suc count) b e pow past near =
      ap₂ ◌∷◌
        (get_or-set_ne cells (slot capacity b) (slot capacity i) e 0
          (slot-ne capacity i b pow (omega arith) near))
        (window-set cells (suc i) count b e pow (omega arith) (omega arith))

  pub window-snoc :
      (cells : List ℕ) (i count : ℕ)
      → window cells i (suc count)
        ≡ window cells i count ++ get_or cells (slot capacity (i + count)) 0 ∷ []
  window-snoc cells i zero = ap (λ j. get_or cells (slot capacity j) 0 ∷ []) (omega arith)
  window-snoc cells i (suc count) =
      ap (λ l. get_or cells (slot capacity i) 0 ∷ l)
        (window-snoc cells (suc i) count
          ∙ ap (λ j. window cells (suc i) count ++ get_or cells (slot capacity j) 0 ∷ [])
              (omega arith))

  pub length-window : (cells : List ℕ) (i count : ℕ) → length (window cells i count) ≡ count
  length-window cells i zero = refl
  length-window cells i (suc count) = ap suc (length-window cells (suc i) count)
