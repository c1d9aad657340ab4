-- ===== src/Memory/Slots/Keep.antt =====
-- The free slots, the slots that are handed out and the rest of the block stay apart.
use cpp_cores.Base.{
  ℕ, ◌+◌, ◌-◌, ◌%◌, ◌≤◌, ◌<◌, ◌≡◌, Bool, true, false, List, [], ◌∷◌, map, ◌==◌, leb, arith, All,
  mem, All-mem, Bool-cases, inl, inr, ◌⊎◌,
}
use cpp_cores.Memory.Regions.{Region, Apart, Covered, Separate, region, Apart-sym}
use cpp_cores.Memory.Slots.{Allocator, w64, pad_pointer, store, Sizes}

-- The free slots, linked from `free` on.
abbrev pub Chain : (ℕ → ℕ) → ℕ → List ℕ → Type 0
Chain next a [] = a ≡ 0
Chain next a (p ∷ ps) = (a ≡ p × 1 ≤ p) × Chain next (next p) ps

abbrev pub Distinct : List ℕ → Type 0
Distinct [] = Unit
Distinct (p ∷ ps) = mem p ps ≡ false × Distinct ps

-- A store to a slot that is not free leaves the chain.
pub Chain-store :
    (next : ℕ → ℕ) (p v a : ℕ) (l : List ℕ)
    → mem p l ≡ false
    → Chain next a l
    → Chain (store next p v) a l
Chain-store next p v a [] h c = c
Chain-store next p v a (q ∷ l) h (e, c) =
    let other : (p == q) ≡ false = ground arith in
    (e, rw other (Chain-store next p v (next q) l (ground arith) c))

-- A slot that the test fails of is not in a list where it holds.
pub mem-All :
    (P : ℕ → Bool) (p : ℕ) (l : List ℕ) → All (λ q. P q ≡ false) l → P p ≡ true → mem p l ≡ false
mem-All P p l h k = elim (Bool-cases (mem p l)) [
  | inl e ↦ let no_way : P p ≡ false = All-mem (λ q. P q ≡ false) l p h e in absurd (ground arith)
  | inr e ↦ e
]

-- Slots and blocks as regions.
abbrev pub regions : ℕ → List ℕ → List Region
regions slot = map (λ p. region p slot)

abbrev pub bodies : ℕ → List ℕ → List Region
bodies block_size = map (λ b. region (b + 8) (block_size - 8))

pub All-regions :
    (slot : ℕ) (P : Region → Type 0) (l : List ℕ) (q : ℕ)
    → All P (regions slot l)
    → mem q l ≡ true
    → P (region q slot)
All-regions slot P [] q h k = absurd (ground arith)
All-regions slot P (p ∷ l) q (h, hs) k = elim (Bool-cases (q == p)) [
  | inl e ↦ let eq : q ≡ p = ground arith in rw eq h
  | inr e ↦ All-regions slot P l q hs (ground arith)
]

-- Two of the slots do not overlap.
pub Separate-regions :
    (slot : ℕ) (l : List ℕ) (p q : ℕ)
    → Separate (regions slot l)
    → mem p l ≡ true
    → mem q l ≡ true
    → (p == q) ≡ false
    → Apart (region p slot) (region q slot)
Separate-regions slot [] p q s h k n = absurd (ground arith)
Separate-regions slot (x ∷ l) p q (a, s) h k n = elim (Bool-cases (p == x)) [
  | inl e ↦
      let eq : p ≡ x = ground arith in
      rw eq (All-regions slot (Apart (region x slot)) l q a (ground arith))
  | inr e ↦ elim (Bool-cases (q == x)) [
    | inl d ↦
        let eq : q ≡ x = ground arith in
        rw eq (
          Apart-sym (region x slot) (region p slot)
            (All-regions slot (Apart (region x slot)) l p a (ground arith)))
    | inr d ↦ Separate-regions slot l p q s (ground arith) (ground arith) n
  ]
]

-- A new block is apart from the bodies of the others.
pub All-Apart-bodies :
    (b size : ℕ) (blocks : List ℕ)
    → 8 ≤ size
    → All (λ c. Apart (region b size) (region c size)) blocks
    → All (Apart (region b size)) (bodies size blocks)
All-Apart-bodies b size [] l h = tt
All-Apart-bodies b size (c ∷ blocks) l (inl h, hs) =
    (inl (omega arith), All-Apart-bodies b size blocks l hs)
All-Apart-bodies b size (c ∷ blocks) l (inr h, hs) =
    (inr (omega arith), All-Apart-bodies b size blocks l hs)

module _ (slot align block_size : ℕ) where
  -- The first slot of a block follows the pointer to the block before it, and is aligned.
  pub pad_pointer_lem :
      (b : ℕ)
      → Sizes slot align block_size
      → b % 16 ≡ 0
      → b + block_size < w64
      → 8 + pad_pointer (b + 8) align ≤ slot × (b + 8 + pad_pointer (b + 8) align) % align ≡ 0
  unfolding Sizes pad_pointer
  pad_pointer_lem b (inl e, m, k, f, g) h l = rw e (omega arith, omega arith)
  pad_pointer_lem b (inr (inl e), m, k, f, g) h l = rw e (omega arith, omega arith)
  pad_pointer_lem b (inr (inr (inl e)), m, k, f, g) h l = rw e (omega arith, omega arith)
  pad_pointer_lem b (inr (inr (inr (inl e))), m, k, f, g) h l = rw e (omega arith, omega arith)
  pad_pointer_lem b (inr (inr (inr (inr e))), m, k, f, g) h l = rw e (omega arith, omega arith)

  -- What is left of the current block.
  abbrev pub rest : Allocator → Region
  rest a = region a.current_slot (a.last_slot - 1 + slot - a.current_slot)

  abbrev pub Room : Allocator → List ℕ → List ℕ → Type 0
  Room a slots blocks =
      a.current_slot < a.last_slot
      × Covered (rest a) (bodies block_size blocks)
      × All (Apart (rest a)) (regions slot slots)
      × a.current_slot % align ≡ 0
      × 1 ≤ a.current_slot

  -- The free slots are not handed out, and each is there once.
  abbrev pub Free : Allocator × (ℕ → ℕ) → List ℕ → (ℕ → Bool) → Type 0
  Free (a, next) slots live =
      (l : List ℕ) × (Chain next a.free_slots l
        × All (λ p. live p ≡ false) l
        × All (λ p. mem p slots ≡ true) l
        × Distinct l)

  pub record Sound (state : Allocator × (ℕ → ℕ)) (slots : List ℕ) (live : ℕ → Bool)
      (blocks : List ℕ) : Type 0 where
    pub inside : All (λ r. Covered r (bodies block_size blocks)) (regions slot slots)
    pub apart : Separate (regions slot slots)
    pub aligned : All (λ p. p % align ≡ 0) slots
    pub nonnull : All (λ p. 1 ≤ p) slots
    pub tail : (leb state.0.last_slot state.0.current_slot ≡ true) ⊎ Room state.0 slots blocks
    pub free : Free state slots live
    pub used : (p : ℕ) → live p ≡ true → mem p slots ≡ true
