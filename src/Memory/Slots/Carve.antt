-- ===== src/Memory/Slots/Carve.antt =====
-- A slot from the front of the current block, and a new block.
use cpp_cores.Base.{
  ℕ, ◌+◌, ◌-◌, ◌%◌, ◌≤◌, ◌<◌, ◌≡◌, refl, sym, ap₂, ◌∙◌, Bool, true, false, List, [], ◌∷◌, ◌==◌, leb,
  arith, All, mem, All-mem, Bool-cases, inl, inr, ◌⊎◌,
}
use native.Mathlib.Nat.{add-mod, zero-mod}
use cpp_cores.Memory.Regions.{
  Region, Within, Apart, region, All-Apart-Covered, All-Apart-Within, Covered-Within,
  All-Covered-more,
}
use cpp_cores.Memory.Slots.{Allocator, allocate_block, set_live, FreshBlock, Sizes}
use cpp_cores.Memory.Slots.Keep.{
  regions, bodies, All-Apart-bodies, pad_pointer_lem, rest, Room, Sound,
}

-- A list of slots that a change of one other slot does not concern.
pub All-live :
    (live : ℕ → Bool) (p : ℕ) (b : Bool) (l : List ℕ)
    → mem p l ≡ false
    → All (λ q. live q ≡ false) l
    → All (λ q. set_live live p b q ≡ false) l
All-live live p b [] h a = tt
All-live live p b (q ∷ l) h (a, others) =
    let other : (p == q) ≡ false = ground arith in
    (rw other a, All-live live p b l (ground arith) others)

pub All-mem-more :
    (p : ℕ) (l slots : List ℕ)
    → All (λ q. mem q slots ≡ true) l
    → All (λ q. mem q (p ∷ slots) ≡ true) l
All-mem-more p [] slots h = tt
All-mem-more p (q ∷ l) slots (h, hs) = (ground arith, All-mem-more p l slots hs)

-- What is apart from a region with a slot in it does not have that slot.
pub mem-Apart :
    (slot p size : ℕ) (slots : List ℕ)
    → 1 ≤ slot
    → slot ≤ size
    → All (Apart (region p size)) (regions slot slots)
    → mem p slots ≡ false
mem-Apart slot p size [] o f h = refl
mem-Apart slot p size (q ∷ slots) o f (inl h, hs) =
    let rest : mem p slots ≡ false = mem-Apart slot p size slots o f hs in ground arith
mem-Apart slot p size (q ∷ slots) o f (inr h, hs) =
    let rest : mem p slots ≡ false = mem-Apart slot p size slots o f hs in ground arith

pub set_live_other :
    (live : ℕ → Bool) (p q : ℕ) (b : Bool) → (p == q) ≡ false → set_live live p b q ≡ live q
set_live_other live p q b e = rw e refl

pub used_more :
    (p q : ℕ) (slots : List ℕ) (live : ℕ → Bool) (b : Bool)
    → ((x : ℕ) → live x ≡ true → mem x slots ≡ true)
    → set_live live p b q ≡ true
    → mem q (p ∷ slots) ≡ true
used_more p q slots live b u h = elim (Bool-cases (p == q)) [
  | inl e ↦ ground arith
  | inr e ↦
      let in_slots : mem q slots ≡ true = u q (sym (set_live_other live p q b e) ∙ h) in
      ground arith
]

module _ (slot align block_size : ℕ) (sizes : Sizes slot align block_size) where
  pub enough : 8 ≤ slot × slot + slot ≤ block_size
  unfolding Sizes
  enough = let (a, m, k, f, g) = sizes in (k, g)

  pub next_aligned : (p : ℕ) → p % align ≡ 0 → (p + slot) % align ≡ 0
  unfolding Sizes
  next_aligned p h =
      let (a, m, k, f, g) = sizes in
      add-mod p slot align ∙ ap₂ (λ x y. (x + y) % align) h m ∙ zero-mod align

  -- The elements of a list are in the slots; one that is not in the slots is not in the list.
  pub mem-sub :
      (p : ℕ) (l slots : List ℕ)
      → All (λ q. mem q slots ≡ true) l
      → mem p slots ≡ false
      → mem p l ≡ false
  mem-sub p l slots h k = elim (Bool-cases (mem p l)) [
    | inl e ↦
        let no_way : mem p slots ≡ true = All-mem (λ q. mem q slots ≡ true) l p h e in
        absurd (ground arith)
    | inr e ↦ e
  ]

  -- A slot from the front of the room.
  pub cut-Sound :
      (a : Allocator) (next : ℕ → ℕ) (slots : List ℕ) (live : ℕ → Bool) (blocks : List ℕ)
      → Room slot align block_size a slots blocks
      → Sound slot align block_size (a, next) slots live blocks
      → Sound slot align block_size
          (record a { current_slot = a.current_slot + slot }, next)
          (a.current_slot ∷ slots)
          (set_live live a.current_slot true)
          blocks
  cut-Sound a next slots live blocks (less, c, out, even, one) v =
      let (l, (chain, idle, known, once)) = v.free in
      let (big, two) = enough in
      let p : ℕ = a.current_slot in
      let tail : Region = rest slot align block_size a in
      let front : Within (region p slot) tail = (omega arith, omega arith) in
      let fresh : mem p slots ≡ false =
        mem-Apart slot p tail.size slots (omega arith) (omega arith) out in
      let not_free : mem p l ≡ false = mem-sub p l slots known fresh in
      let a' : Allocator = record a { current_slot = p + slot } in
      let more : (leb a.last_slot (p + slot) ≡ true)
          ⊎ Room slot align block_size a' (p ∷ slots) blocks =
        elim (Bool-cases (leb a.last_slot (p + slot))) [
          | inl e ↦ inl e
          | inr e ↦
              let left : p + slot < a.last_slot = ground arith in
              let back : Within (rest slot align block_size a') tail = (omega arith, omega arith) in
              inr (
                left,
                Covered-Within (rest slot align block_size a') tail (bodies block_size blocks) back
                    c,
                (
                  inr (omega arith),
                  All-Apart-Within (rest slot align block_size a') tail (regions slot slots) back
                      out,
                ),
                next_aligned p even,
                omega (arith, one),
              )
        ] in
      record {
        inside = (Covered-Within (region p slot) tail (bodies block_size blocks) front c, v.inside);
        apart = (All-Apart-Within (region p slot) tail (regions slot slots) front out, v.apart);
        aligned = (even, v.aligned);
        nonnull = (one, v.nonnull);
        tail = more;
        free =
            (l, (chain, All-live live p true l not_free idle, All-mem-more p l slots known, once));
        used = λ q h. used_more p q slots live true v.used h;
      }

  -- The slot at the front of the room is not handed out.
  pub cut_fresh :
      (a : Allocator) (next : ℕ → ℕ) (slots : List ℕ) (live : ℕ → Bool) (blocks : List ℕ)
      → Room slot align block_size a slots blocks
      → Sound slot align block_size (a, next) slots live blocks
      → live a.current_slot ≡ false
  cut_fresh a next slots live blocks (less, c, out, even, one) v =
      let (big, two) = enough in
      let tail : Region = rest slot align block_size a in
      let fresh : mem a.current_slot slots ≡ false =
        mem-Apart slot a.current_slot tail.size slots (omega arith) (omega arith) out in
      elim (Bool-cases (live a.current_slot)) [
        | inl e ↦
            let known : mem a.current_slot slots ≡ true = v.used a.current_slot e in
            absurd (ground arith)
        | inr e ↦ e
      ]

  pub Room-left :
      (a : Allocator) (slots blocks : List ℕ)
      → leb a.last_slot a.current_slot ≡ false
      → (leb a.last_slot a.current_slot ≡ true) ⊎ Room slot align block_size a slots blocks
      → Room slot align block_size a slots blocks
  Room-left a slots blocks h (inl e) = absurd (ground arith)
  Room-left a slots blocks h (inr r) = r

  -- A block is added when nothing is free and the last one is used up.
  pub block-Sound :
      (b : ℕ) (a : Allocator) (next : ℕ → ℕ) (slots : List ℕ) (live : ℕ → Bool) (blocks : List ℕ)
      → a.free_slots ≡ 0
      → FreshBlock slot align block_size b blocks
      → Sound slot align block_size (a, next) slots live blocks
      → let (a', next') = allocate_block slot align block_size b (a, next) in
        Sound slot align block_size (a', next') slots live (b ∷ blocks)
        × Room slot align block_size a' slots (b ∷ blocks)
  unfolding allocate_block
  block-Sound b a next slots live blocks empty (pos, even, high, away) v =
      let (big, two) = enough in
      let (fits, first_even) = pad_pointer_lem slot align block_size b sizes even high in
      let whole : Region = region b block_size in
      let far : All (Apart whole) (bodies block_size blocks) =
        All-Apart-bodies b block_size blocks (omega arith) away in
      let clear : All (Apart whole) (regions slot slots) =
        All-Apart-Covered whole (regions slot slots) (bodies block_size blocks) far v.inside in
      let (a', next') = allocate_block slot align block_size b (a, next) in
      let tail : Region = rest slot align block_size a' in
      let inner : Within tail whole = (omega arith, omega arith) in
      let body : Within tail (region (b + 8) (block_size - 8)) = (omega arith, omega arith) in
      let room : Room slot align block_size a' slots (b ∷ blocks) = (
        omega (arith, fits, two),
        inl body,
        All-Apart-Within tail whole (regions slot slots) inner clear,
        first_even,
        omega arith,
      ) in
      (
        record {
          inside = All-Covered-more _ (regions slot slots) (bodies block_size blocks) v.inside;
          apart = v.apart;
          aligned = v.aligned;
          nonnull = v.nonnull;
          tail = inr room;
          free = ([], (empty, tt, tt, tt));
          used = v.used;
        },
        room,
      )
