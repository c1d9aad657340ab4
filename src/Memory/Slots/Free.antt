-- ===== src/Memory/Slots/Free.antt =====
-- Slots that leave the free list and come back to it, and writes of their owners.
use cpp_cores.Base.{
  ℕ, ◌≤◌, ◌≡◌, refl, sym, ap, ◌∙◌, Bool, true, false, List, [], ◌∷◌, ◌==◌, arith, mem, All-mem,
  Bool-cases, inl, inr,
}
use cpp_cores.Memory.Slots.{Allocator, store, deallocate, set_live, Sizes}
use cpp_cores.Memory.Slots.Keep.{Chain-store, mem-All, Free, Sound}
use cpp_cores.Memory.Slots.Carve.{All-live, set_live_other}

pub used_known :
    (p q : ℕ) (slots : List ℕ) (live : ℕ → Bool) (b : Bool)
    → mem p slots ≡ true
    → ((x : ℕ) → live x ≡ true → mem x slots ≡ true)
    → set_live live p b q ≡ true
    → mem q slots ≡ true
used_known p q slots live b k u h = elim (Bool-cases (p == q)) [
  | inl e ↦ let eq : p ≡ q = ground arith in ap (λ x. mem x slots) (sym eq) ∙ k
  | inr e ↦ u q (sym (set_live_other live p q b e) ∙ h)
]

module _ (slot align block_size : ℕ) (sizes : Sizes slot align block_size) where
  -- The free list gives its first slot.
  pub pop-Sound :
      (a : Allocator) (next : ℕ → ℕ) (slots : List ℕ) (live : ℕ → Bool) (blocks : List ℕ)
      → (a.free_slots == 0) ≡ false
      → Sound slot align block_size (a, next) slots live blocks
      → Sound slot align block_size
          (record a { free_slots = next a.free_slots }, next)
          slots
          (set_live live a.free_slots true)
          blocks
        × (live a.free_slots ≡ false × mem a.free_slots slots ≡ true)
  pop-Sound a next slots live blocks some v = go v.free
    where
      go :
          Free slot align block_size (a, next) slots live
          → Sound slot align block_size
              (record a { free_slots = next a.free_slots }, next)
              slots
              (set_live live a.free_slots true)
              blocks
            × (live a.free_slots ≡ false × mem a.free_slots slots ≡ true)
      go ([], (chain, idle, known, once)) = absurd (ground arith)
      go (p ∷ l, (((at, pos), chain), (first_idle, idle), (first_known, known), (out, once))) =
          let known_first : mem a.free_slots slots ≡ true =
            ap (λ x. mem x slots) at ∙ first_known in
          let not_free : mem a.free_slots l ≡ false = ap (λ x. mem x l) at ∙ out in
          (
            record {
              inside = v.inside;
              apart = v.apart;
              aligned = v.aligned;
              nonnull = v.nonnull;
              tail = v.tail;
              free =
                  (l, (rw at chain, All-live live a.free_slots true l not_free idle, known, once));
              used = λ q h. used_known a.free_slots q slots live true known_first v.used h;
            },
            (ap live at ∙ first_idle, known_first),
          )

  -- A slot that is handed out goes to the front of the free list.
  pub push-Sound :
      (p : ℕ) (a : Allocator) (next : ℕ → ℕ) (slots : List ℕ) (live : ℕ → Bool) (blocks : List ℕ)
      → live p ≡ true
      → Sound slot align block_size (a, next) slots live blocks
      → Sound slot align block_size (deallocate p (a, next)) slots (set_live live p false) blocks
  unfolding deallocate
  push-Sound p a next slots live blocks h v =
      let known_p : mem p slots ≡ true = v.used p h in
      let pos : 1 ≤ p = All-mem (λ q. 1 ≤ q) slots p v.nonnull known_p in
      let some : (p == 0) ≡ false = ground arith in
      let self : (p == p) ≡ true = ground arith in
      let (l, (chain, idle, known, once)) = v.free in
      let out : mem p l ≡ false = mem-All live p l idle h in
      rw some (record {
        inside = v.inside;
        apart = v.apart;
        aligned = v.aligned;
        nonnull = v.nonnull;
        tail = v.tail;
        free = (
          p ∷ l,
          (
            ((refl, pos), rw self (Chain-store next p a.free_slots a.free_slots l out chain)),
            (rw self refl, All-live live p false l out idle),
            (known_p, known),
            (out, once),
          ),
        );
        used = λ q k. used_known p q slots live false known_p v.used k;
      })

  -- What the owner of a slot writes does not reach the free list.
  pub write-Sound :
      (p x : ℕ) (a : Allocator) (next : ℕ → ℕ) (slots : List ℕ) (live : ℕ → Bool) (blocks : List ℕ)
      → live p ≡ true
      → Sound slot align block_size (a, next) slots live blocks
      → Sound slot align block_size (a, store next p x) slots live blocks
  write-Sound p x a next slots live blocks h v =
      let (l, (chain, idle, known, once)) = v.free in
      let out : mem p l ≡ false = mem-All live p l idle h in
      record {
        inside = v.inside;
        apart = v.apart;
        aligned = v.aligned;
        nonnull = v.nonnull;
        tail = v.tail;
        free = (l, (Chain-store next p x a.free_slots l out chain, idle, known, once));
        used = v.used;
      }
