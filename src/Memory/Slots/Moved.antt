-- ===== src/Memory/Slots/Moved.antt =====
-- Two allocators after a move.
use cpp_cores.Base.{ℕ, ◌≡◌, refl, false, ◌==◌, leb, Bool-cases, inl, inr, arith}
use cpp_cores.Memory.Slots.{Allocator, asks, allocate, move_construct, move_assign}

module _ (slot align block_size : ℕ) where
  -- What `allocate` returns when it calls no `operator new` depends on the slots only.
  pub allocate_same :
      (a c : Allocator) (next : ℕ → ℕ) (b n b' n' : ℕ)
      → a.free_slots ≡ c.free_slots
      → a.current_slot ≡ c.current_slot
      → a.last_slot ≡ c.last_slot
      → asks a ≡ false
      → (allocate slot align block_size b n (a, next)).0
        ≡ (allocate slot align block_size b' n' (c, next)).0
  unfolding allocate asks
  allocate_same a c next b n b' n' f g h k = elim (Bool-cases (c.free_slots == 0)) [
    | inl e ↦
        let not_full : leb c.last_slot c.current_slot ≡ false = ground arith in
        rw (f, g, h, e, not_full) refl
    | inr e ↦ rw (f, e) refl
  ]

  -- After a move, the allocator moved into and the one moved from hand out the same slot, unless the one
  -- moved from had none left.
  pub moved_share :
      (this other : Allocator) (next : ℕ → ℕ) (b n b' n' : ℕ)
      → asks other ≡ false
      → (let (into, from) = move_construct other in
          (allocate slot align block_size b n (into, next)).0
          ≡ (allocate slot align block_size b' n' (from, next)).0)
        × (let (into, from) = move_assign this other in
            (allocate slot align block_size b n (into, next)).0
            ≡ (allocate slot align block_size b' n' (from, next)).0)
  unfolding move_construct move_assign asks
  moved_share this other next b n b' n' k = (
    allocate_same other (record other { current_block = 0 }) next b n b' n' refl refl refl k,
    allocate_same (record other { current_block = other.current_block })
        (record other { current_block = this.current_block }) next b n b' n' refl refl refl k,
  )
