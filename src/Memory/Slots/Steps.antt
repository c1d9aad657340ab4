-- ===== src/Memory/Slots/Steps.antt =====
-- Each call keeps what holds of the slots, and what that says of the slots handed out.
use cpp_cores.Base.{
  ℕ, ◌%◌, ◌≤◌, ◌≡◌, refl, true, false, [], ◌∷◌, ◌==◌, leb, arith, mem, All-mem, Bool-cases, inl,
  inr,
}
use cpp_cores.Memory.Regions.{Apart, Covered, region}
use cpp_cores.Memory.Slots.{
  System, allocate_block, asks, allocate, start, new, call_allocate, call_deallocate, write_element,
  FreshBlock, Step, Reach, Sizes,
}
use cpp_cores.Memory.Slots.Keep.{bodies, All-regions, Separate-regions, Room, Sound}
use cpp_cores.Memory.Slots.Carve.{cut-Sound, cut_fresh, Room-left, block-Sound}
use cpp_cores.Memory.Slots.Free.{pop-Sound, push-Sound, write-Sound}

module _ (slot align block_size : ℕ) (sizes : Sizes slot align block_size) where
  abbrev pub IsSound : System → Type 0
  IsSound s = Sound slot align block_size s.state s.slots s.live s.blocks

  -- `allocate` on each of its branches: what it returns was not handed out.
  pub allocate-Sound :
      (b n : ℕ) (s : System)
      → (asks s.state.0 ≡ true → FreshBlock slot align block_size b s.blocks)
      → IsSound s
      → IsSound (call_allocate slot align block_size b n s)
        × s.live (allocate slot align block_size b n s.state).0 ≡ false
  unfolding call_allocate allocate asks
  allocate-Sound b n s f v = elim (Bool-cases (s.state.0.free_slots == 0)) [
    | inl e ↦ elim (Bool-cases (leb s.state.0.last_slot s.state.0.current_slot)) [
      | inl k ↦
          let fresh : FreshBlock slot align block_size b s.blocks = f (rw (e, k) refl) in
          let empty : s.state.0.free_slots ≡ 0 = ground arith in
          let (v', room) =
            block-Sound slot align block_size sizes b s.state.0 s.state.1 s.slots s.live s.blocks
              empty fresh v in
          let (a', next') = allocate_block slot align block_size b s.state in
          rw (e, k)
            (
              cut-Sound slot align block_size sizes a' next' s.slots s.live (b ∷ s.blocks) room v',
              cut_fresh slot align block_size sizes a' next' s.slots s.live (b ∷ s.blocks) room v',
            )
      | inr k ↦
          let room : Room slot align block_size s.state.0 s.slots s.blocks =
            Room-left slot align block_size sizes s.state.0 s.slots s.blocks k v.tail in
          rw (e, k)
            (
              cut-Sound slot align block_size sizes s.state.0 s.state.1 s.slots s.live s.blocks room
                  v,
              cut_fresh slot align block_size sizes s.state.0 s.state.1 s.slots s.live s.blocks room
                  v,
            )
    ]
    | inr e ↦
        let (v', (idle, known)) =
          pop-Sound slot align block_size sizes s.state.0 s.state.1 s.slots s.live s.blocks e v in
        rw e (v', idle)
  ]

  pub step-Sound : {s s' : System} → Step slot align block_size s s' → IsSound s → IsSound s'
  unfolding call_deallocate write_element
  step-Sound {s} (Step.allocated b n f) v = (allocate-Sound b n s f v).0
  step-Sound {s} (Step.deallocated p h) v =
      push-Sound slot align block_size sizes p s.state.0 s.state.1 s.slots s.live s.blocks h v
  step-Sound {s} (Step.written p x h) v =
      write-Sound slot align block_size sizes p x s.state.0 s.state.1 s.slots s.live s.blocks h v

  pub reach-Sound :
      (next : ℕ → ℕ) (s : System) → Reach slot align block_size (start next) s → IsSound s
  unfolding start new
  reach-Sound next s Reach.here = record {
    inside = tt;
    apart = tt;
    aligned = tt;
    nonnull = tt;
    tail = inl refl;
    free = ([], (refl, tt, tt, tt));
    used = λ p h. absurd (ground arith);
  }
  reach-Sound next s (Reach.later r t) = step-Sound t (reach-Sound next _ r)

  -- After any calls of an allocator, and any writes of the owners to their slots, two slots that are
  -- handed out do not overlap, and each lies in a block behind the pointer to the block before it, is
  -- not null and is aligned; and what the next `allocate` returns is not handed out at that time.
  pub live-Apart :
      (next : ℕ → ℕ) (s : System) (p q b n : ℕ)
      → Reach slot align block_size (start next) s
      → s.live p ≡ true
      → s.live q ≡ true
      → (p == q) ≡ false
      → (asks s.state.0 ≡ true → FreshBlock slot align block_size b s.blocks)
      → Apart (region p slot) (region q slot)
        × Covered (region p slot) (bodies block_size s.blocks)
        × (1 ≤ p × p % align ≡ 0)
        × s.live (allocate slot align block_size b n s.state).0 ≡ false
  live-Apart next s p q b n r hp hq ne f =
      let v : IsSound s = reach-Sound next s r in
      let kp : mem p s.slots ≡ true = v.used p hp in
      (
        Separate-regions slot s.slots p q v.apart kp (v.used q hq) ne,
        All-regions slot (λ x. Covered x (bodies block_size s.blocks)) s.slots p v.inside kp,
        (
          All-mem (λ x. 1 ≤ x) s.slots p v.nonnull kp,
          All-mem (λ x. x % align ≡ 0) s.slots p v.aligned kp,
        ),
        (allocate-Sound b n s f v).1,
      )
