-- ===== src/Memory/Slots/Tests.antt =====
-- Runs of the allocator, and the theorems at concrete states.
use cpp_cores.Base.{ℕ, ◌%◌, ◌≤◌, ◌≡◌, refl, true, false, [], ◌∷◌, inl, inr, arith}
use cpp_cores.Memory.Regions.{Apart, Covered, region}
use cpp_cores.Memory.Slots.{
  System, Sizes, FreshBlock, Step, Reach, new, start, asks, allocate, allocate_block, pad_pointer,
  call_allocate,
}
use cpp_cores.Memory.Slots.Keep.{bodies}
use cpp_cores.Memory.Slots.Steps.{live-Apart}

abbrev nothing : ℕ → ℕ
nothing p = 0

-- Slots of 16 bytes in blocks of 64.
abbrev empty : System
empty = start nothing

abbrev one : System
one = call_allocate 16 8 64 160 1 empty

abbrev two : System
two = call_allocate 16 8 64 0 1 one

sizes : Sizes 16 8 64
unfolding Sizes
sizes = (inr (inr (inr (inl refl))), refl, omega arith, omega arith, omega arith)

one_fresh : asks empty.state.0 ≡ true → FreshBlock 16 8 64 160 empty.blocks
unfolding start
one_fresh h = (omega arith, refl, omega arith, tt)

two_asks : asks one.state.0 ≡ false
unfolding start new asks call_allocate allocate allocate_block pad_pointer
two_asks = refl

two_asks_not : asks two.state.0 ≡ false
unfolding start new asks call_allocate allocate allocate_block pad_pointer
two_asks_not = refl

two_calls : Reach 16 8 64 empty two
two_calls =
    Reach.later (Reach.later Reach.here (Step.allocated 160 1 one_fresh))
      (Step.allocated 0 1 (λ h. absurd (ground (arith, two_asks))))

two_run : two.slots ≡ 184 ∷ 168 ∷ []
unfolding start new call_allocate allocate allocate_block pad_pointer
two_run = refl

live_first : two.live 168 ≡ true
unfolding start new call_allocate allocate allocate_block pad_pointer
live_first = refl

live_second : two.live 184 ≡ true
unfolding start new call_allocate allocate allocate_block pad_pointer
live_second = refl

live-Apart_example :
    Apart (region 168 16) (region 184 16)
    × Covered (region 168 16) (bodies 64 two.blocks)
    × (1 ≤ 168 × 168 % 8 ≡ 0)
    × two.live (allocate 16 8 64 0 1 two.state).0 ≡ false
live-Apart_example =
    live-Apart 16 8 64 sizes nothing two 168 184 0 1 two_calls live_first live_second refl
      (λ h. absurd (ground (arith, two_asks_not)))
