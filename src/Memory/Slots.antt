-- ===== src/Memory/Slots.antt =====
-- src/utils/memory_pool_lite.h and src/utils/memory_pool_lite.cc: `MemoryPoolLiteAllocator`. An address is a number, 0 the null
-- pointer; `next` is the memory, as far as it is read through `Slot_::next`. `slot` and `align` are the
-- size and the alignment of a slot; the address that `operator new` returns is an argument.
mod Keep
mod Carve
mod Free
pub mod Steps
pub mod Moved
mod Tests
use cpp_cores.Base.{
  ℕ, ◌+◌, ◌-◌, ◌%◌, ◌^◌, ◌≤◌, ◌<◌, ◌≡◌, Bool, true, false, List, [], ◌∷◌, ◌==◌, leb, ltb,
  if◌then◌else◌, All, ◌⊎◌,
}
use cpp_cores.Memory.Regions.{Region, Apart, region}

abbrev pub w64 : ℕ
w64 = 2 ^ 64

pub record Allocator : Type 0 where
  pub current_block : ℕ
  pub current_slot : ℕ
  pub last_slot : ℕ
  pub free_slots : ℕ

pub new : Allocator
new = record { current_block = 0; current_slot = 0; last_slot = 0; free_slots = 0 }

pub pad_pointer : ℕ → ℕ → ℕ
pad_pointer p align = (align + w64 - p) % w64 % align

abbrev pub store : (ℕ → ℕ) → ℕ → ℕ → ℕ → ℕ
store next p v q = if p == q then v else next q

-- The allocator that is moved into, and the one that is moved from.
pub move_construct : Allocator → Allocator × Allocator
move_construct other = (other, record other { current_block = 0 })

pub move_assign : Allocator → Allocator → Allocator × Allocator
move_assign this other = (
  record other { current_block = other.current_block },
  record other { current_block = this.current_block },
)

-- Whether `allocate` calls `operator new`.
pub asks : Allocator → Bool
asks a = if a.free_slots == 0 then leb a.last_slot a.current_slot else false

pub deallocate : ℕ → Allocator × (ℕ → ℕ) → Allocator × (ℕ → ℕ)
deallocate p (a, next) =
    if p == 0 then (a, next) else (record a { free_slots = p }, store next p a.free_slots)

-- An allocator and the memory, with what was done: the slots it has made, those that are handed out,
-- and the blocks it has.
pub record System : Type 0 where
  pub state : Allocator × (ℕ → ℕ)
  pub slots : List ℕ
  pub live : ℕ → Bool
  pub blocks : List ℕ

abbrev pub set_live : (ℕ → Bool) → ℕ → Bool → ℕ → Bool
set_live live p b q = if p == q then b else live q

pub start : (ℕ → ℕ) → System
start next = record { state = (new, next); slots = []; live = λ p. false; blocks = [] }

pub call_deallocate : ℕ → System → System
call_deallocate p s = record s { state = deallocate p s.state; live = set_live s.live p false }

-- The owner of a slot writes an element over it.
pub write_element : ℕ → ℕ → System → System
write_element p v s = record s { state = (s.state.0, store s.state.1 p v) }

-- A pointer has 8 bytes.
module _ (slot align block_size : ℕ) where
  -- `newBlock` is what `operator new` returns.
  pub allocate_block : ℕ → Allocator × (ℕ → ℕ) → Allocator × (ℕ → ℕ)
  allocate_block new_block (a, next) =
      let body = new_block + 8 in
      (
        record a {
          current_block = new_block;
          current_slot = body + pad_pointer body align;
          last_slot = new_block + block_size - slot + 1;
        },
        store next new_block a.current_block,
      )

  -- The number of elements is not looked at.
  pub allocate : ℕ → ℕ → Allocator × (ℕ → ℕ) → ℕ × (Allocator × (ℕ → ℕ))
  allocate new_block n (a, next) =
      let (a', next') =
        if leb a.last_slot a.current_slot then allocate_block new_block (a, next) else (a, next) in
      if a.free_slots == 0
      then (a'.current_slot, (record a' { current_slot = a'.current_slot + slot }, next'))
      else (a.free_slots, (record a { free_slots = next a.free_slots }, next))

  pub call_allocate : ℕ → ℕ → System → System
  call_allocate new_block n s =
      let (p, state') = allocate new_block n s.state in
      record {
        state = state';
        slots = if s.state.0.free_slots == 0 then p ∷ s.slots else s.slots;
        live = set_live s.live p true;
        blocks = if asks s.state.0 then new_block ∷ s.blocks else s.blocks;
      }

  -- `operator new` returns a block that is not null, aligned to 16, below 2^64, and apart from the
  -- blocks that there are.
  abbrev pub FreshBlock : ℕ → List ℕ → Type 0
  FreshBlock b blocks =
      1 ≤ b
      × b % 16 ≡ 0
      × b + block_size < w64
      × All (λ c. Apart (region b block_size) (region c block_size)) blocks

  -- An owner gives back, and writes to, only what it holds.
  pub data Step (s : System) : System → Type 0 where
    allocated :
        (new_block n : ℕ)
        → (asks s.state.0 ≡ true → FreshBlock new_block s.blocks)
        → Step s (call_allocate new_block n s)
    deallocated : (p : ℕ) → s.live p ≡ true → Step s (call_deallocate p s)
    written : (p v : ℕ) → s.live p ≡ true → Step s (write_element p v s)

  pub data Reach (s : System) : System → Type 0 where
    here : Reach s s
    later : {t u : System} → Reach s t → Step t u → Reach s u

-- What the compiler knows of the sizes: the alignment is a power of two that `operator new` keeps to, the
-- size is a multiple of it, a slot holds a pointer, and a block two slots.
pub Sizes : ℕ → ℕ → ℕ → Type 0
Sizes slot align block_size =
    (align ≡ 1 ⊎ align ≡ 2 ⊎ align ≡ 4 ⊎ align ≡ 8 ⊎ align ≡ 16)
    × slot % align ≡ 0
    × 8 ≤ slot
    × align ≤ slot
    × slot + slot ≤ block_size
