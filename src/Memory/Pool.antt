-- ===== src/Memory/Pool.antt =====
-- src/utils/memory_pool_lite.h: `MemoryPoolLiteImpl`. An address is a number, 0 the null pointer. The
-- address that `new char[]` returns is an argument, as are the sizes of the object and of a pointer.
pub mod Disjoint
mod Tests
use cpp_cores.Base.{
  ℕ, ◌+◌, ◌-◌, ◌*◌, ◌≤◌, max, ◌≡◌, true, false, List, [], ◌∷◌, ◌==◌, leb, ltb, if◌then◌else◌,
  length, All, ◌⊎◌,
}
use cpp_cores.Memory.Regions.{Region, Apart}

abbrev pub default_block_size : ℕ
default_block_size = 65536

pub record Pool : Type 0 where
  pub blocks : List ℕ
  pub ptr : ℕ
  pub left : ℕ
  pub memory : ℕ

pub new : ℕ → Pool
new size_of_this = record { blocks = []; ptr = 0; left = 0; memory = size_of_this }

-- How much `new_block` asks `new char[]` for.
abbrev pub allocate_size : ℕ → ℕ
allocate_size block_size = max block_size default_block_size

pub new_block : ℕ → ℕ → Pool → ℕ × Pool
new_block block block_size p =
    let size = allocate_size block_size in
    let grown = record p { blocks = block ∷ p.blocks; memory = p.memory + size } in
    if ltb block_size size
    then (block, record grown { ptr = block + block_size; left = size - block_size })
    else (block, grown)

-- `New`: the address, and the pool after it. `block` is what `new char[]` returns if it is called.
pub new_region : ℕ → ℕ → Pool → ℕ × Pool
new_region block size p =
    if leb size p.left
    then if p.ptr == 0
      then new_block block 0 (record p { left = p.left - size })
      else (p.ptr, record p { ptr = p.ptr + size; left = p.left - size })
    else new_block block size p

pub pool_usage : ℕ → Pool → ℕ
pool_usage size_of_pointer p = p.memory + length p.blocks * size_of_pointer

-- Whether, and for how much, `New` calls `new char[]`.
pub asked : ℕ → Pool → List ℕ
asked size p =
    if leb size p.left
    then if p.ptr == 0 then allocate_size 0 ∷ [] else []
    else allocate_size size ∷ []

-- The pool with the regions that it has handed out, and the blocks that it has from `new char[]`.
pub record System : Type 0 where
  pub pool : Pool
  pub given : List Region
  pub owned : List Region

pub start : ℕ → System
start size_of_this = record { pool = new size_of_this; given = []; owned = [] }

abbrev pub obtained : ℕ → List ℕ → List Region → List Region
obtained block [] owned = owned
obtained block (size ∷ sizes) owned =
    record { from = block; size = size } ∷ obtained block sizes owned

pub call : ℕ → ℕ → System → System
call block size s =
    let (address, pool) = new_region block size s.pool in
    record {
      pool = pool;
      given = record { from = address; size = size } ∷ s.given;
      owned = obtained block (asked size s.pool) s.owned;
    }

-- `new char[]` returns a block that is not null and apart from those that the pool has.
pub Fresh : ℕ → ℕ → System → Type 0
Fresh block size s =
    1 ≤ block
    × All (λ n. All (Apart (record { from = block; size = n })) s.owned) (asked size s.pool)

pub data Step (s : System) : System → Type 0 where
  called : (block size : ℕ) → Fresh block size s → Step s (call block size s)

pub data Reach (s : System) : System → Type 0 where
  here : Reach s s
  later : {t u : System} → Reach s t → Step t u → Reach s u
