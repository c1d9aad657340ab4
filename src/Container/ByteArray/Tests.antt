-- ===== src/Container/ByteArray/Tests.antt =====
-- Runs of the byte array, and the theorems at concrete arrays.
use cpp_cores.Base.{
  ℕ, ◌+◌, ◌-◌, ◌/◌, ◌<◌, ◌≤◌, ◌≡◌, refl, true, List, [], ◌∷◌, ◌++◌, some, ltb, if◌then◌else◌, arith,
  length,
}
use mathlib.Core.List.{flatten}
use cpp_cores.Container.ByteArray.{
  ByteArray, Read, w64, overwrite, slice, new, get_capacity, get_read_size, new_nodes, add_capacity,
  write_loop, write, read_loop, read,
}
use cpp_cores.Container.ByteArray.Flat.{flat}
use cpp_cores.Container.ByteArray.Valid.{IsValid, new-IsValid}
use cpp_cores.Container.ByteArray.Writing.{grown_size, write_refines}
use cpp_cores.Container.ByteArray.Reading.{past_end, read_refines}
use cpp_cores.Container.ByteArray.Sequence.{write_all, demand}

-- Blocks of four bytes, filled with what the memory had.
abbrev junk : ℕ → List ℕ
junk i = 9 ∷ 9 ∷ 9 ∷ 9 ∷ []

abbrev six : List ℕ
six = 1 ∷ 2 ∷ 3 ∷ 4 ∷ 5 ∷ 6 ∷ []

abbrev two_more : List ℕ
two_more = 7 ∷ 8 ∷ []

abbrev chunks : List (List ℕ)
chunks = six ∷ two_more ∷ []

abbrev empty : ByteArray
empty = new junk 4

empty-IsValid : IsValid empty
empty-IsValid = new-IsValid junk 4 refl (omega arith) (omega arith)

-- The second call fills the second node, and `m_cur` is null after it.
abbrev full : ByteArray
full = record {
  base_size = 4;
  position = 8;
  capacity = 8;
  size = 8;
  big_endian = true;
  nodes = (1 ∷ 2 ∷ 3 ∷ 4 ∷ []) ∷ (5 ∷ 6 ∷ 7 ∷ 8 ∷ []) ∷ [];
  cur = 2;
}

writes_run : write_all junk chunks empty ≡ some full
unfolding write_all write write_loop overwrite add_capacity get_capacity new_nodes new
writes_run = refl

-- Reading no bytes there goes through the null pointer.
read_no_bytes : read 0 full ≡ Read.null_access
unfolding read read_loop get_read_size
read_no_bytes = refl

full-IsValid : IsValid full
unfolding flatten
full-IsValid = record {
  pos = omega arith;
  root = omega arith;
  blocks = (refl, (refl, tt));
  total = refl;
  at = refl;
  inside = omega arith;
  filled = omega arith;
  short = omega arith;
  small = omega arith;
}

sizes : (j : ℕ) → length (junk j) ≡ empty.base_size
unfolding new
sizes j = refl

room : empty.capacity + length six + empty.base_size < w64
unfolding new
room = omega arith

enough : 4 + demand 4 chunks < w64
unfolding demand
enough = omega arith

write_refines_example :
    (a' : ByteArray) × (write junk six empty ≡ some a'
      × IsValid a'
      × ((more : List ℕ) × flat a' ≡ overwrite empty.position six (flat empty ++ more))
      × (a'.position ≡ empty.position + length six
          × a'.size ≡ grown_size (length six) empty
          × a'.base_size ≡ empty.base_size
          × a'.capacity ≤ empty.capacity + length six + empty.base_size))
write_refines_example = write_refines junk six empty sizes empty-IsValid room

read_refines_example : read 0 full ≡ (
    if ltb (full.size - full.position) 0
    then Read.out_of_range
    else if past_end 0 full
    then Read.null_access
    else Read.done
        (slice full.position 0 (flat full))
        (record full { cur = (full.position + 0) / full.base_size; position = full.position + 0 }))
read_refines_example = read_refines 0 full full-IsValid
