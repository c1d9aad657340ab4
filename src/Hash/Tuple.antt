-- ===== src/Hash/Tuple.antt =====
-- src/meta/simple_tuple.h: the hash functions of `Tuple`. A tuple, which is never empty, is given by the
-- values of `std::hash` at its elements, numbers of 64 bits.
pub mod Agree
mod Tests
use cpp_cores.Base.{
  ℕ, zero, suc, ◌+◌, ◌-◌, ◌*◌, ◌/◌, ◌%◌, ◌^◌, List, [], ◌∷◌, bit_xor, length, get_or, ◌==◌,
  if◌then◌else◌,
}

abbrev pub w64 : ℕ
w64 = 2 ^ 64

-- The new value of `seed`.
pub combine_hash : ℕ → ℕ → ℕ
combine_hash seed hash =
    bit_xor seed ((hash + 0x9e3779b9 + seed * 2 ^ 6 % w64 + seed / 2 ^ 2) % w64)

-- `TupleHashHelper` at an index, and `tuple_get` at an index that the compiler has checked.
pub hash_helper : List ℕ → ℕ → ℕ
hash_helper tuple zero = 0
hash_helper tuple (suc index) = combine_hash (hash_helper tuple index) (get_or tuple (suc index) 0)

-- `hash_tuple_struct`, by `HashTuple`.
pub hash_tuple_struct : List ℕ → ℕ
hash_tuple_struct tuple = if length tuple == 0 then 0 else hash_helper tuple (length tuple - 1)

-- The fold expression of `hash_tuple_impl`, from left to right.
pub hash_tuple_impl : ℕ → List ℕ → ℕ
hash_tuple_impl seed [] = seed
hash_tuple_impl seed (hash ∷ hashes) = hash_tuple_impl (combine_hash seed hash) hashes

pub hash_tuple_fold : List ℕ → ℕ
hash_tuple_fold tuple = hash_tuple_impl 0 tuple
