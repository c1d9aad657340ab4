-- ===== src/Hash/Quick.antt =====
-- src/utils/hash.cc: `quick_hash`. A pointer is the list of the bytes from it on; a `char` is signed, so
-- a byte from 128 on is added as a negative number, modulo 2^32.
pub mod Polynomial
mod Tests
use cpp_cores.Base.{
  ℕ, zero, suc, ◌+◌, ◌-◌, ◌*◌, ◌%◌, ◌^◌, List, [], ◌∷◌, ◌==◌, ltb, if◌then◌else◌, get_or,
}

abbrev pub w32 : ℕ
w32 = 2 ^ 32

-- `*str`, converted to `unsigned`.
pub signed : ℕ → ℕ
signed c = if ltb c 128 then c else c + w32 - 256

-- `for (; *str; str++)`; the bytes that the list leaves out are taken for the end of the string.
pub text_loop : ℕ → List ℕ → ℕ
text_loop h [] = h
text_loop h (c ∷ cs) =
    let rest = text_loop ((31 * h + signed c) % w32) cs in if c == 0 then h else rest

-- The overloads for a C string, and for the two kinds of string, which pass their data on.
pub quick_hash : List ℕ → ℕ
quick_hash str = text_loop 0 str

-- The loop of the overload for a pointer and a size: `str` does not move.
pub sized_loop : ℕ → ℕ → ℕ → ℕ
sized_loop c zero h = h
sized_loop c (suc left) h = sized_loop c left ((31 * h + signed c) % w32)

pub quick_hash_sized : List ℕ → ℕ → ℕ
quick_hash_sized tmp size = sized_loop (get_or tmp 0 0) size 0
