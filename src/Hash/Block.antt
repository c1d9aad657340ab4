-- ===== src/Hash/Block.antt =====
-- src/utils/hash.cc: `Hash`. The data is the list of its bytes; a number of type `uint32_t` is below 2^32,
-- and `size_t` has 64 bits.
pub mod Injective
mod Tests
use cpp_cores.Base.{ℕ, ◌+◌, ◌*◌, ◌/◌, ◌%◌, ◌^◌, List, [], ◌∷◌, bit_xor, length}
use cpp_cores.Base.Bits.Xor.{xor_shift}
use cpp_cores.Encoding.Fixed.{decode_fixed32}

abbrev pub w32 : ℕ
w32 = 2 ^ 32

abbrev pub multiplier : ℕ
multiplier = 0xc6a4a793

-- `h *= m; h ^= (h >> k);`
pub multiply : ℕ → ℕ → ℕ
multiply k h = xor_shift k (h * multiplier % w32)

-- One round of the loop over groups of four bytes.
pub mix : ℕ → ℕ → ℕ
mix h w = multiply 16 ((h + w) % w32)

-- The loop, and then the `switch` on the bytes that are left.
pub hash_loop : ℕ → List ℕ → ℕ
hash_loop h (a ∷ b ∷ c ∷ d ∷ rest) = hash_loop (mix h (decode_fixed32 (a ∷ b ∷ c ∷ d ∷ []))) rest
hash_loop h (a ∷ b ∷ c ∷ []) =
    let h1 = (h + c * 2 ^ 16) % w32 in
    let h2 = (h1 + b * 2 ^ 8) % w32 in multiply 24 ((h2 + a) % w32)
hash_loop h (a ∷ b ∷ []) = let h1 = (h + b * 2 ^ 8) % w32 in multiply 24 ((h1 + a) % w32)
hash_loop h (a ∷ []) = multiply 24 ((h + a) % w32)
hash_loop h [] = h

-- `seed ^ (n * m)`, as a number of 64 bits that is stored in one of 32.
pub start : ℕ → ℕ → ℕ
start n seed = bit_xor seed (n * multiplier % 2 ^ 64) % w32

pub hash : List ℕ → ℕ → ℕ
hash bytes seed = hash_loop (start (length bytes) seed) bytes
