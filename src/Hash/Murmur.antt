-- ===== src/Hash/Murmur.antt =====
-- src/utils/hash.cc: `murmur3_hash` and `murmur3_hash64`; src/utils/hash.h: `ROTL` and `fmix32`. A
-- pointer is none, or the list of the bytes from it on. Words are loaded from memory lowest byte first,
-- and a length is below 2^31, as its conversion to `int` asks.
pub mod Agree
mod Tests
use cpp_cores.Base.{
  ℕ, zero, suc, ◌+◌, ◌-◌, ◌*◌, ◌/◌, ◌%◌, ◌^◌, List, [], ◌∷◌, Option, none, some, bit_or, bit_xor,
  length, take, ◌==◌, if◌then◌else◌,
}

abbrev w32 : ℕ
w32 = 2 ^ 32

pub rotl : ℕ → ℕ → ℕ
rotl x r = bit_or (x * 2 ^ r % w32) (x / 2 ^ (32 - r))

pub fmix32 : ℕ → ℕ
fmix32 h =
    let h1 = bit_xor h (h / 2 ^ 16) in
    let h2 = h1 * 0x85ebca6b % w32 in
    let h3 = bit_xor h2 (h2 / 2 ^ 13) in let h4 = h3 * 0xc2b2ae35 % w32 in bit_xor h4 (h4 / 2 ^ 16)

-- `s *= seed1; s = ROTL(s, 15); s *= seed2;`
pub scramble : ℕ → ℕ
scramble s = rotl (s * 0xcc9e2d51 % w32) 15 * 0x1b873593 % w32

-- One round of the loop over the blocks.
pub round : ℕ → ℕ → ℕ
round h s = (rotl (bit_xor h (scramble s)) 13 * 5 % w32 + 0xe6546b64) % w32

-- The loop over the blocks, and then the `switch` on what is left.
pub blocks : ℕ → List ℕ → ℕ
blocks h (a ∷ b ∷ c ∷ d ∷ rest) = blocks (round h (a + b * 2 ^ 8 + c * 2 ^ 16 + d * 2 ^ 24)) rest
blocks h (a ∷ b ∷ c ∷ []) = bit_xor h (scramble (bit_or (bit_or (c * 2 ^ 16) (b * 2 ^ 8)) a))
blocks h (a ∷ b ∷ []) = bit_xor h (scramble (bit_or (b * 2 ^ 8) a))
blocks h (a ∷ []) = bit_xor h (scramble a)
blocks h [] = h

-- The overload for a pointer and a size.
pub murmur3_hash_sized : Option (List ℕ) → ℕ → ℕ → ℕ
murmur3_hash_sized none size seed = 0
murmur3_hash_sized (some mem) size seed = fmix32 (bit_xor (blocks seed (take size mem)) size)

pub strlen : List ℕ → ℕ
strlen [] = 0
strlen (c ∷ cs) = if c == 0 then 0 else strlen cs + 1

-- The overload for a C string, and for a `string_view`, which passes its data on.
pub murmur3_hash : Option (List ℕ) → ℕ → ℕ
murmur3_hash none seed = 0
murmur3_hash (some mem) seed = fmix32 (bit_xor (blocks seed (take (strlen mem) mem)) (strlen mem))

pub murmur3_hash64_sized : Option (List ℕ) → ℕ → ℕ → ℕ → ℕ
murmur3_hash64_sized str size seed seed2 =
    bit_or (murmur3_hash_sized str size seed * 2 ^ 32) (murmur3_hash_sized str size seed2)

pub murmur3_hash64 : Option (List ℕ) → ℕ → ℕ → ℕ
murmur3_hash64 str seed seed2 = bit_or (murmur3_hash str seed * 2 ^ 32) (murmur3_hash str seed2)
