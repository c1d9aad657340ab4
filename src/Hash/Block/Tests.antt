-- ===== src/Hash/Block/Tests.antt =====
-- Runs of `Hash`, and its theorems at concrete texts.
use cpp_cores.Base.{◌≡◌, ◌≢◌, ◌++◌, refl, [], ◌∷◌, List, ℕ, arith, Bytes}
use cpp_cores.Encoding.Fixed.{decode_fixed32}
use cpp_cores.Hash.Block.{hash, hash_loop, start, mix, multiply}
use cpp_cores.Hash.Block.Injective.{groups, hash-group_ne}

-- The values of the test `SignedUnsignedIssue`.
no_bytes : hash [] 0xbc9f1d34 ≡ 0xbc9f1d34
unfolding hash hash_loop start
no_bytes = refl

one_byte : hash (0x62 ∷ []) 0xbc9f1d34 ≡ 0xef1345c4
unfolding hash hash_loop start multiply
one_byte = refl

two_bytes : hash (0xc3 ∷ 0x97 ∷ []) 0xbc9f1d34 ≡ 0x5b663814
unfolding hash hash_loop start multiply
two_bytes = refl

three_bytes : hash (0xe2 ∷ 0x99 ∷ 0xa5 ∷ []) 0xbc9f1d34 ≡ 0x323c078f
unfolding hash hash_loop start multiply
three_bytes = refl

four_bytes : hash (0xe1 ∷ 0x80 ∷ 0xb9 ∷ 0x32 ∷ []) 0xbc9f1d34 ≡ 0xed21633a
unfolding hash hash_loop start mix multiply decode_fixed32
four_bytes = refl

abbrev first : List (ℕ × ℕ × ℕ × ℕ)
first = (1, 2, 3, 4) ∷ []

group-Bytes : Bytes (5 ∷ 6 ∷ 7 ∷ 8 ∷ [])
group-Bytes = omega arith

other-Bytes : Bytes (5 ∷ 6 ∷ 7 ∷ 9 ∷ [])
other-Bytes = omega arith

hash-group_ne_example :
    hash (groups first ++ (5 ∷ 6 ∷ 7 ∷ 8 ∷ 9 ∷ [])) 3
    ≢ hash (groups first ++ (5 ∷ 6 ∷ 7 ∷ 9 ∷ 9 ∷ [])) 3
hash-group_ne_example =
    hash-group_ne first (9 ∷ []) 3 5 6 7 8 5 6 7 9 group-Bytes other-Bytes (λ e. ground arith)
