-- ===== src/Hash/Tuple/Tests.antt =====
-- Runs of the hashes of a tuple, and their theorems at concrete ones.
use cpp_cores.Base.{◌≡◌, refl, [], ◌∷◌}
use cpp_cores.Hash.Tuple.{
  hash_tuple_struct, hash_helper, hash_tuple_fold, hash_tuple_impl, combine_hash,
}
use cpp_cores.Hash.Tuple.Agree.{hash_tuple_struct-fold}

-- The first element does not reach the recursive hash, and does reach the fold.
first_ignored : hash_tuple_struct (1 ∷ 5 ∷ []) ≡ hash_tuple_struct (2 ∷ 5 ∷ [])
unfolding hash_tuple_struct hash_helper
first_ignored = refl

one_element : hash_tuple_fold (7 ∷ []) ≡ 0x9e3779c0
unfolding hash_tuple_fold hash_tuple_impl combine_hash
one_element = refl

hash_tuple_struct-fold_example : hash_tuple_struct (1 ∷ 5 ∷ 6 ∷ []) ≡ hash_tuple_fold (5 ∷ 6 ∷ [])
hash_tuple_struct-fold_example = hash_tuple_struct-fold 1 (5 ∷ 6 ∷ [])
