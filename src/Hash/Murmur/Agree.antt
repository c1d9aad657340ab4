-- ===== src/Hash/Murmur/Agree.antt =====
-- The overloads for a C string and for a pointer and a size.
use cpp_cores.Base.{ℕ, ◌≡◌, ◌≢◌, refl, List, [], ◌∷◌, ◌++◌, some, ◌==◌, length, All, arith, false}
use cpp_cores.Hash.Murmur.{
  strlen, murmur3_hash, murmur3_hash_sized, murmur3_hash64, murmur3_hash64_sized,
}

strlen-text : (s rest : List ℕ) → All (λ c. c ≢ 0) s → strlen (s ++ 0 ∷ rest) ≡ length s
unfolding strlen
strlen-text [] rest h = refl
strlen-text (c ∷ s) rest (apart, h) =
    let more : (c == 0) ≡ false = ground arith in rw (more, strlen-text s rest h) (omega arith)

-- On a text without a NUL in it, the overload that looks for the end of the text gives what the
-- overload gives that is told its length, for one seed and for two.
pub overloads_agree :
    (s rest : List ℕ)
    → All (λ c. c ≢ 0) s
    → (seed seed2 : ℕ)
    → let str = some (s ++ 0 ∷ rest) in
      (murmur3_hash str seed ≡ murmur3_hash_sized str (length s) seed)
      × (murmur3_hash64 str seed seed2 ≡ murmur3_hash64_sized str (length s) seed seed2)
unfolding murmur3_hash murmur3_hash_sized murmur3_hash64 murmur3_hash64_sized
overloads_agree s rest h seed seed2 = rw (strlen-text s rest h) (refl, refl)
