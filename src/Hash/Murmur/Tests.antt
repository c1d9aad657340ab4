-- ===== src/Hash/Murmur/Tests.antt =====
-- Runs of `murmur3_hash`, and its theorem at a concrete text.
use cpp_cores.Base.{◌≡◌, ◌≢◌, refl, some, codes, arith, All}
use cpp_cores.Hash.Murmur.{murmur3_hash, strlen, blocks, round, scramble, rotl, fmix32}

-- The value of the reference implementation.
hello : murmur3_hash (some (codes "hello")) 0 ≡ 0x248bfa47
unfolding murmur3_hash strlen blocks round scramble rotl fmix32
hello = refl

hello_whole : All (λ c. c ≢ 0) (codes "hello")
hello_whole = ground arith
