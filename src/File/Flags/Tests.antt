-- ===== src/File/Flags/Tests.antt =====
-- The functions over a descriptor whose flags are a number, and the theorem there.
use cpp_cores.Base.{ℕ, ◌^◌, ◌≡◌, refl}
use cpp_cores.Base.Int.{ℤ}
use cpp_cores.File.Flags.{Fcntl, make_non_blocking, set_flag, make_blocking, clear_flag}
use cpp_cores.File.Flags.Effect.{Documented}

abbrev plain : Fcntl ℕ
plain = record { getfl = λ s. ℤ.pos s; setfl = λ s f. (f, ℤ.pos 0) }

plain-Documented : Documented plain 11
plain-Documented = λ s q b b' r at done. refl

-- Read and write, then also O_NONBLOCK.
set_bit : make_non_blocking plain (2 ^ 11) 2 ≡ (2050, ℤ.pos 0)
unfolding make_non_blocking set_flag
set_bit = refl

clear_bit : make_blocking plain (2 ^ 11) 2050 ≡ (2, ℤ.pos 0)
unfolding make_blocking clear_flag
clear_bit = refl

set_done : (make_non_blocking plain (2 ^ 11) 2).1 ≡ ℤ.pos 0
unfolding make_non_blocking set_flag
set_done = refl

clear_done : (make_blocking plain (2 ^ 11) 2).1 ≡ ℤ.pos 0
unfolding make_blocking clear_flag
clear_done = refl
