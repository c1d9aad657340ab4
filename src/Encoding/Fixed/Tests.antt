-- ===== src/Encoding/Fixed/Tests.antt =====
-- Runs of the fixed-width codec, and its theorems at concrete numbers.
use cpp_cores.Base.{◌≡◌, refl, [], ◌∷◌}
use cpp_cores.Encoding.Fixed.{encode_fixed32}

little_endian : encode_fixed32 0x0102_0304 ≡ 4 ∷ 3 ∷ 2 ∷ 1 ∷ []
unfolding encode_fixed32
little_endian = refl
