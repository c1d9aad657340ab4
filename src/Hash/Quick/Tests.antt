-- ===== src/Hash/Quick/Tests.antt =====
-- Runs of `quick_hash`, and its theorems at concrete texts.
use cpp_cores.Base.{◌≡◌, refl, codes}
use cpp_cores.Hash.Quick.{quick_hash, text_loop, signed}

abc : quick_hash (codes "abc") ≡ 96354
unfolding quick_hash text_loop signed
abc = refl
