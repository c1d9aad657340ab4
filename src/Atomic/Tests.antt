-- ===== src/Atomic/Tests.antt =====
-- Calls on a word of 8 bits that overflow it, and the theorem on sums there.
use cpp_cores.Base.{◌≡◌, refl, List, [], ◌∷◌}
use cpp_cores.Atomic.{atomic_add, atomic_sub, atomic_decrement, atomic_exchange_add}
use cpp_cores.Atomic.Sum.{Call, after}

abbrev calls : List Call
calls = Call.add 200 ∷ Call.exchange_add 100 ∷ Call.decrement ∷ []

wraps : after 8 calls 7 ≡ 50
unfolding atomic_add atomic_sub atomic_decrement atomic_exchange_add
wraps = refl
