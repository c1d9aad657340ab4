-- ===== src/Lock/Posix/Tests.antt =====
-- The results of the wrappers over a lock that is one bit.
use cpp_cores.Base.{ℕ, refl, Bool, true, not, arith, if◌then◌else◌}
use cpp_cores.Lock.Posix.Results.{Documented}

-- A free lock is `false`; EBUSY is 16.
abbrev bit_trylock : Bool → ℕ × Bool
bit_trylock held = (if not held then 0 else 16, true)

bit_trylock-Documented : Documented bit_trylock not 16
bit_trylock-Documented = record { nonzero = λ e. absurd (omega arith); answer = λ l. refl }
