-- ===== src/Atomic.antt =====
-- src/concurrent/posix_atomic.h. A builtin is one access to the shared word: from the word it gives what
-- the function returns and the word afterwards. `T` is an unsigned integer of `w` bits.
pub mod Compare
pub mod Sum
mod Tests
use cpp_cores.Base.{
  ℕ, ◌+◌, ◌-◌, ◌%◌, ◌^◌, bit_and, bit_or, bit_xor, Bool, true, false, ◌==◌, if◌then◌else◌,
}

abbrev pub atomic_get : ℕ → ℕ × ℕ
atomic_get word = (word, word)

abbrev pub atomic_set : ℕ → ℕ → ℕ × ℕ
atomic_set value word = (value, value)

abbrev pub atomic_exchange : ℕ → ℕ → ℕ × ℕ
atomic_exchange value word = (word, value)

abbrev pub atomic_or : ℕ → ℕ → ℕ × ℕ
atomic_or value word = let result = bit_or word value in (result, result)

abbrev pub atomic_and : ℕ → ℕ → ℕ × ℕ
atomic_and value word = let result = bit_and word value in (result, result)

abbrev pub atomic_xor : ℕ → ℕ → ℕ × ℕ
atomic_xor value word = let result = bit_xor word value in (result, result)

abbrev pub atomic_exchange_or : ℕ → ℕ → ℕ × ℕ
atomic_exchange_or value word = (word, bit_or word value)

abbrev pub atomic_exchange_and : ℕ → ℕ → ℕ × ℕ
atomic_exchange_and value word = (word, bit_and word value)

abbrev pub atomic_exchange_xor : ℕ → ℕ → ℕ × ℕ
atomic_exchange_xor value word = (word, bit_xor word value)

-- The overload without `old`.
pub atomic_compare_exchange : ℕ → ℕ → ℕ → Bool × ℕ
atomic_compare_exchange compare exchange word =
    if word == compare then (true, exchange) else (false, word)

module _ (w : ℕ) where
  pub atomic_add : ℕ → ℕ → ℕ × ℕ
  atomic_add value word = let sum = (word + value) % 2 ^ w in (sum, sum)

  pub atomic_sub : ℕ → ℕ → ℕ × ℕ
  atomic_sub value word =
      let difference = (word + (2 ^ w - value)) % 2 ^ w in (difference, difference)

  pub atomic_increment : ℕ → ℕ × ℕ
  atomic_increment = atomic_add 1

  pub atomic_decrement : ℕ → ℕ × ℕ
  atomic_decrement = atomic_sub 1

  pub atomic_exchange_add : ℕ → ℕ → ℕ × ℕ
  atomic_exchange_add value word = (word, (word + value) % 2 ^ w)

  pub atomic_exchange_sub : ℕ → ℕ → ℕ × ℕ
  atomic_exchange_sub value word = (word, (word + (2 ^ w - value)) % 2 ^ w)
