-- ===== src/Text/Split.antt =====
-- src/utils/str_utils.cc: the two overloads of `split`. What `str` holds from the position `last` on is
-- the list that is left, and the search for the next delimiter goes along it. `--max` is on `size_t`.
pub mod Join
mod Tests
use cpp_cores.Base.{
  ℕ, zero, suc, ◌+◌, ◌-◌, ◌%◌, ◌^◌, Bool, true, false, ◌||◌, List, [], ◌∷◌, ◌==◌, if◌then◌else◌,
}

abbrev pub w64 : ℕ
w64 = 2 ^ 64

-- `--max`
abbrev pub less_one : ℕ → ℕ
less_one max = (max + w64 - 1) % w64

-- A character that belongs to the piece that is being read.
abbrev pub prepend : ℕ → List (List ℕ) → List (List ℕ)
prepend c [] = []
prepend c (piece ∷ pieces) = (c ∷ piece) ∷ pieces

module _ (stops : ℕ → Bool) where
  -- The loop, and the last piece after it.
  pub split_loop : ℕ → List ℕ → List (List ℕ)
  split_loop max [] = [] ∷ []
  split_loop max (c ∷ rest) =
      let pieces = split_loop (less_one max) rest in
      let more = split_loop max rest in
      if stops c
      then (if less_one max == 1 then [] ∷ rest ∷ [] else [] ∷ pieces)
      else prepend c more

  pub split_at : List ℕ → ℕ → List (List ℕ)
  split_at [] max = []
  split_at (c ∷ str) max = split_loop max (c ∷ str)

-- The overload for one delimiter.
pub split : List ℕ → ℕ → ℕ → List (List ℕ)
split str delim max = split_at (λ c. c == delim) str max

-- The characters of a C string.
pub one_of : List ℕ → ℕ → Bool
one_of [] c = false
one_of (d ∷ delims) c = let rest = one_of delims c in if d == 0 then false else c == d || rest

-- The overload for a string of delimiters, by `find_first_of`.
pub split_any : List ℕ → List ℕ → ℕ → List (List ℕ)
split_any str delims max = split_at (one_of delims) str max
