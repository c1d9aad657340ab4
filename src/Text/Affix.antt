-- ===== src/Text/Affix.antt =====
-- src/utils/str_utils.cc: `StartWithPrefix`, `RemovePrefix`, `EndWithSuffix` and `RemoveSuffix`, with
-- the searches of `std::string` that they call; `none` is `npos`.
pub mod Suffix
mod Tests
use cpp_cores.Base.{
  ℕ, zero, suc, ◌+◌, ◌-◌, Bool, true, false, ◌&&◌, ◌||◌, List, [], ◌∷◌, Option, none, some, ◌==◌,
  ltb, if◌then◌else◌, length, take, drop,
}

pub member : ℕ → List ℕ → Bool
member c [] = false
member c (d ∷ ds) = c == d || member c ds

abbrev pub one_further : Option ℕ → Option ℕ
one_further none = none
one_further (some i) = some (suc i)

-- The first position of a character of the set.
pub find_first_of : List ℕ → List ℕ → Option ℕ
find_first_of [] set_ = none
find_first_of (c ∷ s) set_ =
    let rest = one_further (find_first_of s set_) in if member c set_ then some 0 else rest

unfoldable pub matches : List ℕ → List ℕ → Bool
matches [] s = true
matches (c ∷ t) [] = false
matches (c ∷ t) (d ∷ s) = c == d && matches t s

abbrev pub or_here : Bool → Option ℕ → Option ℕ
or_here here (some i) = some (suc i)
or_here true none = some 0
or_here false none = none

-- The last position from which the text stands in the string.
pub rfind : List ℕ → List ℕ → Option ℕ
rfind [] t = if matches t [] then some 0 else none
rfind (c ∷ s) t = or_here (matches t (c ∷ s)) (rfind s t)

abbrev pub is_at : ℕ → Option ℕ → Bool
is_at p none = false
is_at p (some i) = i == p

pub start_with_prefix : List ℕ → List ℕ → Bool
start_with_prefix str prefix = is_at 0 (find_first_of str prefix)

-- `substr` throws from a position past the end: the result `none`.
pub remove_prefix : List ℕ → List ℕ → Option (List ℕ)
remove_prefix str prefix =
    if is_at 0 (find_first_of str prefix)
    then (if ltb (length str) (length prefix) then none else some (drop (length prefix) str))
    else some str

pub end_with_suffix : List ℕ → List ℕ → Bool
end_with_suffix str suffix =
    if ltb (length str) (length suffix)
    then false
    else is_at (length str - length suffix) (rfind str suffix)

pub remove_suffix : List ℕ → List ℕ → List ℕ
remove_suffix str suffix =
    if ltb (length str) (length suffix)
    then str
    else if is_at (length str - length suffix) (rfind str suffix)
    then take (length str - length suffix) str
    else str
