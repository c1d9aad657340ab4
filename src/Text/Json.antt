-- ===== src/Text/Json.antt =====
-- src/utils/json_util.cc: `NeedEscape` and `Escape`. A string is the list of its characters.
pub mod Result
mod Tests
use cpp_cores.Base.{
  ℕ, ◌+◌, Bool, true, false, ◌||◌, List, [], ◌∷◌, ◌++◌, ◌==◌, if◌then◌else◌, length, replicate,
}

-- The cases of the `switch`: \f, \t, \r, \n, \b, " and \.
pub special : ℕ → Bool
special c = c == 12 || c == 9 || c == 13 || c == 10 || c == 8 || c == b'"' || c == b'\\'

pub need_escape : List ℕ → Bool
need_escape [] = false
need_escape (c ∷ v) = let rest = need_escape v in if special c then true else rest

-- The first loop of `Escape`.
pub escaped_size : List ℕ → ℕ
escaped_size [] = 0
escaped_size (c ∷ v) = (if special c then 2 else 1) + escaped_size v

-- What the second loop appends for one character.
pub escape_char : ℕ → List ℕ
escape_char c =
    if c == 12
    then b'\\' ∷ b'f' ∷ []
    else if c == 9
    then b'\\' ∷ b't' ∷ []
    else if c == 13
    then b'\\' ∷ b'r' ∷ []
    else if c == 10
    then b'\\' ∷ b'n' ∷ []
    else if c == 8
    then b'\\' ∷ b'b' ∷ []
    else if c == b'"'
    then b'\\' ∷ b'"' ∷ []
    else if c == b'\\'
    then b'\\' ∷ b'\\' ∷ []
    else c ∷ []

-- The second loop of `Escape`.
pub append_escaped : List ℕ → List ℕ → List ℕ
append_escaped rt [] = rt
append_escaped rt (c ∷ v) = append_escaped (rt ++ escape_char c) v

-- `rt.resize(size)` comes before the appends, so they start after that many NULs.
pub escape : List ℕ → List ℕ
escape v =
    let size = escaped_size v in if size == length v then v else append_escaped (replicate size 0) v
