-- ===== src/Text/Replace.antt =====
-- src/utils/str_utils.cc: the three overloads of `replace`, `toLower` and `toUpper`, with the search of
-- `std::string` that they call; `none` is `npos`. A loop runs on a number of rounds, and its result is
-- `none` when they do not suffice.
pub mod Characters
pub mod Search
pub mod Texts
mod Tests
use cpp_cores.Base.{
  ℕ, zero, suc, ◌+◌, ◌-◌, Bool, true, false, ◌&&◌, List, [], ◌∷◌, ◌++◌, map, Option, none, some,
  leb, if◌then◌else◌, length, take, drop, set,
}
use cpp_cores.Text.Affix.{one_further, matches}

-- `str.find(text, pos)`
pub find : List ℕ → List ℕ → ℕ → Option ℕ
find [] text zero = if matches text [] then some 0 else none
find [] text (suc pos) = none
find (c ∷ str) text zero =
    let further = one_further (find str text 0) in
    if matches text (c ∷ str) then some 0 else further
find (c ∷ str) text (suc pos) = one_further (find str text pos)

-- The overload that puts a character for a character, from an index on. A search for a character is one
-- for the text of that character.
pub replace_char_loop : ℕ → List ℕ → ℕ → ℕ → Option ℕ → Option (List ℕ)
replace_char_loop rounds str c replace_with none = some str
replace_char_loop zero str c replace_with (some index) = none
replace_char_loop (suc rounds) str c replace_with (some index) =
    let str' = set str index replace_with in
    replace_char_loop rounds str' c replace_with (find str' (c ∷ []) (index + 1))

pub replace_char : ℕ → List ℕ → ℕ → ℕ → Option (List ℕ)
replace_char rounds str c replace_with =
    replace_char_loop rounds str c replace_with (find str (c ∷ []) 0)

-- The overload that puts a text for a text, from an index on.
pub replace_loop : ℕ → List ℕ → List ℕ → List ℕ → Option ℕ → Option (List ℕ)
replace_loop rounds str text replace_with none = some str
replace_loop zero str text replace_with (some index) = none
replace_loop (suc rounds) str text replace_with (some index) =
    let str' = take index str ++ (replace_with ++ drop (index + length text) str) in
    replace_loop rounds str' text replace_with (find str' text (index + length replace_with))

pub replace : ℕ → List ℕ → List ℕ → List ℕ → Option (List ℕ)
replace rounds str text replace_with = replace_loop rounds str text replace_with (find str text 0)

-- The overload that puts a text for a character: the same loop, with a text of one character.
pub replace_char_by : ℕ → List ℕ → ℕ → List ℕ → Option (List ℕ)
replace_char_by rounds str c replace_with = replace rounds str (c ∷ []) replace_with

-- `std::tolower` and `std::toupper` in the locale "C".
pub tolower : ℕ → ℕ
tolower c = if leb b'A' c && leb c b'Z' then c + 32 else c

pub toupper : ℕ → ℕ
toupper c = if leb b'a' c && leb c b'z' then c - 32 else c

pub to_lower : List ℕ → List ℕ
to_lower str = map tolower str

pub to_upper : List ℕ → List ℕ
to_upper str = map toupper str
