-- ===== src/File/Memory.antt =====
-- src/utils/process_util.cc: `GetTotalMemory`, on the text of `/proc/meminfo`, or none when it cannot be
-- opened.
pub mod Total
mod Tests
use cpp_cores.Base.{
  ℕ, Bool, ◌&&◌, List, [], ◌∷◌, Option, none, some, ◌==◌, ltb, if◌then◌else◌, length, take, codes,
}
use cpp_cores.Base.Int.{ℤ, neg, times}
use cpp_cores.File.Stat.{same, to_int64, opened, get_word, get_number}

abbrev pub prefix : List ℕ
prefix = codes "MemTotal:"

-- A character of the line that is being read.
abbrev pub begin_line : ℕ → List (List ℕ) → List (List ℕ)
begin_line c [] = (c ∷ []) ∷ []
begin_line c (line ∷ lines) = (c ∷ line) ∷ lines

-- What `getline` gives, one call after the other.
pub lines_of : List ℕ → List (List ℕ)
lines_of [] = []
lines_of (c ∷ s) = let rest = lines_of s in if c == 10 then [] ∷ rest else begin_line c rest

abbrev pub has_prefix : List ℕ → Bool
has_prefix line = ltb (length prefix) (length line) && same (take (length prefix) line) prefix

-- `total_kb` holds `junk` before it is read.
pub total_kb : ℤ → List ℕ → ℤ
total_kb junk line = let (p, s) = get_word (opened (some line)) [] in (get_number to_int64 s junk).0

pub search_lines : ℤ → List (List ℕ) → ℤ
search_lines junk [] = neg 1
search_lines junk (line ∷ lines) =
    let rest = search_lines junk lines in
    if has_prefix line then times (total_kb junk line) 1024 else rest

pub get_total_memory : ℤ → Option (List ℕ) → ℤ
get_total_memory junk none = neg 1
get_total_memory junk (some text) = search_lines junk (lines_of text)
