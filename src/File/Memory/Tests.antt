-- ===== src/File/Memory/Tests.antt =====
-- Runs of `GetTotalMemory`, and its theorem at a concrete text.
use cpp_cores.Base.{ℕ, ◌≡◌, refl, List, [], ◌∷◌, some, none, codes}
use cpp_cores.Base.Int.{ℤ, neg}
use cpp_cores.File.Stat.{same, is_space, is_digit, skip_space, span, number, get_word, get_number}
use cpp_cores.File.Memory.{get_total_memory, search_lines, lines_of, total_kb}

cannot_open : get_total_memory (ℤ.pos 5) none ≡ neg 1
unfolding get_total_memory
cannot_open = refl

-- A line that breaks off behind the prefix gives what the variable held.
no_number : get_total_memory (ℤ.pos 5) (some (codes "MemTotal: \n")) ≡ ℤ.pos 5120
unfolding get_total_memory search_lines lines_of total_kb same is_space is_digit skip_space span
    number get_word get_number
no_number = refl

abbrev before : List (List ℕ)
before = codes "MemFree: 1 kB" ∷ []
