-- ===== src/File/Memory/Total.antt =====
-- The line of the total is found among the others, and its number read.
use cpp_cores.Base.{
  ℕ, zero, suc, ◌*◌, ◌^◌, ◌<◌, ◌≡◌, refl, ap, ◌∙◌, true, false, List, [], ◌∷◌, ◌++◌, some, ◌==◌,
  replicate, All, arith,
}
use cpp_cores.File.Stream.{Input}
use cpp_cores.Base.Int.{ℤ, times}
use cpp_cores.File.Stat.{same, is_space, skip_space, number, get_number, to_int64}
use cpp_cores.File.Stat.Extract.{input, IsWord, IsNumeral, get_word_first, get_number_lem}
use cpp_cores.File.Memory.{prefix, lines_of, has_prefix, total_kb, search_lines, get_total_memory}

abbrev pub OneLine : List ℕ → Type 0
OneLine = All (λ c. (c == 10) ≡ false)

lines_of-append : (w rest : List ℕ) → OneLine w → lines_of (w ++ 10 ∷ rest) ≡ w ∷ lines_of rest
unfolding lines_of
lines_of-append [] rest h = refl
lines_of-append (c ∷ w) rest (hc, h) = rw (hc, lines_of-append w rest h) refl

-- The lines, each with its end, and the rest.
abbrev pub text : List (List ℕ) → List ℕ → List ℕ
text [] rest = rest
text (w ∷ ws) rest = w ++ 10 ∷ text ws rest

abbrev pub Others : List (List ℕ) → Type 0
Others = All (λ w. OneLine w × (has_prefix w ≡ false))

search-Others :
    (junk : ℤ) (ws : List (List ℕ)) (rest : List ℕ)
    → Others ws
    → search_lines junk (lines_of (text ws rest)) ≡ search_lines junk (lines_of rest)
unfolding search_lines
search-Others junk [] rest h = refl
search-Others junk (w ∷ ws) rest ((one, no_prefix), h) =
    ap (search_lines junk) (lines_of-append w (text ws rest) one)
    ∙ rw no_prefix (search-Others junk ws rest h)

-- Any number of spaces is skipped.
skip_spaces : (n : ℕ) (s : List ℕ) → skip_space (replicate n 32 ++ s) ≡ skip_space s
unfolding skip_space is_space
skip_spaces zero s = refl
skip_spaces (suc n) s = skip_spaces n s

number_spaces :
    (n : ℕ) (s : List ℕ) (old : ℤ)
    → get_number to_int64 (input (32 ∷ replicate n 32 ++ s)) old
      ≡ get_number to_int64 (input (32 ∷ s)) old
unfolding get_number skip_space is_space
number_spaces n s old = rw (skip_spaces n s) refl

-- The line of the total: at least one space, a numeral, and what follows it.
abbrev pub total_line : ℕ → List ℕ → List ℕ → List ℕ
total_line n digits after = prefix ++ (32 ∷ (replicate n 32 ++ (digits ++ 32 ∷ after)))

prefix-IsWord : IsWord prefix
unfolding is_space
prefix-IsWord = ground arith

total_kb_lem :
    (junk : ℤ) (n : ℕ) (digits after : List ℕ)
    → IsNumeral digits
    → number 0 digits < 2 ^ 63
    → total_kb junk (total_line n digits after) ≡ ℤ.pos (number 0 digits)
unfolding total_kb
total_kb_lem junk n digits after h small =
    let rest = replicate n 32 ++ (digits ++ 32 ∷ after) in
    ap (λ (p : List ℕ × Input). (get_number to_int64 p.1 junk).0)
      (get_word_first prefix rest [] prefix-IsWord)
    ∙ ap (λ (p : ℤ × Input). p.0) (number_spaces n (digits ++ 32 ∷ after) junk)
    ∙ ap (λ (p : ℤ × Input). p.0)
        (get_number_lem to_int64 digits after junk (ℤ.pos (number 0 digits)) h (ground arith))

total_line_prefix : (n : ℕ) (digits after : List ℕ) → has_prefix (total_line n digits after) ≡ true
unfolding same
total_line_prefix n digits after = ground arith

-- If the first line that is longer than "MemTotal:" and begins with it goes on with spaces, a numeral and
-- another space, the result is the number times 1024, whatever the lines before and after are.
pub get_total_memory_lem :
    (junk : ℤ) (others : List (List ℕ)) (n : ℕ) (digits after rest : List ℕ)
    → Others others
    → IsNumeral digits
    → number 0 digits < 2 ^ 63
    → OneLine (total_line n digits after)
    → get_total_memory junk (some (text others (total_line n digits after ++ 10 ∷ rest)))
      ≡ ℤ.pos (number 0 digits * 1024)
unfolding get_total_memory search_lines
get_total_memory_lem junk others n digits after rest h numeral small one =
    let line = total_line n digits after in
    search-Others junk others (line ++ 10 ∷ rest) h
    ∙ ap (search_lines junk) (lines_of-append line rest one)
    ∙ rw (total_line_prefix n digits after)
        (ap (λ z. times z 1024) (total_kb_lem junk n digits after numeral small))
