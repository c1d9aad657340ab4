-- ===== src/Text/Json/Result.antt =====
-- What `Escape` returns.
use cpp_cores.Base.{
  ℕ, ◌+◌, ◌<◌, ◌≤◌, ◌≡◌, refl, sym, ap, ap₂, ◌∙◌, true, false, not, List, [], ◌∷◌, ◌++◌, ◌==◌,
  if◌then◌else◌, length, replicate, arith, append_assoc, append-nil, length-append,
}
use cpp_cores.Text.Json.{special, need_escape, escaped_size, escape_char, append_escaped, escape}

-- The character that the second half of an escape stands for.
pub unescape_char : ℕ → ℕ
unescape_char e =
    if e == b'f'
    then 12
    else if e == b't'
    then 9
    else if e == b'r'
    then 13
    else if e == b'n'
    then 10
    else if e == b'b'
    then 8
    else e

-- Reading escapes back.
pub unescape : List ℕ → List ℕ
unescape [] = []
unescape (c ∷ []) = c ∷ []
unescape (c ∷ e ∷ s) =
    let escaped = unescape_char e ∷ unescape s in
    let plain = c ∷ unescape (e ∷ s) in if c == b'\\' then escaped else plain

all_escaped : List ℕ → List ℕ
all_escaped [] = []
all_escaped (c ∷ v) = escape_char c ++ all_escaped v

append_escaped_lem : (rt v : List ℕ) → append_escaped rt v ≡ rt ++ all_escaped v
unfolding append_escaped all_escaped
append_escaped_lem rt [] = sym (append-nil rt)
append_escaped_lem rt (c ∷ v) =
    append_escaped_lem (rt ++ escape_char c) v ∙ append_assoc rt (escape_char c) (all_escaped v)

unescape-plain : (c : ℕ) (s : List ℕ) → (c == b'\\') ≡ false → unescape (c ∷ s) ≡ c ∷ unescape s
unfolding unescape
unescape-plain c [] plain = refl
unescape-plain c (e ∷ s) plain = rw plain refl

unescape-escape_char : (c : ℕ) (s : List ℕ) → unescape (escape_char c ++ s) ≡ c ∷ unescape s
unfolding unescape unescape_char escape_char
unescape-escape_char c s = ground (arith, unescape-plain c s)

length-escape_char : (c : ℕ) → length (escape_char c) ≡ (if special c then 2 else 1)
unfolding escape_char special
length-escape_char c = ground arith

size-le : (v : List ℕ) → length v ≤ escaped_size v
unfolding escaped_size
size-le [] = omega arith
size-le (c ∷ v) = ground (arith, size-le v)

size-same : (v : List ℕ) → (escaped_size v == length v) ≡ not (need_escape v)
unfolding escaped_size need_escape
size-same [] = refl
size-same (c ∷ v) = ground (arith, size-same v, size-le v)

unescape-all_escaped : (v : List ℕ) → unescape (all_escaped v) ≡ v
unfolding all_escaped unescape
unescape-all_escaped [] = refl
unescape-all_escaped (c ∷ v) =
    unescape-escape_char c (all_escaped v) ∙ ap (λ t. c ∷ t) (unescape-all_escaped v)

length-all_escaped : (v : List ℕ) → length (all_escaped v) ≡ escaped_size v
unfolding all_escaped escaped_size
length-all_escaped [] = refl
length-all_escaped (c ∷ v) =
    length-append (escape_char c) (all_escaped v)
    ∙ ap₂ ◌+◌ (length-escape_char c) (length-all_escaped v)

-- `Escape` returns a string that needs no escape as it is. Of any other string it returns as many NULs
-- as the escaped text has characters, and then that text, which reads back as the string.
pub escape_lem :
    (v : List ℕ)
    → (need_escape v ≡ false → escape v ≡ v)
      × (need_escape v ≡ true
          → (text : List ℕ) × (escape v ≡ replicate (length text) 0 ++ text)
            × (unescape text ≡ v)
            × (length v < length text))
unfolding escape
escape_lem v = (
  λ none_needed. rw (size-same v, none_needed) refl,
  λ needed.
      let longer : length v < escaped_size v = ground (arith, size-same v, size-le v) in
      let size_of = length-all_escaped v in
      (
        all_escaped v,
        rw (size-same v, needed)
            (append_escaped_lem (replicate (escaped_size v) 0) v
              ∙ ap (λ k. replicate k 0 ++ all_escaped v) (sym size_of)),
        unescape-all_escaped v,
        omega (arith, size_of, longer),
      ),
)
