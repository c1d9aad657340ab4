-- ===== src/File/Stat/Extract.antt =====
-- The extractions from a text whose words stand apart by single spaces.
use cpp_cores.Base.{
  ℕ, ◌≡◌, refl, ap, ◌∙◌, Bool, true, false, List, [], ◌∷◌, ◌++◌, ◌==◌, length, All, arith,
}
use cpp_cores.File.Stream.{Input}
use cpp_cores.Base.Int.{ℤ}
use cpp_cores.File.Stat.{
  is_space, is_digit, skip_space, span, is_empty, in_word, get_word, number, sign, get_number,
  skip_words,
}

abbrev pub input : List ℕ → Input
input s = record { left = s; good = true }

abbrev pub IsWord : List ℕ → Type 0
IsWord w = (is_empty w ≡ false) × All (λ c. is_space c ≡ false) w

abbrev pub IsNumeral : List ℕ → Type 0
IsNumeral w = (is_empty w ≡ false) × All (λ c. is_digit c ≡ true) w

-- The words, each with a space behind it, and the rest.
abbrev pub line : List (List ℕ) → List ℕ → List ℕ
line [] rest = rest
line (w ∷ ws) rest = w ++ 32 ∷ line ws rest

span-All :
    (test : ℕ → Bool) (w rest : List ℕ)
    → All (λ c. test c ≡ true) w
    → test 32 ≡ false
    → span test (w ++ 32 ∷ rest) ≡ (w, 32 ∷ rest)
unfolding span
span-All test [] rest h e = rw e refl
span-All test (c ∷ w) rest (hc, h) e = rw (span-All test w rest h e, hc) refl

in_words : (w : List ℕ) → All (λ c. is_space c ≡ false) w → All (λ c. in_word c ≡ true) w
in_words [] h = tt
in_words (c ∷ w) (hc, h) = (rw hc refl, in_words w h)

space_is_space : is_space 32 ≡ true
unfolding is_space
space_is_space = refl

skip_one : (s : List ℕ) → skip_space (32 ∷ s) ≡ skip_space s
unfolding skip_space
skip_one s = rw space_is_space refl

skip_none : (w rest : List ℕ) → IsWord w → skip_space (w ++ rest) ≡ w ++ rest
unfolding skip_space
skip_none [] rest h = absurd (ground arith)
skip_none (c ∷ w) rest (h, (hc, hs)) = rw hc refl

pub is_empty-append : (w rest : List ℕ) → is_empty w ≡ false → is_empty (w ++ rest) ≡ false
is_empty-append [] rest h = absurd (ground arith)
is_empty-append (c ∷ w) rest h = refl

-- The next word is extracted, and the space behind it stays.
pub get_word_lem :
    (w rest old : List ℕ)
    → IsWord w
    → get_word (input (32 ∷ w ++ 32 ∷ rest)) old ≡ (w, input (32 ∷ rest))
unfolding get_word is_space
get_word_lem w rest old h =
    rw
      (
        skip_one (w ++ 32 ∷ rest),
        skip_none w (32 ∷ rest) h,
        span-All in_word w rest (in_words w h.1) refl,
        is_empty-append w (32 ∷ rest) h.0,
      )
      refl

-- The same at the front of the text.
pub get_word_first :
    (w rest old : List ℕ)
    → IsWord w
    → get_word (input (w ++ 32 ∷ rest)) old ≡ (w, input (32 ∷ rest))
unfolding get_word is_space
get_word_first w rest old h =
    rw
      (
        skip_none w (32 ∷ rest) h,
        span-All in_word w rest (in_words w h.1) refl,
        is_empty-append w (32 ∷ rest) h.0,
      )
      refl

pub skip_words_lem :
    (ws : List (List ℕ)) (rest : List ℕ)
    → All IsWord ws
    → skip_words (length ws) (input (32 ∷ line ws rest)) ≡ input (32 ∷ rest)
unfolding skip_words
skip_words_lem [] rest h = refl
skip_words_lem (w ∷ ws) rest (hw, h) =
    ap (λ (p : List ℕ × Input). skip_words (length ws) p.1) (get_word_lem w (line ws rest) [] hw)
    ∙ skip_words_lem ws rest h

digit_no_space : (c : ℕ) → is_digit c ≡ true → is_space c ≡ false
unfolding is_digit is_space
digit_no_space c h = ground arith

digits_no_space : (w : List ℕ) → All (λ c. is_digit c ≡ true) w → All (λ c. is_space c ≡ false) w
digits_no_space [] h = tt
digits_no_space (c ∷ w) (hc, h) = (digit_no_space c hc, digits_no_space w h)

sign_none : (w rest : List ℕ) → IsNumeral w → sign (w ++ rest) ≡ (false, w ++ rest)
unfolding is_digit
sign_none [] rest h = absurd (ground arith)
sign_none (c ∷ w) rest (h, (hc, hs)) =
    let minus : (c == b'-') ≡ false = ground arith in
    let plus : (c == b'+') ≡ false = ground arith in rw (minus, plus) refl

digit_32 : is_digit 32 ≡ false
unfolding is_digit
digit_32 = refl

-- The next numeral is extracted, if its number is in range.
pub get_number_lem :
    (to : Bool → ℕ → ℤ × Bool) (w rest : List ℕ) (old n : ℤ)
    → IsNumeral w
    → to false (number 0 w) ≡ (n, true)
    → get_number to (input (32 ∷ w ++ 32 ∷ rest)) old ≡ (n, input (32 ∷ rest))
unfolding get_number
get_number_lem to w rest old n h e =
    rw
      (
        skip_one (w ++ 32 ∷ rest),
        skip_none w (32 ∷ rest) (h.0, digits_no_space w h.1),
        sign_none w (32 ∷ rest) h,
        span-All is_digit w rest h.1 digit_32,
        is_empty-append w (32 ∷ rest) h.0,
        h.0,
        e,
      )
      refl

-- A numeral that ends the text.
pub skip-numeral : (w : List ℕ) → IsNumeral w → skip_space w ≡ w
unfolding skip_space
skip-numeral [] h = refl
skip-numeral (c ∷ w) (h, (hc, hs)) = rw (digit_no_space c hc) refl

pub sign-numeral : (w : List ℕ) → IsNumeral w → sign w ≡ (false, w)
unfolding is_digit
sign-numeral [] h = refl
sign-numeral (c ∷ w) (h, (hc, hs)) =
    let minus : (c == b'-') ≡ false = ground arith in
    let plus : (c == b'+') ≡ false = ground arith in rw (minus, plus) refl

pub span-digits : (w : List ℕ) → All (λ c. is_digit c ≡ true) w → span is_digit w ≡ (w, [])
unfolding span
span-digits [] h = refl
span-digits (c ∷ w) (hc, h) = rw (span-digits w h, hc) refl
