-- ===== src/Text/Replace/Search.antt =====
-- `find` along a string: past a part that is skipped, and to the first place where the text stands.
use cpp_cores.Base.{
  ℕ, zero, suc, ◌+◌, ◌≤◌, ◌≡◌, refl, ap, ◌∙◌, List, [], ◌∷◌, ◌++◌, Option, none, some, length, take,
  drop, arith,
}
use cpp_cores.Text.Affix.{one_further}
use cpp_cores.Text.Replace.{find}

-- A position after `n` more characters.
abbrev pub further : ℕ → Option ℕ → Option ℕ
further n none = none
further n (some i) = some (n + i)

further-suc : (n : ℕ) (o : Option ℕ) → one_further (further n o) ≡ further (suc n) o
further-suc n none = refl
further-suc n (some i) = ap some (omega arith)

further-zero : (o : Option ℕ) → o ≡ further 0 o
further-zero none = refl
further-zero (some i) = ap some (omega arith)

pub find-skip : (d s t : List ℕ) → find (d ++ s) t (length d) ≡ further (length d) (find s t 0)
unfolding find
find-skip [] s t = further-zero (find s t 0)
find-skip (c ∷ d) s t = ap one_further (find-skip d s t) ∙ further-suc (length d) (find s t 0)

pub take-past : (i : ℕ) (d s : List ℕ) → take (length d + i) (d ++ s) ≡ d ++ take i s
take-past i [] s = ap (λ k. take k s) (omega arith)
take-past i (c ∷ d) s =
    let one_more : suc (length d) + i ≡ suc (length d + i) = omega arith in
    ap (λ k. take k (c ∷ d ++ s)) one_more ∙ ap (λ l. c ∷ l) (take-past i d s)

pub drop-past : (i : ℕ) (d s : List ℕ) → drop (length d + i) (d ++ s) ≡ drop i s
drop-past i [] s = ap (λ k. drop k s) (omega arith)
drop-past i (c ∷ d) s =
    let one_more : suc (length d) + i ≡ suc (length d + i) = omega arith in
    ap (λ k. drop k (c ∷ d ++ s)) one_more ∙ drop-past i d s

pub length-take : (i : ℕ) (s : List ℕ) → i ≤ length s → length (take i s) ≡ i
length-take zero s h = refl
length-take (suc i) [] h = absurd (omega arith)
length-take (suc i) (c ∷ s) h = ap suc (length-take i s (omega arith))

-- What `one_further` comes from.
pub one_further-none : (o : Option ℕ) → one_further o ≡ none → o ≡ none
one_further-none none e = refl
one_further-none (some i) e = cc

pub one_further-some :
    (o : Option ℕ) (i : ℕ) → one_further o ≡ some i → (j : ℕ) × (o ≡ some j) × (i ≡ suc j)
one_further-some none i e = cc
one_further-some (some j) i e = (j, refl, ground arith)
