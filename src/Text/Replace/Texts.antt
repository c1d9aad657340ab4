-- ===== src/Text/Replace/Texts.antt =====
-- The overloads of `replace` that put in a text: what they return, and that the loop ends unless the text
-- that is searched for is empty.
use cpp_cores.Base.{
  ℕ, zero, suc, ◌+◌, ◌-◌, ◌≤◌, ◌≡◌, refl, sym, ap, ◌∙◌, true, List, [], ◌∷◌, ◌++◌, append_assoc,
  none, some, if◌then◌else◌, leb, length, take, drop, arith, Bool-cases, Option-cases, inl, inr,
  length-append,
}
use cpp_cores.Text.Affix.{one_further, matches}
use cpp_cores.Text.Affix.Suffix.{matches-short, length-drop}
use cpp_cores.Text.Replace.{find, replace_loop, replace}
use cpp_cores.Text.Replace.Search.{
  further, find-skip, take-past, drop-past, length-take, one_further-none, one_further-some,
}

-- The text `f` replaced by `r` wherever it stands, from left to right; `k` characters of a place that was
-- replaced are still to be skipped.
module _ (f r : List ℕ) where
  pub replaced : ℕ → List ℕ → List ℕ
  replaced k [] = []
  replaced (suc k) (c ∷ s) = replaced k s
  replaced zero (c ∷ s) =
      if matches f (c ∷ s) then r ++ replaced (length f - 1) s else c ∷ replaced 0 s

  pub replaced-skip : (k : ℕ) (s : List ℕ) → replaced k s ≡ replaced 0 (drop k s)
  unfolding replaced
  replaced-skip zero s = refl
  replaced-skip (suc k) [] = refl
  replaced-skip (suc k) (c ∷ s) = replaced-skip k s

module _ (g : ℕ) (gs r : List ℕ) where
  abbrev f : List ℕ
  f = g ∷ gs

  replaced-none : (s : List ℕ) → find s f 0 ≡ none → replaced f r 0 s ≡ s
  unfolding find replaced
  replaced-none [] e = refl
  replaced-none (c ∷ s) e = elim (Bool-cases (matches f (c ∷ s))) [
    | inl here ↦ absurd (ground arith)
    | inr other ↦
        let rest : one_further (find s f 0) ≡ none = ground arith in
        rw other (ap (λ l. c ∷ l) (replaced-none s (one_further-none (find s f 0) rest)))
  ]

  matches-le : (s : List ℕ) → matches f s ≡ true → length f ≤ length s
  matches-le s h = elim (Bool-cases (leb (length f) (length s))) [
    | inl le ↦ ground arith
    | inr gt ↦ let short = matches-short f s (ground arith) in cc
  ]

  abbrev Found : List ℕ → ℕ → Type 0
  Found s i =
      (replaced f r 0 s ≡ take i s ++ (r ++ replaced f r 0 (drop (i + length f) s)))
      × (i + length f ≤ length s)

  replaced-some : (s : List ℕ) (i : ℕ) → find s f 0 ≡ some i → Found s i
  unfolding find replaced
  replaced-some [] i e = absurd (unfold matches in (ground arith))
  replaced-some (c ∷ s) i e = elim (Bool-cases (matches f (c ∷ s))) [
    | inl here ↦
        let first : i ≡ 0 = ground arith in
        let fits = matches-le (c ∷ s) here in
        let at : i + length f ≡ suc (length gs) = omega arith in
        let past : drop (i + length f) (c ∷ s) ≡ drop (length gs) s = ap (λ k. drop k (c ∷ s)) at in
        let less : length f - 1 ≡ length gs = omega arith in
        let skip : replaced f r (length f - 1) s ≡ replaced f r 0 (drop (length gs) s) =
          ap (λ k. replaced f r k s) less ∙ replaced-skip f r (length gs) s in
        (rw (here, past, first) (ap (λ l. r ++ l) skip), omega arith)
    | inr other ↦
        let rest : one_further (find s f 0) ≡ some i = ground arith in
        let (j, found, next) = one_further-some (find s f 0) i rest in
        let (ih, fits) = replaced-some s j found in
        let at : i + length f ≡ suc (j + length f) = omega arith in
        let past : drop (i + length f) (c ∷ s) ≡ drop (j + length f) s =
          ap (λ k. drop k (c ∷ s)) at in
        (rw (other, past, next) (ap (λ l. c ∷ l) ih), omega arith)
  ]

  -- One round: what stands at a place is replaced, and the search goes on behind it.
  round :
      (d s : List ℕ) (i : ℕ)
      → i + length f ≤ length s
      → let d' = d ++ (take i s ++ r) in
        let s' = drop (i + length f) s in
        let str' = take (length d + i) (d ++ s) ++ (r ++ drop (length d + i + length f) (d ++ s)) in
        (str' ≡ d' ++ s') × (length d' ≡ length d + i + length r)
  round d s i fits =
      let past : drop (length d + i + length f) (d ++ s) ≡ drop (i + length f) s =
        ap (λ k. drop k (d ++ s)) (omega arith) ∙ drop-past (i + length f) d s in
      (
        simp (take-past i d s, past, append_assoc),
        omega (
          arith,
          length-append d (take i s ++ r),
          length-append (take i s) r,
          length-take i s (omega arith),
        ),
      )

  -- What is before a place is not looked at again: `d` is done, and `s` is left.
  loop_lem :
      (n : ℕ) (d s : List ℕ)
      → length s ≤ n
      → replace_loop n (d ++ s) f r (further (length d) (find s f 0)) ≡ some (d ++ replaced f r 0 s)
  unfolding replace_loop
  loop_lem zero d s h = elim (Option-cases (find s f 0)) [
    | inl none_ ↦ rw (none_, replaced-none s none_) refl
    | inr (i, found) ↦ absurd (omega (arith, (replaced-some s i found).1))
  ]
  loop_lem (suc n) d s h = elim (Option-cases (find s f 0)) [
    | inl none_ ↦ rw (none_, replaced-none s none_) refl
    | inr (i, found) ↦
        let (whole, fits) = replaced-some s i found in
        let d' = d ++ (take i s ++ r) in
        let s' = drop (i + length f) s in
        let (str', at) = round d s i fits in
        let skip : find (d' ++ s') f (length d + i + length r) ≡ further (length d') (find s' f 0) =
          ap (find (d' ++ s') f) (sym at) ∙ find-skip d' s' f in
        let rest = loop_lem n d' s' (omega (arith, length-drop (i + length f) s)) in
        let end_ : d' ++ replaced f r 0 s' ≡ d ++ replaced f r 0 s = simp (whole, append_assoc) in
        let go = λ (x : List ℕ). replace_loop n x f r (find x f (length d + i + length r)) in
        rw found (ap go str' ∙ ap (replace_loop n (d' ++ s') f r) skip ∙ rest ∙ ap some end_)
  ]

-- With a text that is not empty, as many rounds as the string has characters suffice, and the result is
-- the string with the text replaced from left to right wherever it stands; what was put in is not
-- searched.
pub replace_lem :
    (rounds : ℕ) (str : List ℕ) (g : ℕ) (gs replace_with : List ℕ)
    → length str ≤ rounds
    → replace rounds str (g ∷ gs) replace_with ≡ some (replaced (g ∷ gs) replace_with 0 str)
unfolding replace
replace_lem rounds str g gs replace_with h =
    ap (replace_loop rounds str (g ∷ gs) replace_with) (find-skip [] str (g ∷ gs))
    ∙ loop_lem g gs replace_with rounds [] str h

find-empty : (str : List ℕ) (p : ℕ) → p ≤ length str → find str [] p ≡ some p
unfolding find matches
find-empty [] zero h = refl
find-empty [] (suc p) h = absurd (omega arith)
find-empty (c ∷ str) zero h = refl
find-empty (c ∷ str) (suc p) h = ap one_further (find-empty str p (omega arith))

never_ends :
    (rounds : ℕ) (str r : List ℕ) (i : ℕ)
    → i ≤ length str
    → replace_loop rounds str [] r (some i) ≡ none
unfolding replace_loop
never_ends zero str r i h = refl
never_ends (suc rounds) str r i h =
    let str' = take i str ++ (r ++ drop (i + 0) str) in
    let long : i + length r ≤ length str' = omega (
      arith,
      length-append (take i str) (r ++ drop (i + 0) str),
      length-append r (drop (i + 0) str),
      length-take i str h,
    ) in
    ap (replace_loop rounds str' [] r) (find-empty str' (i + length r) long)
    ∙ never_ends rounds str' r (i + length r) long

-- With the empty text the loop does not end, whatever the string is and the text to put in.
pub replace_empty : (rounds : ℕ) (str r : List ℕ) → replace rounds str [] r ≡ none
unfolding replace
replace_empty rounds str r =
    ap (replace_loop rounds str [] r) (find-empty str 0 (omega arith))
    ∙ never_ends rounds str r 0 (omega arith)
