-- ===== src/Text/Replace/Characters.antt =====
-- The overload of `replace` that puts a character for a character, and the conversions of letters.
use cpp_cores.Base.{
  ℕ, zero, suc, ◌+◌, ◌<◌, ◌≤◌, ◌≡◌, refl, sym, ap, ap₂, ◌∙◌, List, [], ◌∷◌, ◌++◌, map, append_assoc,
  none, some, ◌==◌, if◌then◌else◌, length, take, drop, set, arith, Bool-cases, Option-cases, inl,
  inr, length-append,
}
use cpp_cores.Text.Affix.{one_further, matches}
use cpp_cores.Text.Affix.Suffix.{length-drop}
use cpp_cores.Text.Replace.{
  find, replace_char_loop, replace_char, tolower, toupper, to_lower, to_upper,
}
use cpp_cores.Text.Replace.Search.{
  further, find-skip, length-take, one_further-none, one_further-some,
}

set-past : (i w : ℕ) (d s : List ℕ) → set (d ++ s) (length d + i) w ≡ d ++ set s i w
set-past i w [] s = ap (λ k. set s k w) (omega arith)
set-past i w (c ∷ d) s =
    let one_more : suc (length d) + i ≡ suc (length d + i) = omega arith in
    ap (λ k. set (c ∷ d ++ s) k w) one_more ∙ ap (λ l. c ∷ l) (set-past i w d s)

set-take-drop : (i w : ℕ) (s : List ℕ) → i < length s → set s i w ≡ take i s ++ (w ∷ drop (suc i) s)
set-take-drop i w [] h = absurd (omega arith)
set-take-drop zero w (c ∷ s) h = refl
set-take-drop (suc i) w (c ∷ s) h = ap (λ l. c ∷ l) (set-take-drop i w s (omega arith))

module _ (c w : ℕ) where
  -- What a character becomes.
  abbrev pub exchanged : ℕ → ℕ
  exchanged d = if d == c then w else d

  map-none : (s : List ℕ) → find s (c ∷ []) 0 ≡ none → map exchanged s ≡ s
  unfolding find matches
  map-none [] e = refl
  map-none (d ∷ s) e =
      let rest : one_further (find s (c ∷ []) 0) ≡ none = ground arith in
      let head : exchanged d ≡ d = ground arith in
      ap₂ ◌∷◌ head (map-none s (one_further-none (find s (c ∷ []) 0) rest))

  abbrev Found : List ℕ → ℕ → Type 0
  Found s i = (map exchanged s ≡ take i s ++ (w ∷ map exchanged (drop (suc i) s))) × (i < length s)

  map-some : (s : List ℕ) (i : ℕ) → find s (c ∷ []) 0 ≡ some i → Found s i
  unfolding find matches
  map-some [] i e = absurd (ground arith)
  map-some (d ∷ s) i e = elim (Bool-cases (c == d)) [
    | inl here ↦
        let first : i ≡ 0 = ground arith in
        let head : exchanged d ≡ w = ground arith in
        (rw first (ap (λ x. x ∷ map exchanged s) head), omega arith)
    | inr other ↦
        let rest : one_further (find s (c ∷ []) 0) ≡ some i = ground arith in
        let (j, found, next) = one_further-some (find s (c ∷ []) 0) i rest in
        let (ih, fits) = map-some s j found in
        let head : exchanged d ≡ d = ground arith in (rw next (ap₂ ◌∷◌ head ih), omega arith)
  ]

  round :
      (d s : List ℕ) (i : ℕ)
      → i < length s
      → (set (d ++ s) (length d + i) w ≡ (d ++ (take i s ++ w ∷ [])) ++ drop (suc i) s)
        × (length (d ++ (take i s ++ w ∷ [])) ≡ length d + i + 1)
  round d s i fits = (
    simp (set-past i w d s, set-take-drop i w s fits, append_assoc),
    omega (
      arith,
      length-append d (take i s ++ w ∷ []),
      length-append (take i s) (w ∷ []),
      length-take i s (omega arith),
    ),
  )

  loop_lem :
      (n : ℕ) (d s : List ℕ)
      → length s ≤ n
      → replace_char_loop n (d ++ s) c w (further (length d) (find s (c ∷ []) 0))
        ≡ some (d ++ map exchanged s)
  unfolding replace_char_loop
  loop_lem zero d s h = elim (Option-cases (find s (c ∷ []) 0)) [
    | inl none_ ↦ rw (none_, map-none s none_) refl
    | inr (i, found) ↦ absurd (omega (arith, (map-some s i found).1))
  ]
  loop_lem (suc n) d s h = elim (Option-cases (find s (c ∷ []) 0)) [
    | inl none_ ↦ rw (none_, map-none s none_) refl
    | inr (i, found) ↦
        let (whole, fits) = map-some s i found in
        let d' = d ++ (take i s ++ w ∷ []) in
        let s' = drop (suc i) s in
        let (str', at) = round d s i fits in
        let skip : find (d' ++ s') (c ∷ []) (length d + i + 1)
            ≡ further (length d') (find s' (c ∷ []) 0) =
          ap (find (d' ++ s') (c ∷ [])) (sym at) ∙ find-skip d' s' (c ∷ []) in
        let rest = loop_lem n d' s' (omega (arith, length-drop (suc i) s)) in
        let end_ : d' ++ map exchanged s' ≡ d ++ map exchanged s = simp (whole, append_assoc) in
        let go = λ (x : List ℕ). replace_char_loop n x c w (find x (c ∷ []) (length d + i + 1)) in
        rw found (ap go str' ∙ ap (replace_char_loop n (d' ++ s') c w) skip ∙ rest ∙ ap some end_)
  ]

-- As many rounds as the string has characters suffice, and the result is the string with each
-- occurrence of the character exchanged.
pub replace_char_lem :
    (rounds : ℕ) (str : List ℕ) (c w : ℕ)
    → length str ≤ rounds
    → replace_char rounds str c w ≡ some (map (exchanged c w) str)
unfolding replace_char
replace_char_lem rounds str c w h =
    ap (replace_char_loop rounds str c w) (find-skip [] str (c ∷ [])) ∙ loop_lem c w rounds [] str h

tolower_idem : (c : ℕ) → tolower (tolower c) ≡ tolower c
unfolding tolower
tolower_idem c = ground arith

tolower-toupper : (c : ℕ) → tolower (toupper c) ≡ tolower c
unfolding tolower toupper
tolower-toupper c = ground arith

-- `toLower` undoes `toUpper` up to the case of letters, and nothing more happens the second time.
pub to_lower-to_upper :
    (s : List ℕ) → (to_lower (to_upper s) ≡ to_lower s) × (to_lower (to_lower s) ≡ to_lower s)
unfolding to_lower to_upper
to_lower-to_upper [] = (refl, refl)
to_lower-to_upper (c ∷ s) =
    let (upper, lower) = to_lower-to_upper s in
    (ap₂ ◌∷◌ (tolower-toupper c) upper, ap₂ ◌∷◌ (tolower_idem c) lower)
