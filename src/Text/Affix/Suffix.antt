-- ===== src/Text/Affix/Suffix.antt =====
-- Suffixes are found, and removed.
use cpp_cores.Base.{
  ℕ, zero, suc, ◌-◌, ◌<◌, ◌≡◌, refl, sym, ap, ap₂, ◌∙◌, Bool, true, false, List, [], ◌∷◌, ◌++◌,
  Option, none, some, ◌==◌, ltb, length, take, drop, arith, length-append, ==_iff, Bool-cases, ◌⊎◌,
  inl, inr,
}
use cpp_cores.Text.Affix.{matches, or_here, rfind, is_at, end_with_suffix, remove_suffix}

matches_self : (t : List ℕ) → matches t t ≡ true
unfolding matches
matches_self [] = refl
matches_self (c ∷ t) = ground (arith, matches_self t)

-- A text longer than the string is nowhere in it.
pub matches-short : (t s : List ℕ) → length s < length t → matches t s ≡ false
unfolding matches
matches-short [] s h = absurd (omega arith)
matches-short (c ∷ t) [] h = refl
matches-short (c ∷ t) (d ∷ s) h = ground (arith, matches-short t s (omega arith))

rfind-short : (s t : List ℕ) → length s < length t → rfind s t ≡ none
unfolding rfind
rfind-short [] t h = rw (matches-short t [] h) refl
rfind-short (c ∷ s) t h = rw (matches-short t (c ∷ s) h, rfind-short s t (omega arith)) refl

rfind_self : (t : List ℕ) → rfind t t ≡ some 0
unfolding rfind
rfind_self [] = rw (matches_self []) refl
rfind_self (c ∷ t) = rw (matches_self (c ∷ t), rfind-short t (c ∷ t) (omega arith)) refl

rfind-append : (u t : List ℕ) → rfind (u ++ t) t ≡ some (length u)
unfolding rfind
rfind-append [] t = rfind_self t
rfind-append (c ∷ u) t = rw (rfind-append u t) refl

take-append : (u t : List ℕ) → take (length u) (u ++ t) ≡ u
take-append [] t = refl
take-append (c ∷ u) t = ap (λ l. c ∷ l) (take-append u t)

-- A string that ends with the suffix is recognised, and `RemoveSuffix` leaves what stands before it.
pub remove_suffix-append :
    (u t : List ℕ) → (end_with_suffix (u ++ t) t ≡ true) × (remove_suffix (u ++ t) t ≡ u)
unfolding end_with_suffix remove_suffix
remove_suffix-append u t =
    let total = length-append u t in
    let place : length (u ++ t) - length t ≡ length u = omega (arith, total) in
    let long : ltb (length (u ++ t)) (length t) ≡ false = ground (arith, total) in
    let there : (length u == length u) ≡ true = ground arith in
    rw (long, place, rfind-append u t, there) (refl, take-append u t)

matches-eq : (t s : List ℕ) → matches t s ≡ true → length s ≡ length t → s ≡ t
unfolding matches
matches-eq [] [] h e = refl
matches-eq [] (d ∷ s) h e = absurd (omega arith)
matches-eq (c ∷ t) [] h e = absurd (omega arith)
matches-eq (c ∷ t) (d ∷ s) h e =
    let head : (c == d) ≡ true = ground arith in
    let tail : matches t s ≡ true = ground arith in
    ap₂ ◌∷◌ (sym ((==_iff c d).0 head)) (matches-eq t s tail (omega arith))

or_here_sound :
    (here_matches : Bool) (o : Option ℕ) (i : ℕ)
    → or_here here_matches o ≡ some i
    → ((i ≡ 0) × (here_matches ≡ true)) ⊎ ((j : ℕ) × (o ≡ some j) × (i ≡ suc j))
or_here_sound b (some j) i h = inr (j, refl, ground arith)
or_here_sound true none i h = inl (ground arith, refl)
or_here_sound false none i h = absurd (ground arith)

drop-nil : (i : ℕ) → drop {A = ℕ} i [] ≡ []
drop-nil zero = refl
drop-nil (suc i) = refl

rfind_sound : (s t : List ℕ) (i : ℕ) → rfind s t ≡ some i → matches t (drop i s) ≡ true
unfolding rfind
rfind_sound [] t i h = elim (Bool-cases (matches t [])) [
  | inl fits ↦ rw (drop-nil i) fits
  | inr other ↦ absurd (ground arith)
]
rfind_sound (c ∷ s) t i h = elim (or_here_sound (matches t (c ∷ s)) (rfind s t) i h) [
  | inl (zero_, here_matches) ↦ rw zero_ here_matches
  | inr (j, found, next) ↦ rw next (rfind_sound s t j found)
]

take-drop : (i : ℕ) (s : List ℕ) → take i s ++ drop i s ≡ s
take-drop zero s = refl
take-drop (suc i) [] = refl
take-drop (suc i) (c ∷ s) = ap (λ l. c ∷ l) (take-drop i s)

pub length-drop : (i : ℕ) (s : List ℕ) → length (drop i s) ≡ length s - i
length-drop zero s = omega arith
length-drop (suc i) [] = omega arith
length-drop (suc i) (c ∷ s) = omega (arith, length-drop i s)

is_at_sound : (p : ℕ) (o : Option ℕ) → is_at p o ≡ true → o ≡ some p
is_at_sound p none h = absurd (ground arith)
is_at_sound p (some i) h = ground arith

-- A string that `EndWithSuffix` accepts is what `RemoveSuffix` leaves of it, followed by the suffix.
pub append-remove_suffix : (s t : List ℕ) → end_with_suffix s t ≡ true → remove_suffix s t ++ t ≡ s
unfolding end_with_suffix remove_suffix
append-remove_suffix s t h = elim (Bool-cases (ltb (length s) (length t))) [
  | inl short ↦ absurd (ground arith)
  | inr long ↦
      let place : is_at (length s - length t) (rfind s t) ≡ true = ground arith in
      let found = is_at_sound (length s - length t) (rfind s t) place in
      let rest : drop (length s - length t) s ≡ t =
        matches-eq t (drop (length s - length t) s) (rfind_sound s t (length s - length t) found)
          (length-drop (length s - length t) s ∙ ground arith) in
      rw (long, place)
        (ap (λ l. take (length s - length t) s ++ l) (sym rest) ∙ take-drop (length s - length t) s)
]
