-- ===== src/Lock/Exclusive.antt =====
-- At most one thread owns a lock: the threads as a function of their number, and how a move of one of
-- them changes who owns it.
use cpp_cores.Base.{
  ℕ, ◌≡◌, refl, sym, ap, ◌∙◌, ◌≢◌, ◌⊎◌, inl, inr, Bool, true, false, ℕ_discrete, arith, Bool-cases,
}
use mathlib.Core.Logic.{ite, if_pos, if_neg}

module _ {A : Type 0} where
  abbrev pub update : (ℕ → A) → ℕ → A → ℕ → A
  update f i a j = ite (ℕ_discrete i j) a (f j)

  pub update_self : (f : ℕ → A) (i : ℕ) (a : A) → update f i a i ≡ a
  update_self f i a = if_pos (ℕ_discrete i i) refl a (f i)

  pub update_other : (f : ℕ → A) (i j : ℕ) (a : A) → i ≢ j → update f i a j ≡ f j
  update_other f i j a ne = if_neg (ℕ_discrete i j) ne a (f j)

module _ {A : Type 0} (test : A → Bool) where
  -- A test of the thread that moved, or of another one.
  pub update-cases :
      (f : ℕ → A) (i : ℕ) (a : A) (j : ℕ)
      → ((i ≡ j) × (test (update f i a j) ≡ test a))
        ⊎ ((i ≢ j) × (test (update f i a j) ≡ test (f j)))
  update-cases f i a j = elim (ℕ_discrete i j) [
    | yes same ↦ inl (same, ap test (if_pos (ℕ_discrete i j) same a (f j)))
    | no ne ↦ inr (ne, ap test (update_other f i j a ne))
  ]

  -- No thread passes the test.
  abbrev pub Nobody : (ℕ → A) → Type 0
  Nobody f = (i : ℕ) → test (f i) ≡ false

  -- Exactly one thread passes the test.
  abbrev pub OneOnly : (ℕ → A) → Type 0
  OneOnly f = (i : ℕ) × (test (f i) ≡ true) × ((j : ℕ) → test (f j) ≡ true → j ≡ i)

  pub Nobody-update :
      (f : ℕ → A) (i : ℕ) (a : A) → Nobody f → test a ≡ false → Nobody (update f i a)
  Nobody-update f i a none_of h j = elim (update-cases f i a j) [
    | inl (same, e) ↦ e ∙ h
    | inr (ne, e) ↦ e ∙ none_of j
  ]

  pub OneOnly-acquire :
      (f : ℕ → A) (i : ℕ) (a : A) → Nobody f → test a ≡ true → OneOnly (update f i a)
  OneOnly-acquire f i a none_of h = (
    i,
    ap test (update_self f i a) ∙ h,
    λ j e'. elim (update-cases f i a j) [
      | inl (same, e) ↦ sym same
      | inr (ne, e) ↦ let clash : true ≡ false = sym e' ∙ e ∙ none_of j in absurd (ground arith)
    ],
  )

  pub OneOnly-update :
      (f : ℕ → A) (i : ℕ) (a : A)
      → OneOnly f
      → test (f i) ≡ false
      → test a ≡ false
      → OneOnly (update f i a)
  OneOnly-update f i a (k, at, only) before after =
      let apart : i ≢ k = λ same.
        let clash : false ≡ true = sym before ∙ ap (λ t. test (f t)) same ∙ at in
        absurd (ground arith) in
      (
        k,
        ap test (update_other f i k a apart) ∙ at,
        λ j e'. elim (update-cases f i a j) [
          | inl (same, e) ↦ let clash : true ≡ false = sym e' ∙ e ∙ after in absurd (ground arith)
          | inr (ne, e) ↦ only j (sym e ∙ e')
        ],
      )

  pub Nobody-release :
      (f : ℕ → A) (i : ℕ) (a : A)
      → OneOnly f
      → test (f i) ≡ true
      → test a ≡ false
      → Nobody (update f i a)
  Nobody-release f i a (k, at, only) before after j = elim (update-cases f i a j) [
    | inl (same, e) ↦ e ∙ after
    | inr (ne, e) ↦ e ∙ elim (Bool-cases (test (f j))) [
      | inl owned ↦ absurd (ne (only i before ∙ sym (only j owned)))
      | inr free ↦ free
    ]
  ]
