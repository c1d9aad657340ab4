-- ===== src/Fiber/Timer/Split.antt =====
-- Which timers are expired: the set is cut where the times pass `now`.
use cpp_cores.Base.{
  mem, ℕ, ◌≡◌, refl, ap, ◌∙◌, ◌<◌, ◌≤◌, Bool, true, false, not, ◌&&◌, ◌||◌, List, [], ◌∷◌, ◌==◌,
  ltb, leb, if◌then◌else◌, arith, All, Bool-cases, inl, inr,
}
use cpp_cores.Fiber.Timer.{Timer, lower_bound, skip_equal, split_expired}
use cpp_cores.Fiber.Timer.Order.{Below, Sorted, before_next}

-- The elements that pass the test, in their order.
unfoldable pub select : (ℕ → Bool) → List ℕ → List ℕ
select test [] = []
select test (p ∷ ps) = let rest = select test ps in if test p then p ∷ rest else rest

-- Whether the timer is due: all are, when the clock has gone back.
abbrev pub is_due : Bool → (ℕ → Timer) → ℕ → ℕ → Bool
is_due rollover f now p = rollover || leb (f p).next now

pub mem-select :
    (test : ℕ → Bool) (l : List ℕ) (q : ℕ) → mem q (select test l) ≡ (mem q l && test q)
unfolding select
mem-select test [] q = refl
mem-select test (p ∷ l) q =
    let ih : mem q (select test l) ≡ (mem q l && test q) = mem-select test l q in
    let move : q ≡ p → test q ≡ test p = λ eq. ap test eq in
    elim (Bool-cases (q == p)) [
      | inl k ↦
          let same : test q ≡ test p = move (ground arith) in
          elim (Bool-cases (test p)) [
            | inl e ↦ let passes : test q ≡ true = same ∙ e in rw (e, k, passes) refl
            | inr e ↦ let fails : test q ≡ false = same ∙ e in rw (e, ih, k, fails) ground arith
          ]
      | inr k ↦ elim (Bool-cases (test p)) [
        | inl e ↦ rw (e, k, ih) refl
        | inr e ↦ rw (e, k, ih) refl
      ]
    ]

pub select_none : (test : ℕ → Bool) (l : List ℕ) → All (λ p. test p ≡ false) l → select test l ≡ []
unfolding select
select_none test [] h = refl
select_none test (p ∷ l) (h, hs) = rw (h, select_none test l hs) refl

pub select-not :
    (test : ℕ → Bool) (l : List ℕ) → All (λ p. test p ≡ false) l → select (λ p. not (test p)) l ≡ l
unfolding select
select-not test [] h = refl
select-not test (p ∷ l) (h, hs) = rw (h, select-not test l hs) refl

pub select_never : (l : List ℕ) → select (λ p. false) l ≡ []
unfolding select
select_never [] = refl
select_never (p ∷ l) = select_never l

pub select_all : (l : List ℕ) → select (λ p. true) l ≡ l
unfolding select
select_all [] = refl
select_all (p ∷ l) = ap (λ x. p ∷ x) (select_all l)

module _ (f : ℕ → Timer) (now : ℕ) where
  abbrev pub due : ℕ → Bool
  due = is_due false f now

  abbrev pub not_due : ℕ → Bool
  not_due p = not (due p)

  pub later-All : (p : ℕ) (l : List ℕ) → now < (f p).next → Below f p l → All (λ q. due q ≡ false) l
  later-All p [] h b = tt
  later-All p (q ∷ l) h (b, bs) =
      let up : (f p).next ≤ (f q).next = before_next f p q b in (ground arith, later-All p l h bs)

  pub from-All :
      (p : ℕ) (l : List ℕ) → now ≤ (f p).next → Below f p l → All (λ q. now ≤ (f q).next) l
  from-All p [] h b = tt
  from-All p (q ∷ l) h (b, bs) =
      let up : (f p).next ≤ (f q).next = before_next f p q b in (ground arith, from-All p l h bs)

  pub skip_equal-select :
      (l : List ℕ)
      → Sorted f l
      → All (λ q. now ≤ (f q).next) l
      → skip_equal f now l ≡ (select due l, select not_due l)
  unfolding skip_equal select
  skip_equal-select [] s h = refl
  skip_equal-select (q ∷ l) (b, s) (h, hs) = elim (Bool-cases ((f q).next == now)) [
    | inl e ↦
        let is : leb (f q).next now ≡ true = ground arith in
        rw (e, is, skip_equal-select l s hs) refl
    | inr e ↦
        let is : leb (f q).next now ≡ false = ground arith in
        let all : All (λ x. due x ≡ false) l = later-All q l (ground arith) b in
        rw (e, is, select_none due l all, select-not due l all) refl
  ]

  -- The search and the walk over the equal ones cut the set where the times pass `now`.
  pub cut-select :
      (probe : ℕ) (l : List ℕ)
      → Sorted f l
      → split_expired false f now probe l ≡ (select due l, select not_due l)
  unfolding split_expired lower_bound select skip_equal
  cut-select probe [] s = refl
  cut-select probe (q ∷ l) (b, s) =
      elim (Bool-cases (ltb (f q).next now || (f q).next == now && ltb q probe)) [
        | inl e ↦
            let is : leb (f q).next now ≡ true = ground arith in
            let ih : split_expired false f now probe l ≡ (select due l, select not_due l) =
              cut-select probe l s in
            rw (e, is) (ap (λ x. (q ∷ x.0, x.1)) ih)
        | inr e ↦
            let le : now ≤ (f q).next = ground arith in
            let rest : All (λ x. now ≤ (f x).next) l = from-All q l le b in
            rw e (skip_equal-select (q ∷ l) (b, s) (le, rest))
      ]

module _ (f : ℕ → Timer) (test : ℕ → Bool) where
  pub Below-select : (p : ℕ) (l : List ℕ) → Below f p l → Below f p (select test l)
  unfolding select
  Below-select p [] h = tt
  Below-select p (q ∷ l) (h, hs) = elim (Bool-cases (test q)) [
    | inl e ↦ rw e (h, Below-select p l hs)
    | inr e ↦ rw e (Below-select p l hs)
  ]

  pub select-Sorted : (l : List ℕ) → Sorted f l → Sorted f (select test l)
  unfolding select
  select-Sorted [] h = tt
  select-Sorted (q ∷ l) (h, hs) = elim (Bool-cases (test q)) [
    | inl e ↦ rw e (Below-select q l h, select-Sorted l hs)
    | inr e ↦ rw e (select-Sorted l hs)
  ]

pub All-select : (P : ℕ → Type 0) (test : ℕ → Bool) (l : List ℕ) → All P l → All P (select test l)
unfolding select
All-select P test [] h = tt
All-select P test (q ∷ l) (h, hs) = elim (Bool-cases (test q)) [
  | inl e ↦ rw e (h, All-select P test l hs)
  | inr e ↦ rw e (All-select P test l hs)
]

pub split_expired-select :
    (rollover : Bool) (f : ℕ → Timer) (now probe : ℕ) (l : List ℕ)
    → Sorted f l
    → split_expired rollover f now probe l
      ≡ (select (is_due rollover f now) l, select (λ p. not (is_due rollover f now p)) l)
unfolding split_expired
split_expired-select true f now probe l s =
    let all : select (λ p. true) l ≡ l = select_all l in
    let never : select (λ p. false) l ≡ [] = select_never l in rw (all, never) refl
split_expired-select false f now probe l s = cut-select f now probe l s
