-- ===== src/Atomic/Compare/Winners.antt =====
-- Where every call exchanges for a larger value, a value is exchanged by one call only.
use cpp_cores.Base.{
  ℕ, ◌<◌, ◌≤◌, ◌≡◌, refl, sym, ap, ◌∙◌, ◌≢◌, ◌⊎◌, inl, inr, Bool, true, false, arith, ℕ_discrete,
  ◌==◌, Bool-cases,
}
use cpp_cores.Atomic.{atomic_compare_exchange}
use cpp_cores.Atomic.Compare.{
  Phase, System, apply, exchanged, load, try_exchange, use_result, Reach, here, later, start,
}
use cpp_cores.Lock.Exclusive.{update, update_other}
use mathlib.Core.Logic.{if_pos}
use mathlib.Core.Path.{subst}

abbrev won : Phase → Bool
won (Phase.returned ok old) = ok
won _ = false

abbrev result : Phase → ℕ
result (Phase.returned ok old) = old
result _ = 0

exchanged-cases :
    (compare exchange old word : ℕ)
    → ((word ≡ compare)
        × (exchanged compare exchange old word ≡ (Phase.returned true compare, exchange)))
      ⊎ (exchanged compare exchange old word ≡ (Phase.returned false old, word))
unfolding exchanged atomic_compare_exchange
exchanged-cases compare exchange old word = elim (Bool-cases (word == compare)) [
  | inl same ↦ inl (ground arith, rw same refl)
  | inr ne ↦ inr (rw ne refl)
]

module _ (Called : ℕ → ℕ → Type 0) where
  -- The phases that can stand beside a word: a call that has not exchanged is one that the program makes,
  -- and a value that a call has exchanged is below the word.
  abbrev Good : ℕ → Phase → Type 0
  Good now Phase.idle = 0 ≤ now
  Good now (Phase.loaded compare exchange old) = Called compare exchange
  Good now (Phase.returned true old) = old < now
  Good now (Phase.returned false old) = 0 ≤ now

  Good-mono : (now now' : ℕ) (p : Phase) → now ≤ now' → Good now p → Good now' p
  Good-mono now now' Phase.idle h g = omega arith
  Good-mono now now' (Phase.loaded compare exchange old) h g = g
  Good-mono now now' (Phase.returned true old) h g = omega arith
  Good-mono now now' (Phase.returned false old) h g = omega arith

  -- A result that is new is not below the word that the exchange found.
  abbrev Fresh : ℕ → Phase → Type 0
  Fresh now p = (c : ℕ) → p ≡ Phase.returned true c → now ≤ c

  abbrev Valid : System → Type 0
  Valid s =
      ((k : ℕ) → Good s.word (s.threads k))
      × ((k l c : ℕ)
          → s.threads k ≡ Phase.returned true c
          → s.threads l ≡ Phase.returned true c
          → k ≡ l)

  winner-below : (now : ℕ) (p : Phase) (c : ℕ) → Good now p → p ≡ Phase.returned true c → c < now
  winner-below now p c g e = subst (Good now) e g

  module _ (s : System) (i now' : ℕ) (p : Phase) (fresh : Fresh s.word p) (valid : Valid s) where
    abbrev threads' : ℕ → Phase
    threads' = update s.threads i p

    before :
        (k c : ℕ) → i ≢ k → threads' k ≡ Phase.returned true c → s.threads k ≡ Phase.returned true c
    before k c ne at = sym (update_other s.threads i k p ne) ∙ at

    -- The new result is not one of the old ones.
    new_differs :
        (k l c : ℕ)
        → i ≡ k
        → i ≢ l
        → threads' k ≡ Phase.returned true c
        → ¬ (threads' l ≡ Phase.returned true c)
    new_differs k l c same ne at_k at_l =
        let old = winner-below s.word (s.threads l) c (valid.0 l) (before l c ne at_l) in
        let new = fresh c (sym (if_pos (ℕ_discrete i k) same p (s.threads k)) ∙ at_k) in omega arith

    moved-distinct :
        (k l c : ℕ)
        → threads' k ≡ Phase.returned true c
        → threads' l ≡ Phase.returned true c
        → k ≡ l
    moved-distinct k l c at_k at_l = elim (ℕ_discrete i k) [
      | yes same ↦ elim (ℕ_discrete i l) [
        | yes same' ↦ sym same ∙ same'
        | no ne ↦ absurd (new_differs k l c same ne at_k at_l)
      ]
      | no ne ↦ elim (ℕ_discrete i l) [
        | yes same ↦ absurd (new_differs l k c same ne at_l at_k)
        | no ne' ↦ valid.1 k l c (before k c ne at_k) (before l c ne' at_l)
      ]
    ]

    moved : s.word ≤ now' → Good now' p → Valid (record { word = now'; threads = threads' })
    moved up g = (
      λ k. elim (ℕ_discrete i k) [
        | yes same ↦ rw (if_pos (ℕ_discrete i k) same p (s.threads k)) g
        | no ne ↦
            rw (update_other s.threads i k p ne)
              (Good-mono s.word now' (s.threads k) up (valid.0 k))
      ],
      moved-distinct,
    )

  Fresh-unless_won : (now : ℕ) (p : Phase) → won p ≡ false → Fresh now p
  Fresh-unless_won now p lost c e =
      let clash : true ≡ false = sym (ap won e) ∙ lost in absurd (ground arith)

  Fresh-winner : (now c : ℕ) → now ≡ c → Fresh now (Phase.returned true c)
  Fresh-winner now c same c' e = let value = ap result e in omega arith

  module _ (rises : (compare exchange : ℕ) → Called compare exchange → compare < exchange) where
    exchange-Valid :
        (s : System) (i compare exchange old : ℕ)
        → s.threads i ≡ Phase.loaded compare exchange old
        → Valid s
        → Valid (apply s i (exchanged compare exchange old s.word))
    exchange-Valid s i compare exchange old at v =
        let g = subst (Good s.word) at (v.0 i) in
        let lost = Fresh-unless_won s.word (Phase.returned false old) refl in
        elim (exchanged-cases compare exchange old s.word) [
          | inl (same, e) ↦
              let up = rises compare exchange g in
              let fresh = Fresh-winner s.word compare same in
              subst (λ x. Valid (apply s i x)) (sym e)
                (moved s i exchange (Phase.returned true compare) fresh v (omega arith) up)
          | inr e ↦
              subst (λ x. Valid (apply s i x)) (sym e)
                (moved s i s.word (Phase.returned false old) lost v (omega arith) (omega arith))
        ]

    Reach-Valid : (first : ℕ) {s : System} → Reach Called (start first) s → Valid s
    unfolding start
    Reach-Valid first here = (
      λ k. omega arith,
      λ k l c at_k at_l. let clash : false ≡ true = ap won at_k in absurd (ground arith),
    )
    Reach-Valid first (later {t} r (load i compare exchange at called)) =
        let p = Phase.loaded compare exchange t.word in
        moved t i t.word p (Fresh-unless_won t.word p refl) (Reach-Valid first r) (omega arith)
          called
    Reach-Valid first (later {t} r (try_exchange i compare exchange old at)) =
        exchange-Valid t i compare exchange old at (Reach-Valid first r)
    Reach-Valid first (later {t} r (use_result i ok old at)) =
        let fresh = Fresh-unless_won t.word Phase.idle refl in
        moved t i t.word Phase.idle fresh (Reach-Valid first r) (omega arith) (omega arith)

    -- Where every call of `AtomicCompareExchange` exchanges for a larger value, two threads whose calls
    -- have returned true with the same `*old` are the same thread, and the word is above that value.
    pub winners_differ :
        (first : ℕ) {s : System}
        → Reach Called (start first) s
        → (i j old : ℕ) → s.threads i ≡ Phase.returned true old
        → s.threads j ≡ Phase.returned true old
        → (i ≡ j) × (old < s.word)
    winners_differ first {s} r i j old at_i at_j =
        let v = Reach-Valid first r in (v.1 i j old at_i at_j, subst (Good s.word) at_i (v.0 i))
