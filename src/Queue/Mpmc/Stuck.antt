-- ===== src/Queue/Mpmc/Stuck.antt =====
-- Why the queue does not work: `push` never returns, and `pop` never comes to a second revolution.
use cpp_cores.Base.{
  ℕ, zero, suc, ◌/◌, ◌%◌, ◌≤◌, ◌<◌, ◌≡◌, ◌≢◌, refl, ◌∙◌, Bool, false, not, ◌&&◌, List, [], ◌∷◌,
  none, some, ◌==◌, ltb, get_or, set, arith, Bool-cases, inl, inr,
}
use native.Mathlib.Nat.{div-eq-sub-div}
use cpp_cores.Queue.Mpmc.{Slot, Mpmc, fresh, slot_at, store, push_loop, push, pop_loop, pop}

-- The counter of pops in each slot.
abbrev pub pop_count_at : Mpmc → ℕ → ℕ
pop_count_at q i = (slot_at q i).pop_count

-- A write that keeps the counter of its slot keeps the counters of all slots.
set-pop_count :
    (slots : List Slot) (i j : ℕ) (s : Slot)
    → s.pop_count ≡ (get_or slots i fresh).pop_count
    → (get_or (set slots i s) j fresh).pop_count ≡ (get_or slots j fresh).pop_count
set-pop_count [] i j s h = refl
set-pop_count (x ∷ xs) zero zero s h = h
set-pop_count (x ∷ xs) zero (suc j) s h = refl
set-pop_count (x ∷ xs) (suc i) zero s h = refl
set-pop_count (x ∷ xs) (suc i) (suc j) s h = set-pop_count xs i j s h

module _ (n : ℕ) (spurious : ℕ → Bool) where
  push_loop-none :
      (rounds w_count : ℕ) (q : Mpmc) (element : ℕ)
      → (push_loop n spurious rounds w_count q element).0 ≡ none
  unfolding push_loop
  push_loop-none zero w_count q element = refl
  push_loop-none (suc rounds) w_count q element =
      let count = (slot_at q (w_count % n)).push_count in
      let never : ltb count count ≡ false = ground arith in
      rw never
        (elim (Bool-cases
          (w_count / n == count && (q.w_count == w_count && not (spurious rounds)))) [
            | inl won ↦
                rw won
                  (push_loop-none rounds w_count (store n spurious q w_count count element) element)
            | inr lost ↦ rw lost (push_loop-none rounds q.w_count q element)
          ])

  -- A `push` that runs alone has not returned after any number of rounds, from any queue.
  pub push_never_returns :
      (rounds : ℕ) (q : Mpmc) (element : ℕ) → (push n spurious rounds q element).0 ≡ none
  unfolding push
  push_never_returns rounds q element = push_loop-none rounds q.w_count q element

  -- No round changes the counter of pops of any slot.
  push_loop-pop_count :
      (rounds w_count : ℕ) (q : Mpmc) (element j : ℕ)
      → pop_count_at (push_loop n spurious rounds w_count q element).1 j ≡ pop_count_at q j
  unfolding push_loop
  push_loop-pop_count zero w_count q element j = refl
  push_loop-pop_count (suc rounds) w_count q element j =
      let count = (slot_at q (w_count % n)).push_count in
      let never : ltb count count ≡ false = ground arith in
      rw never
        (elim (Bool-cases
          (w_count / n == count && (q.w_count == w_count && not (spurious rounds)))) [
            | inl won ↦ rw won (
                push_loop-pop_count rounds w_count (store n spurious q w_count count element)
                  element j
                ∙ set-pop_count q.slots (w_count % n) j _ refl)
            | inr lost ↦ rw lost (push_loop-pop_count rounds q.w_count q element j)
          ])

  pop_loop-pop_count :
      (rounds r_count : ℕ) (q : Mpmc) (j : ℕ)
      → pop_count_at (pop_loop n spurious rounds r_count q).1 j ≡ pop_count_at q j
  unfolding pop_loop
  pop_loop-pop_count zero r_count q j = refl
  pop_loop-pop_count (suc rounds) r_count q j =
      let slot = slot_at q (r_count % n) in
      elim (Bool-cases (slot.pop_count == slot.push_count)) [
        | inl empty ↦ rw empty refl
        | inr left ↦
            elim (Bool-cases
              (r_count / n == slot.pop_count && (q.r_count == r_count && not (spurious rounds)))) [
                | inl won ↦ rw (left, won) (set-pop_count q.slots (r_count % n) j _ refl)
                | inr lost ↦ rw (left, lost) (pop_loop-pop_count rounds q.r_count q j)
              ]
      ]

  -- Neither a `push` nor a `pop` changes the counter of pops of any slot, so every revolution after the
  -- first looks as if nothing had been removed.
  pub pop_count_never_moves :
      (rounds : ℕ) (q : Mpmc) (element j : ℕ)
      → (pop_count_at (push n spurious rounds q element).1 j ≡ pop_count_at q j)
        × (pop_count_at (pop n spurious rounds q).1 j ≡ pop_count_at q j)
  unfolding push pop
  pop_count_never_moves rounds q element j =
      (push_loop-pop_count rounds q.w_count q element j, pop_loop-pop_count rounds q.r_count q j)

  pop_loop-not_some :
      (rounds : ℕ) (q : Mpmc)
      → 0 < n
      → n ≤ q.r_count
      → ((i : ℕ) → pop_count_at q i ≡ 0)
      → (e : ℕ) → (pop_loop n spurious rounds q.r_count q).0 ≢ some (some e)
  unfolding pop_loop
  pop_loop-not_some zero q positive far counts e = λ h. ground arith
  pop_loop-not_some (suc rounds) q positive far counts e =
      let slot = slot_at q (q.r_count % n) in
      let unmoved : slot.pop_count ≡ 0 = counts (q.r_count % n) in
      let later_turn : (q.r_count / n == slot.pop_count) ≡ false =
        ground (arith, div-eq-sub-div {m = n} {n = q.r_count} positive far) in
      elim (Bool-cases (slot.pop_count == slot.push_count)) [
        | inl empty ↦ rw empty (λ h. ground arith)
        | inr left ↦ rw (left, later_turn) (pop_loop-not_some rounds q positive far counts e)
      ]

  -- From a queue of N > 0 slots whose read counter is at least N and whose counters of pops are all 0, a
  -- `pop` that runs alone never returns true, however many rounds it makes.
  pub pop_first_revolution_only :
      (rounds : ℕ) (q : Mpmc)
      → 0 < n
      → n ≤ q.r_count
      → ((i : ℕ) → pop_count_at q i ≡ 0)
      → (e : ℕ) → (pop n spurious rounds q).0 ≢ some (some e)
  unfolding pop
  pop_first_revolution_only = pop_loop-not_some
