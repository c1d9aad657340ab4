-- ===== src/Atomic/Sum.antt =====
-- Additions and subtractions on one word, by any number of threads. Each is one access, so the calls of
-- all threads take effect in some order.
use cpp_cores.Base.{ℕ, ◌+◌, ◌-◌, ◌%◌, ◌^◌, ◌<◌, ◌≡◌, refl, sym, ap, ◌∙◌, List, [], ◌∷◌, arith}
use cpp_cores.Atomic.{
  atomic_add, atomic_sub, atomic_increment, atomic_decrement, atomic_exchange_add,
  atomic_exchange_sub,
}
use native.Mathlib.Nat.{mod-add-mod, add-mod_right}

pub data Call : Type 0 where
  add : ℕ → Call
  sub : ℕ → Call
  increment : Call
  decrement : Call
  exchange_add : ℕ → Call
  exchange_sub : ℕ → Call

module _ (w : ℕ) where
  abbrev pub access : Call → ℕ → ℕ × ℕ
  access (Call.add value) = atomic_add w value
  access (Call.sub value) = atomic_sub w value
  access Call.increment = atomic_increment w
  access Call.decrement = atomic_decrement w
  access (Call.exchange_add value) = atomic_exchange_add w value
  access (Call.exchange_sub value) = atomic_exchange_sub w value

  -- The word after the calls.
  abbrev pub after : List Call → ℕ → ℕ
  after [] word = word
  after (c ∷ cs) word = after cs (access c word).1

  -- The arguments are values of `T`.
  abbrev pub Fits : Call → Type 0
  Fits (Call.add value) = value < 2 ^ w
  Fits (Call.sub value) = value < 2 ^ w
  Fits Call.increment = 1 < 2 ^ w
  Fits Call.decrement = 1 < 2 ^ w
  Fits (Call.exchange_add value) = value < 2 ^ w
  Fits (Call.exchange_sub value) = value < 2 ^ w

  abbrev pub AllFit : List Call → Type 0
  AllFit [] = 0 < 2 ^ w
  AllFit (c ∷ cs) = Fits c × AllFit cs

abbrev pub plus : Call → ℕ
plus (Call.add value) = value
plus Call.increment = 1
plus (Call.exchange_add value) = value
plus _ = 0

abbrev pub minus : Call → ℕ
minus (Call.sub value) = value
minus Call.decrement = 1
minus (Call.exchange_sub value) = value
minus _ = 0

abbrev pub added : List Call → ℕ
added [] = 0
added (c ∷ cs) = plus c + added cs

abbrev pub subtracted : List Call → ℕ
subtracted [] = 0
subtracted (c ∷ cs) = minus c + subtracted cs

gain : (m word value : ℕ) → ((word + value) % m + 0) % m ≡ (word + value) % m
gain m word value = mod-add-mod (word + value) m 0 ∙ ap (λ (t : ℕ). t % m) (omega arith)

loss : (m word value : ℕ) → value < m → ((word + (m - value)) % m + value) % m ≡ (word + 0) % m
loss m word value fits =
    mod-add-mod (word + (m - value)) m value
    ∙ ap (λ (t : ℕ). t % m) (omega arith)
    ∙ add-mod_right word m
    ∙ ap (λ (t : ℕ). t % m) (omega arith)

module _ (w : ℕ) where
  access_lem :
      (c : Call) (word : ℕ)
      → Fits w c
      → ((access w c word).1 + minus c) % 2 ^ w ≡ (word + plus c) % 2 ^ w
  unfolding atomic_add atomic_sub atomic_increment atomic_decrement atomic_exchange_add
      atomic_exchange_sub
  access_lem (Call.add value) word fits = gain (2 ^ w) word value
  access_lem (Call.sub value) word fits = loss (2 ^ w) word value fits
  access_lem Call.increment word fits = gain (2 ^ w) word 1
  access_lem Call.decrement word fits = loss (2 ^ w) word 1 fits
  access_lem (Call.exchange_add value) word fits = gain (2 ^ w) word value
  access_lem (Call.exchange_sub value) word fits = loss (2 ^ w) word value fits

  -- Whatever the order of the calls, with what they subtract put back the word is what it was with what
  -- they add, modulo 2^w: no call's effect is lost.
  pub after_lem :
      (cs : List Call) (word : ℕ)
      → AllFit w cs
      → (after w cs word + subtracted cs) % 2 ^ w ≡ (word + added cs) % 2 ^ w
  after_lem [] word fits = refl
  after_lem (c ∷ cs) word (fit, fits) =
      let m = 2 ^ w in
      let next = (access w c word).1 in
      let move = λ (a b d : ℕ). λ (e : a % m ≡ b % m).
        sym (mod-add-mod a m d) ∙ ap (λ (t : ℕ). (t + d) % m) e ∙ mod-add-mod b m d in
      ap (λ (t : ℕ). t % m) (omega arith)
      ∙ move (after w cs next + subtracted cs) (next + added cs) (minus c) (after_lem cs next fits)
      ∙ ap (λ (t : ℕ). t % m) (omega arith)
      ∙ move (next + minus c) (word + plus c) (added cs) (access_lem c word fit)
      ∙ ap (λ (t : ℕ). t % m) (omega arith)
