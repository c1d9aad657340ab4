-- ===== src/Hash/Quick/Polynomial.antt =====
-- `quick_hash` as a polynomial in 31.
use cpp_cores.Base.{
  ℕ, zero, suc, ◌+◌, ◌*◌, ◌%◌, ◌^◌, ◌≡◌, ◌≢◌, refl, ap, ◌∙◌, List, [], ◌∷◌, ◌==◌, if◌then◌else◌,
  length, replicate, arith, false, Bool-cases, inl, inr,
}
use native.Mathlib.Nat.{pow-suc}
use cpp_cores.Hash.Quick.{w32, signed, text_loop, quick_hash, sized_loop, quick_hash_sized}

-- The bytes before the first NUL.
pub until_nul : List ℕ → List ℕ
until_nul [] = []
until_nul (c ∷ cs) = if c == 0 then [] else c ∷ until_nul cs

-- The value at 31 of the polynomial whose coefficients are the bytes, highest first.
pub polynomial : List ℕ → ℕ
polynomial [] = 0
polynomial (c ∷ cs) = signed c * 31 ^ length cs + polynomial cs

step : (h x : ℕ) → (31 * (h % w32) + x) % w32 ≡ (31 * h + x) % w32
step h x = omega arith

-- The loop without the wrap.
exact : ℕ → List ℕ → ℕ
exact h [] = h
exact h (c ∷ cs) = exact (31 * h + signed c) cs

text_loop-exact : (h : ℕ) (s : List ℕ) → text_loop (h % w32) s ≡ exact h (until_nul s) % w32
unfolding text_loop exact until_nul
text_loop-exact h [] = refl
text_loop-exact h (c ∷ cs) = elim (Bool-cases (c == 0)) [
  | inl end_of_text ↦ rw end_of_text refl
  | inr more ↦ rw (more, step h (signed c)) (text_loop-exact (31 * h + signed c) cs)
]

exact-polynomial : (h : ℕ) (s : List ℕ) → exact h s ≡ h * 31 ^ length s + polynomial s
unfolding exact polynomial
exact-polynomial h [] = omega arith
exact-polynomial h (c ∷ cs) =
    exact-polynomial (31 * h + signed c) cs
    ∙ omega (arith, ap (λ (t : ℕ). h * t) (pow-suc 31 (length cs)))

-- `quick_hash` of a string is the polynomial of the bytes before its first NUL, modulo 2^32.
pub quick_hash-polynomial : (s : List ℕ) → quick_hash s ≡ polynomial (until_nul s) % w32
unfolding quick_hash
quick_hash-polynomial s =
    text_loop-exact 0 s ∙ ap (λ (t : ℕ). t % w32) (exact-polynomial 0 (until_nul s) ∙ omega arith)

sized_loop-text_loop :
    (c n h : ℕ) → (c == 0) ≡ false → sized_loop c n h ≡ text_loop h (replicate n c)
unfolding sized_loop text_loop
sized_loop-text_loop c zero h more = refl
sized_loop-text_loop c (suc n) h more =
    rw more (sized_loop-text_loop c n ((31 * h + signed c) % w32) more)

-- The overload with a size hashes its first byte, which is not NUL, so many times: it gives what
-- `quick_hash` gives on a string of that byte alone, whatever the other bytes are.
pub quick_hash_sized-replicate :
    (c : ℕ) (rest : List ℕ) (size : ℕ)
    → c ≢ 0
    → quick_hash_sized (c ∷ rest) size ≡ quick_hash (replicate size c)
unfolding quick_hash_sized quick_hash
quick_hash_sized-replicate c rest size apart = sized_loop-text_loop c size 0 (ground arith)
