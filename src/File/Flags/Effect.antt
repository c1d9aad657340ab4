-- ===== src/File/Flags/Effect.antt =====
-- The two functions set and clear one bit, and leave the others.
use cpp_cores.Base.{
  ℕ, zero, suc, ◌-◌, ◌^◌, ◌<◌, ◌≡◌, refl, sym, ap, ◌∙◌, true, false, bit_and, ◌==◌, arith,
}
use native.Mathlib.Nat.{one-le-pow}
use cpp_cores.Base.Int.{ℤ}
use cpp_cores.File.Flags.{Fcntl, set_flag, make_non_blocking, clear_flag, make_blocking}
use cpp_cores.File.Flags.Bit.{word, bit_and-word, bit_or-word, word_of}

module _ {K : Type 0} (c : Fcntl K) (k : ℕ) where
  -- `F_SETFL` with a result that is not an error leaves the flags as they were asked for, if they differ
  -- from those before in `O_NONBLOCK` only.
  abbrev pub Documented : Type 0
  Documented =
      (s : K) (q b b' r : ℕ)
      → c.getfl s ≡ ℤ.pos (word k q b r)
      → (c.setfl s (word k q b' r)).1 ≡ ℤ.pos 0
      → c.getfl (c.setfl s (word k q b' r)).0 ≡ ℤ.pos (word k q b' r)

  is_clear : (q r : ℕ) → r < 2 ^ k → (bit_and (word k q 0 r) (2 ^ k) == 0) ≡ true
  is_clear q r hr =
      let e = bit_and-word k q 0 r (omega arith) hr in
      let none_ : bit_and (word k q 0 r) (2 ^ k) ≡ 0 = omega (arith, e) in rw none_ refl

  is_set : (q r : ℕ) → r < 2 ^ k → (bit_and (word k q 1 r) (2 ^ k) == 0) ≡ false
  is_set q r hr =
      ground (arith, bit_and-word k q 1 r (omega arith) hr, one-le-pow k 2 (omega arith))

  set_flag-word :
      (s : K) (q b r : ℕ)
      → Documented
      → b < 2
      → r < 2 ^ k
      → c.getfl s ≡ ℤ.pos (word k q b r)
      → (set_flag c (2 ^ k) (ℤ.pos (word k q b r)) s).1 ≡ ℤ.pos 0
      → c.getfl (set_flag c (2 ^ k) (ℤ.pos (word k q b r)) s).0 ≡ ℤ.pos (word k q 1 r)
  unfolding set_flag
  set_flag-word s q zero r law hb hr at =
      rw (is_clear q r hr, bit_or-word k q r hr) (law s q 0 1 r at)
  set_flag-word s q (suc zero) r law hb hr at = rw (is_set q r hr) (λ done. at)
  set_flag-word s q (suc (suc b)) r law hb hr at = absurd (omega arith)

  clear_flag-word :
      (s : K) (q b r : ℕ)
      → Documented
      → b < 2
      → r < 2 ^ k
      → c.getfl s ≡ ℤ.pos (word k q b r)
      → (clear_flag c (2 ^ k) (ℤ.pos (word k q b r)) s).1 ≡ ℤ.pos 0
      → c.getfl (clear_flag c (2 ^ k) (ℤ.pos (word k q b r)) s).0 ≡ ℤ.pos (word k q 0 r)
  unfolding clear_flag
  clear_flag-word s q zero r law hb hr at = rw (is_clear q r hr) (λ done. at)
  clear_flag-word s q (suc zero) r law hb hr at =
      let lower : word k q 1 r - bit_and (word k q 1 r) (2 ^ k) ≡ word k q 0 r =
        omega (arith, bit_and-word k q 1 r (omega arith) hr) in
      rw (is_set q r hr, lower) (law s q 1 0 r at)
  clear_flag-word s q (suc (suc b)) r law hb hr at = absurd (omega arith)

  -- The flags before and after a call: the bit is set to `b'`, and the others are as they were.
  abbrev pub Changed : ℕ → ℤ → ℤ → Type 0
  Changed b' before after =
      (q : ℕ) × (b : ℕ) × (r : ℕ) × ((before ≡ ℤ.pos (word k q b r))
        × (b < 2)
        × (r < 2 ^ k)
        × (after ≡ ℤ.pos (word k q b' r)))

  non_blocking_from :
      (s : K) (v : ℤ) (f : ℕ)
      → Documented
      → v ≡ ℤ.pos f
      → c.getfl s ≡ v
      → (set_flag c (2 ^ k) v s).1 ≡ ℤ.pos 0
      → Changed 1 v (c.getfl (set_flag c (2 ^ k) v s).0)
  non_blocking_from s v f law e at done =
      let (q, b, r, (sum, hb, hr)) = word_of k f in
      let whole : v ≡ ℤ.pos (word k q b r) = e ∙ ap ℤ.pos sum in
      let end_ =
        set_flag-word s q b r law hb hr (at ∙ whole)
          (ap (λ x. (set_flag c (2 ^ k) x s).1) (sym whole) ∙ done) in
      (q, b, r, (whole, hb, hr, ap (λ x. c.getfl (set_flag c (2 ^ k) x s).0) whole ∙ end_))

  blocking_from :
      (s : K) (v : ℤ) (f : ℕ)
      → Documented
      → v ≡ ℤ.pos f
      → c.getfl s ≡ v
      → (clear_flag c (2 ^ k) v s).1 ≡ ℤ.pos 0
      → Changed 0 v (c.getfl (clear_flag c (2 ^ k) v s).0)
  blocking_from s v f law e at done =
      let (q, b, r, (sum, hb, hr)) = word_of k f in
      let whole : v ≡ ℤ.pos (word k q b r) = e ∙ ap ℤ.pos sum in
      let end_ =
        clear_flag-word s q b r law hb hr (at ∙ whole)
          (ap (λ x. (clear_flag c (2 ^ k) x s).1) (sym whole) ∙ done) in
      (q, b, r, (whole, hb, hr, ap (λ x. c.getfl (clear_flag c (2 ^ k) x s).0) whole ∙ end_))

  -- Where `fcntl` sets the flags that it is given, a call of `make_non_blocking` that returns 0 sets the
  -- bit `O_NONBLOCK`, a call of `make_blocking` that returns 0 clears it, and both leave the other flags.
  pub flags-Changed :
      (s : K) (f : ℕ)
      → Documented
      → c.getfl s ≡ ℤ.pos f
      → (make_non_blocking c (2 ^ k) s).1 ≡ ℤ.pos 0
      → (make_blocking c (2 ^ k) s).1 ≡ ℤ.pos 0
      → Changed 1 (c.getfl s) (c.getfl (make_non_blocking c (2 ^ k) s).0)
        × Changed 0 (c.getfl s) (c.getfl (make_blocking c (2 ^ k) s).0)
  unfolding make_non_blocking make_blocking
  flags-Changed s f law e done done' = (
    non_blocking_from s (c.getfl s) f law e refl done,
    blocking_from s (c.getfl s) f law e refl done',
  )
