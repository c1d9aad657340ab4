-- ===== src/Lock/Spin/Safety.antt =====
-- A spin lock has at most one owner.
use cpp_cores.Base.{ℕ, ◌≡◌, refl, sym, ap, ◌∙◌, Bool, true, false, arith, if◌then◌else◌}
use cpp_cores.Lock.Exclusive.{
  update, Nobody, OneOnly, Nobody-update, OneOnly-acquire, OneOnly-update, Nobody-release,
}
use cpp_cores.Lock.Spin.{
  Kind, Thread, System, busy, act, call_lock, call_try_lock, acted, Reach, here, later, start,
}

abbrev owns : Thread → Bool
owns Thread.owner = true
owns _ = false

-- The flag is set while exactly one thread owns the lock, and clear while none does.
abbrev Guarded : Bool → (ℕ → Thread) → Type 0
Guarded false threads = Nobody owns threads
Guarded true threads = OneOnly owns threads

module _ (threads : ℕ → Thread) (i : ℕ) where
  kept :
      (flag : Bool) (t : Thread)
      → owns (threads i) ≡ false
      → owns t ≡ false
      → Guarded flag threads
      → Guarded flag (update threads i t)
  kept false t before after v = Nobody-update owns threads i t v after
  kept true t before after v = OneOnly-update owns threads i t v before after

  exchanged :
      (flag : Bool) (t : Thread)
      → owns (threads i) ≡ false
      → owns t ≡ false
      → Guarded flag threads
      → Guarded true (update threads i (if flag then t else Thread.owner))
  exchanged false t before after v = OneOnly-acquire owns threads i Thread.owner v refl
  exchanged true t before after v = OneOnly-update owns threads i t v before after

  watched :
      (flag : Bool)
      → owns (threads i) ≡ false
      → Guarded flag threads
      → Guarded flag (update threads i (if flag then Thread.watching else Thread.spinning))
  watched false before v = kept false Thread.spinning before refl v
  watched true before v = kept true Thread.watching before refl v

  released :
      (flag : Bool)
      → owns (threads i) ≡ true
      → Guarded flag threads
      → Guarded false (update threads i Thread.idle)
  released false before v = let clash : true ≡ false = sym before ∙ v i in absurd (ground arith)
  released true before v = Nobody-release owns threads i Thread.idle v before refl

busy-free : (kind : Kind) → owns (busy kind) ≡ false
busy-free Kind.simple_spin_lock = refl
busy-free Kind.atomic_spin_lock = refl

module _ (kind : Kind) where
  act-Guarded :
      (s : System) (i : ℕ) (t : Thread)
      → s.threads i ≡ t
      → Guarded s.flag s.threads
      → Guarded (act kind t s.flag).1 (update s.threads i (act kind t s.flag).0)
  unfolding act
  act-Guarded s i Thread.spinning at v =
      exchanged s.threads i s.flag (busy kind) (ap owns at) (busy-free kind) v
  act-Guarded s i Thread.watching at v = watched s.threads i s.flag (ap owns at) v
  act-Guarded s i Thread.trying at v = exchanged s.threads i s.flag Thread.idle (ap owns at) refl v
  act-Guarded s i Thread.owner at v = released s.threads i s.flag (ap owns at) v
  act-Guarded s i Thread.idle at v = kept s.threads i s.flag Thread.idle (ap owns at) refl v

  Reach-Guarded : {s : System} → Reach kind start s → Guarded s.flag s.threads
  unfolding start
  Reach-Guarded here = λ i. refl
  Reach-Guarded (later {t} r (call_lock i at)) =
      kept t.threads i t.flag Thread.spinning (ap owns at) refl (Reach-Guarded r)
  Reach-Guarded (later {t} r (call_try_lock i at)) =
      kept t.threads i t.flag Thread.trying (ap owns at) refl (Reach-Guarded r)
  Reach-Guarded (later {t} r (acted i)) = act-Guarded t i (t.threads i) refl (Reach-Guarded r)

  -- In every reachable state of either spin lock, two threads that own it are the same thread, and the
  -- flag is set while one does.
  pub one_owner :
      {s : System}
      → Reach kind start s
      → (i j : ℕ) → s.threads i ≡ Thread.owner
      → s.threads j ≡ Thread.owner
      → (i ≡ j) × (s.flag ≡ true)
  one_owner {s} r i j at_i at_j = settle s.flag (Reach-Guarded r)
    where
      settle : (flag : Bool) → Guarded flag s.threads → (i ≡ j) × (flag ≡ true)
      settle false v = let clash : true ≡ false = sym (ap owns at_i) ∙ v i in absurd (ground arith)
      settle true (k, at, only) = (only i (ap owns at_i) ∙ sym (only j (ap owns at_j)), refl)
