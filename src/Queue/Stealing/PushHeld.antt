-- ===== src/Queue/Stealing/PushHeld.antt =====
-- What the accesses of `push` change of the elements that the deque holds.
use cpp_cores.Base.{
  ℕ, suc, ◌+◌, ◌-◌, ◌%◌, ◌≡◌, refl, sym, ap, ◌∙◌, Bool, true, false, List, [], ◌∷◌, ◌++◌, leb,
  if◌then◌else◌, arith, Bool-cases, inl, inr,
}
use mathlib.Core.Path.{subst}
use cpp_cores.Queue.Stealing.{w64, succ64, Owner, System, own}
use cpp_cores.Queue.Stealing.Window.{window, window-set, window-snoc}
use cpp_cores.Queue.Stealing.Invariant.{at_index, endpoint, contents, InvAt, Inv}

-- The elements that the deque holds, from the oldest on.
abbrev pub held : System → List ℕ
held s = contents s.queue (endpoint s.owner s.queue)

abbrev pub is_pushing : Owner → Bool
is_pushing (Owner.push_called e) = true
is_pushing (Owner.push_loaded e b) = true
is_pushing (Owner.push_free e b) = true
is_pushing (Owner.push_written e b) = true
is_pushing _ = false

-- The elements that the deque is to hold after the owner's next access, if that is one of `push`.
abbrev pub after_push : Owner → List ℕ → List ℕ
after_push (Owner.push_written e b) l = l ++ e ∷ []
after_push _ l = l

module _ (s : System) (v : Inv s) where
  -- The invariant, with the owner written out.
  at_owner : (o : Owner) → s.owner ≡ o → InvAt s.queue o s.thieves s.pushed s.taken
  at_owner o at = subst (λ x. InvAt s.queue x s.thieves s.pushed s.taken) at v

  held_at : (o : Owner) → s.owner ≡ o → contents s.queue (endpoint o s.queue) ≡ held s
  held_at o at = ap (λ x. contents s.queue (endpoint x s.queue)) (sym at)

  -- The store of `_bottom` adds the element at the end.
  held-own_last :
      (e b : ℕ)
      → s.owner ≡ Owner.push_written e b
      → held (own (Owner.push_written e b) s) ≡ held s ++ e ∷ []
  unfolding own
  held-own_last e b at =
      let sound = (at_owner (Owner.push_written e b) at).sound in
      let q = s.queue in
      let longer : succ64 b - q.top ≡ suc (q.bottom - q.top) =
        omega (arith, sound.owner.0, sound.owner.1, sound.ordered) in
      let last : q.top + (q.bottom - q.top) ≡ b = omega (arith, sound.owner.0, sound.ordered) in
      ap (window q.capacity q.buffer q.top) longer
      ∙ window-snoc q.capacity q.buffer q.top (q.bottom - q.top)
      ∙ ap (λ j. contents q q.bottom ++ at_index q j ∷ []) last
      ∙ ap (λ x. contents q q.bottom ++ x ∷ []) sound.owner.3
      ∙ ap (λ l. l ++ e ∷ []) (held_at (Owner.push_written e b) at)

  held-own_at :
      (o : Owner) → s.owner ≡ o → is_pushing o ≡ true → held (own o s) ≡ after_push o (held s)
  unfolding own
  held-own_at (Owner.push_called e) at p = held_at (Owner.push_called e) at
  held-own_at (Owner.push_loaded e b) at p =
      let no = record s { owner = Owner.idle } in
      let yes = record s { owner = Owner.push_free e b } in
      let go = λ (t : Bool). held (if t then no else yes) ≡ held s in
      elim (Bool-cases (leb ((s.queue.top + s.queue.capacity) % w64) b)) [
        | inl full ↦ subst go (sym full) (held_at (Owner.push_loaded e b) at)
        | inr free ↦ subst go (sym free) (held_at (Owner.push_loaded e b) at)
      ]
  held-own_at (Owner.push_free e b) at p =
      let sound = (at_owner (Owner.push_free e b) at).sound in
      window-set s.queue.capacity s.queue.buffer s.queue.top (s.queue.bottom - s.queue.top) b e
        sound.pow (omega (arith, sound.owner.0, sound.ordered)) sound.owner.2
      ∙ held_at (Owner.push_free e b) at
  held-own_at Owner.idle at p = absurd (ground arith)
  held-own_at (Owner.push_written e b) at p = held-own_last e b at
  held-own_at Owner.pop_called at p = absurd (ground arith)
  held-own_at (Owner.pop_loaded b) at p = absurd (ground arith)
  held-own_at (Owner.pop_some b) at p = absurd (ground arith)
  held-own_at (Owner.pop_lowered b) at p = absurd (ground arith)
  held-own_at (Owner.pop_got t b) at p = absurd (ground arith)
  held-own_at (Owner.pop_last e t b) at p = absurd (ground arith)
  held-own_at (Owner.pop_restore b) at p = absurd (ground arith)

  pub held-own :
      (if is_pushing s.owner then held (own s.owner s) else held s) ≡ after_push s.owner (held s)
  held-own = go s.owner refl
    where
      go :
          (o : Owner)
          → s.owner ≡ o
          → (if is_pushing o then held (own o s) else held s) ≡ after_push o (held s)
      go (Owner.push_called e) at = held-own_at (Owner.push_called e) at refl
      go (Owner.push_loaded e b) at = held-own_at (Owner.push_loaded e b) at refl
      go (Owner.push_free e b) at = held-own_at (Owner.push_free e b) at refl
      go (Owner.push_written e b) at = held-own_at (Owner.push_written e b) at refl
      go Owner.idle at = refl
      go Owner.pop_called at = refl
      go (Owner.pop_loaded b) at = refl
      go (Owner.pop_some b) at = refl
      go (Owner.pop_lowered b) at = refl
      go (Owner.pop_got t b) at = refl
      go (Owner.pop_last e t b) at = refl
      go (Owner.pop_restore b) at = refl
