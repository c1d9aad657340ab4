-- ===== src/Queue/Stealing/PopMoves.antt =====
-- Each access of `pop` keeps the invariant.
use cpp_cores.Base.{
  ℕ, ◌+◌, ◌-◌, ◌%◌, ◌<◌, ◌≡◌, ◌≢◌, refl, ap, ◌∙◌, true, false, List, [], ◌∷◌, ◌++◌, ◌==◌, leb, ltb,
  if◌then◌else◌, arith, append_assoc, append-nil, Bool-cases, inl, inr,
}
use cpp_cores.Queue.Stealing.{Deque, w64, succ64, pred64, Owner, Thief, System, own}
use cpp_cores.Queue.Stealing.Window.{window}
use cpp_cores.Queue.Stealing.Invariant.{at_index, contents, InvAt, Inv, Safe-keep, Kept-split}
use cpp_cores.Queue.Stealing.PushMoves.{learn, push_loaded-Inv, push_free-Inv, push_written-Inv}

module _ {q : Deque} {th : ℕ → Thief} {pushed taken : List ℕ} where
  pop_loaded-Inv :
      (b : ℕ)
      → InvAt q (Owner.pop_loaded b) th pushed taken
      → InvAt q (if leb b q.top then Owner.idle else Owner.pop_some b) th pushed taken
  pop_loaded-Inv b v = elim (Bool-cases (leb b q.top)) [
    | inl empty ↦ rw empty (learn Owner.idle refl refl tt v)
    | inr left ↦ rw left (learn (Owner.pop_some b) refl refl (v.sound.owner, ground arith) v)
  ]

  -- Lowering `_bottom` does not move the end of the deque.
  pop_some-Inv :
      (b : ℕ)
      → InvAt q (Owner.pop_some b) th pushed taken
      → InvAt (record q { bottom = pred64 b }) (Owner.pop_lowered b) th pushed taken
  pop_some-Inv b v =
      let same : b ≡ q.bottom = v.sound.owner.0 in
      record {
        sound = record {
          pow = v.sound.pow;
          room = v.sound.room;
          short = rw same (v.sound.short);
          ordered = rw same (v.sound.ordered);
          fits = rw same (v.sound.fits);
          owner = omega (arith, v.sound.owner.0, v.sound.owner.1, v.sound.short);
        };
        safe = λ i. rw same (v.safe i);
        kept = rw same (v.kept);
      }

  pred64_lem : {b : ℕ} → InvAt q (Owner.pop_lowered b) th pushed taken → pred64 b ≡ q.bottom
  pred64_lem v = omega (arith, v.sound.owner, v.sound.short)

  -- The second load of `_top`: nothing left, one element to compete for, or the last of several,
  -- which is the owner's from here on.
  pop_gone-Inv :
      (b : ℕ)
      → q.bottom < q.top
      → InvAt q (Owner.pop_lowered b) th pushed taken
      → InvAt q (Owner.pop_restore b) th pushed taken
  pop_gone-Inv b gone v =
      learn (Owner.pop_restore b) refl refl
        (v.sound.owner, omega (arith, v.sound.owner, v.sound.ordered)) v

  pop_one-Inv :
      (b : ℕ)
      → (q.top == q.bottom) ≡ true
      → InvAt q (Owner.pop_lowered b) th pushed taken
      → InvAt q (Owner.pop_got q.top b) th pushed taken
  pop_one-Inv b one v =
      learn (Owner.pop_got q.top b) (rw one) (rw one) (v.sound.owner, ground arith, ground arith) v

  pop_several-Inv :
      (b : ℕ)
      → q.top < q.bottom
      → InvAt q (Owner.pop_lowered b) th pushed taken
      → InvAt q (Owner.pop_got q.top b) th pushed taken
  pop_several-Inv b several v =
      let apart : (q.top == q.bottom) ≡ false = ground arith in
      record {
        sound = record {
          pow = v.sound.pow;
          room = v.sound.room;
          short = rw apart (omega (arith, v.sound.owner, v.sound.short));
          ordered = rw apart (omega arith);
          fits = rw apart (omega (arith, v.sound.owner, v.sound.fits));
          owner = (v.sound.owner, omega arith, omega arith);
        };
        safe = λ i. rw apart (
            Safe-keep b q.top (at_index q q.top) q.bottom q.top (at_index q q.top) (th i)
              (omega arith) (λ same below. (several, refl)) (v.safe i));
        kept =
            rw apart
              (Kept-split q pushed taken q.bottom (omega arith) (rw (← v.sound.owner) at (v.kept)));
      }

  pop_lowered-Inv :
      (b : ℕ)
      → InvAt q (Owner.pop_lowered b) th pushed taken
      → InvAt q
          (if ltb (pred64 b) q.top then Owner.pop_restore b else Owner.pop_got q.top b)
          th
          pushed
          taken
  pop_lowered-Inv b v = elim (Bool-cases (ltb (pred64 b) q.top)) [
    | inl gone ↦ rw gone (pop_gone-Inv b (ground (arith, pred64_lem v)) v)
    | inr left ↦ elim (Bool-cases (q.top == q.bottom)) [
      | inl one ↦ rw left (pop_one-Inv b one v)
      | inr several ↦ rw left (pop_several-Inv b (ground (arith, pred64_lem v)) v)
    ]
  ]

  -- The read: the element set aside is returned; a single one is competed for.
  pop_return-Inv :
      (t b : ℕ)
      → (t == q.bottom) ≡ false
      → InvAt q (Owner.pop_got t b) th pushed taken
      → InvAt q Owner.idle th pushed (taken ++ at_index q q.bottom ∷ [])
  pop_return-Inv t b apart v = record {
    sound = record {
      pow = v.sound.pow;
      room = v.sound.room;
      short = rw apart at (v.sound.short);
      ordered = rw apart at (v.sound.ordered);
      fits = rw apart at (v.sound.fits);
      owner = tt;
    };
    safe = λ i. rw apart at (v.safe i);
    kept =
        rw (append_assoc taken (at_index q q.bottom ∷ []) (contents q q.bottom))
          (rw apart at (v.kept));
  }

  pop_compete-Inv :
      (t b : ℕ)
      → (t == q.bottom) ≡ true
      → InvAt q (Owner.pop_got t b) th pushed taken
      → InvAt q (Owner.pop_last (at_index q q.bottom) t b) th pushed taken
  pop_compete-Inv t b same v =
      let e : t ≡ q.bottom = ground arith in
      learn (Owner.pop_last (at_index q q.bottom) t b) (rw same) (rw same)
        (v.sound.owner.0, e, v.sound.owner.2, ap (at_index q) e) v

  -- The exchange: won, the element is the owner's; lost, a thief has it.
  pop_won-Inv :
      (e t b : ℕ)
      → q.top ≡ t
      → InvAt q (Owner.pop_last e t b) th pushed taken
      → InvAt (record q { top = succ64 t }) (Owner.pop_restore b) th pushed (taken ++ e ∷ [])
  pop_won-Inv e t b won v = record {
    sound = record {
      pow = pow;
      room = room;
      short = short;
      ordered = omega arith;
      fits = omega arith;
      owner = (owner.0, past);
    };
    safe = λ i.
        Safe-keep b q.top (at_index q q.top) b (succ64 t) _ (th i) (omega arith)
          (λ same below. absurd (omega arith)) (v.safe i);
    kept = rw (nothing_left, append_nil_twice) (rw one_left at (v.kept));
  }
    where
      open v.sound use {pow, room, short, ordered, fits, owner}

      past : succ64 t ≡ b
      past = omega (arith, owner.0, owner.1, short)

      nothing_left : b - succ64 t ≡ 0
      nothing_left = omega arith

      one_left : contents q b ≡ e ∷ []
      one_left =
          let one : b - q.top ≡ 1 = omega (arith, owner.0, owner.1) in
          ap (window q.capacity q.buffer q.top) one
          ∙ ap (λ x. x ∷ []) (ap (at_index q) won ∙ owner.3)

      append_nil_twice : (taken ++ e ∷ []) ++ [] ≡ taken ++ e ∷ []
      append_nil_twice = append-nil (taken ++ e ∷ [])

  pop_lost-Inv :
      (e t b : ℕ)
      → q.top ≢ t
      → InvAt q (Owner.pop_last e t b) th pushed taken
      → InvAt q (Owner.pop_restore b) th pushed taken
  pop_lost-Inv e t b lost v =
      learn (Owner.pop_restore b) refl refl
        (v.sound.owner.0, ground (arith, v.sound.owner, v.sound.ordered)) v

  pop_restore-Inv :
      (b : ℕ)
      → InvAt q (Owner.pop_restore b) th pushed taken
      → InvAt (record q { bottom = b }) Owner.idle th pushed taken
  pop_restore-Inv b v = record {
    sound = record {
      pow = v.sound.pow;
      room = v.sound.room;
      short = v.sound.short;
      ordered = v.sound.ordered;
      fits = v.sound.fits;
      owner = tt;
    };
    safe = v.safe;
    kept = v.kept;
  }

  pub pop_got-Inv :
      (t b : ℕ)
      → InvAt q (Owner.pop_got t b) th pushed taken
      → (pred64 b ≡ q.bottom)
        × ((t == q.bottom) ≡ false
            → InvAt q Owner.idle th pushed (taken ++ at_index q q.bottom ∷ []))
        × ((t == q.bottom) ≡ true
            → InvAt q (Owner.pop_last (at_index q q.bottom) t b) th pushed taken)
  pop_got-Inv t b v = (
    ground (arith, v.sound.owner, v.sound.short),
    λ apart. pop_return-Inv t b apart v,
    λ same. pop_compete-Inv t b same v,
  )

-- Each access of the owner keeps the invariant.
pub own-Inv :
    (o : Owner) (s : System)
    → s.owner ≡ o
    → InvAt s.queue o s.thieves s.pushed s.taken
    → Inv (own o s)
unfolding own
own-Inv Owner.idle s e v = rw e v
own-Inv (Owner.push_called x) s e v =
    learn (Owner.push_loaded x s.queue.bottom) refl refl (refl, v.sound.owner) v
own-Inv (Owner.push_loaded x b) s e v =
    elim (Bool-cases (leb ((s.queue.top + s.queue.capacity) % w64) b)) [
      | inl full ↦ rw full (rw full at (push_loaded-Inv x b v))
      | inr free ↦ rw free (rw free at (push_loaded-Inv x b v))
    ]
own-Inv (Owner.push_free x b) s e v = push_free-Inv x b v
own-Inv (Owner.push_written x b) s e v = push_written-Inv x b v
own-Inv Owner.pop_called s e v = learn (Owner.pop_loaded s.queue.bottom) refl refl refl v
own-Inv (Owner.pop_loaded b) s e v = elim (Bool-cases (leb b s.queue.top)) [
  | inl empty ↦ rw empty (rw empty at (pop_loaded-Inv b v))
  | inr left ↦ rw left (rw left at (pop_loaded-Inv b v))
]
own-Inv (Owner.pop_some b) s e v = pop_some-Inv b v
own-Inv (Owner.pop_lowered b) s e v = elim (Bool-cases (ltb (pred64 b) s.queue.top)) [
  | inl gone ↦ rw gone (rw gone at (pop_lowered-Inv b v))
  | inr left ↦ rw left (rw left at (pop_lowered-Inv b v))
]
own-Inv (Owner.pop_got t b) s e v =
    let (index, several, one) = pop_got-Inv t b v in
    elim (Bool-cases (t == s.queue.bottom)) [
      | inl same ↦ rw (index, same) (one same)
      | inr apart ↦ rw (index, apart) (several apart)
    ]
own-Inv (Owner.pop_last x t b) s e v = elim (Bool-cases (s.queue.top == t)) [
  | inl won ↦ rw won (pop_won-Inv x t b (ground arith) v)
  | inr lost ↦ rw lost (pop_lost-Inv x t b (ground arith) v)
]
own-Inv (Owner.pop_restore b) s e v = pop_restore-Inv b v
