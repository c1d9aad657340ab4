-- ===== src/Queue/Stealing/PushMoves.antt =====
-- Each access of `push` keeps the invariant.
use cpp_cores.Base.{
  ℕ, suc, ◌+◌, ◌-◌, ◌%◌, ◌<◌, ◌≡◌, refl, ap, sym, ◌∙◌, List, [], ◌∷◌, ◌++◌, leb, if◌then◌else◌,
  get_or, set, arith, length-set, get_or-set_self, get_or-set_ne, append_assoc, Bool-cases, inl,
  inr,
}
use mathlib.Core.List.Perm
use cpp_cores.Queue.Stealing.{Deque, w64, succ64, slot, Owner, Thief}
use cpp_cores.Queue.Stealing.Window.{window, window-set, window-snoc, slot-lt, slot-ne}
use cpp_cores.Queue.Stealing.Invariant.{
  at_index, endpoint, in_flight, contents, OwnerFresh, InvAt, Safe-keep,
}

module _ {q : Deque} {th : ℕ → Thief} {pushed taken : List ℕ} where
  -- The owner learns something, or forgets it, and the queue stays.
  pub learn :
      {o : Owner} (o' : Owner)
      → endpoint o q ≡ endpoint o' q
      → in_flight o q ≡ in_flight o' q
      → OwnerFresh q o'
      → InvAt q o th pushed taken
      → InvAt q o' th pushed taken
  learn {o} o' same_end same_flight fresh v = record {
    sound = record {
      pow = v.sound.pow;
      room = v.sound.room;
      short = rw (← same_end) (v.sound.short);
      ordered = rw (← same_end) (v.sound.ordered);
      fits = rw (← same_end) (v.sound.fits);
      owner = fresh;
    };
    safe = λ i. rw (← same_end) (v.safe i);
    kept = rw (← same_end, ← same_flight) (v.kept);
  }

  pub push_loaded-Inv :
      (e b : ℕ)
      → InvAt q (Owner.push_loaded e b) th pushed taken
      → InvAt q
          (if leb ((q.top + q.capacity) % w64) b then Owner.idle else Owner.push_free e b)
          th
          pushed
          taken
  push_loaded-Inv e b v = elim (Bool-cases (leb ((q.top + q.capacity) % w64) b)) [
    | inl full ↦ rw full (learn Owner.idle refl refl tt v)
    | inr free ↦ rw free (
        learn (Owner.push_free e b) refl refl
          (v.sound.owner.0, v.sound.owner.1, ground (arith, v.sound.short, v.sound.ordered)) v)
  ]

  pub push_free-Inv :
      (e b : ℕ)
      → InvAt q (Owner.push_free e b) th pushed taken
      → InvAt
          (record q { buffer = set q.buffer (slot q.capacity b) e })
          (Owner.push_written e b)
          th
          pushed
          taken
  push_free-Inv e b v = record {
    sound = record {
      pow = pow;
      room = length-set q.buffer (slot q.capacity b) e ∙ room;
      short = short;
      ordered = ordered;
      fits = fits;
      owner = (
        owner.0,
        owner.1,
        owner.2,
        get_or-set_self q.buffer (slot q.capacity b) e 0
            (omega (arith, slot-lt q.capacity b pow, room)),
      );
    };
    safe = λ i.
        Safe-keep q.bottom q.top (at_index q q.top) q.bottom q.top _ (th i) (omega arith)
          (λ same below. (below, sym (untouched below))) (v.safe i);
    kept =
        rw
          (window-set q.capacity q.buffer q.top (q.bottom - q.top) b e pow (omega (arith, owner.0))
            owner.2)
          (v.kept);
  }
    where
      open v.sound use {pow, room, short, ordered, fits, owner}

      untouched :
          q.top < q.bottom
          → get_or (set q.buffer (slot q.capacity b) e) (slot q.capacity q.top) 0 ≡ at_index q q.top
      untouched below =
          get_or-set_ne q.buffer (slot q.capacity b) (slot q.capacity q.top) e 0
            (slot-ne q.capacity q.top b pow (omega (arith, owner.0)) owner.2)

  pub push_written-Inv :
      (e b : ℕ)
      → InvAt q (Owner.push_written e b) th pushed taken
      → InvAt (record q { bottom = succ64 b }) Owner.idle th (pushed ++ e ∷ []) taken
  push_written-Inv e b v = record {
    sound = record {
      pow = pow;
      room = room;
      short = omega (arith, owner.0, owner.1);
      ordered = omega (arith, owner.0, owner.1);
      fits = omega (arith, owner.0, owner.1, owner.2);
      owner = tt;
    };
    safe = λ i.
        Safe-keep q.bottom q.top (at_index q q.top) (succ64 b) q.top (at_index q q.top) (th i)
          (omega arith) (λ same below. (omega (arith, owner.0, owner.1), refl)) (v.safe i);
    kept =
        rw (grown, ← append_assoc taken (contents q q.bottom) (e ∷ []))
          (Perm.append_right (e ∷ []) (v.kept));
  }
    where
      open v.sound use {pow, room, short, ordered, fits, owner}

      grown : contents (record q { bottom = succ64 b }) (succ64 b) ≡ contents q q.bottom ++ e ∷ []
      grown =
          let longer : succ64 b - q.top ≡ suc (q.bottom - q.top) =
            omega (arith, owner.0, owner.1) in
          let last : q.top + (q.bottom - q.top) ≡ b = omega (arith, owner.0) in
          ap (window q.capacity q.buffer q.top) longer
          ∙ window-snoc q.capacity q.buffer q.top (q.bottom - q.top)
          ∙ ap (λ j. contents q q.bottom ++ at_index q j ∷ []) last
          ∙ ap (λ x. contents q q.bottom ++ x ∷ []) owner.3
