-- ===== src/Queue/Stealing/ThiefMoves.antt =====
-- Each access of a thief keeps the invariant.
use cpp_cores.Base.{
  ℕ, suc, ◌-◌, ◌<◌, ◌≤◌, ◌≡◌, refl, ap, sym, ◌∙◌, List, [], ◌∷◌, ◌++◌, ◌==◌, leb, arith,
  append_assoc, Bool-cases, inl, inr, ℕ_discrete,
}
use mathlib.Core.List.{perm_middle}
use mathlib.Core.List.Perm
use mathlib.Core.Logic.{if_pos, if_neg}
use cpp_cores.Queue.Stealing.{Deque, succ64, Owner, Thief, System, update, rob}
use cpp_cores.Queue.Stealing.Window.{window}
use cpp_cores.Queue.Stealing.Invariant.{
  at_index, endpoint, in_flight, contents, OwnerFresh, Sound, Safe, InvAt, Inv, Safe-keep,
}

-- `_bottom` is the end of the deque, or one short of it.
bottom-le-end : (o : Owner) (q : Deque) → Sound q o → q.bottom ≤ endpoint o q
bottom-le-end Owner.idle q v = omega arith
bottom-le-end (Owner.pop_got t b) q v = ground (arith, v.owner)
bottom-le-end (Owner.pop_lowered b) q v = omega (arith, v.owner)
bottom-le-end (Owner.pop_last e t b) q v = omega (arith, v.owner)
bottom-le-end (Owner.pop_restore b) q v = omega (arith, v.owner)
bottom-le-end _ q v = omega arith

-- The end and the element set aside do not depend on `_top`.
endpoint-top : (o : Owner) (q : Deque) (t : ℕ) → endpoint o (record q { top = t }) ≡ endpoint o q
endpoint-top Owner.idle q t = refl
endpoint-top _ q t = refl

in_flight-top : (o : Owner) (q : Deque) (t : ℕ) → in_flight o (record q { top = t }) ≡ in_flight o q
in_flight-top Owner.idle q t = refl
in_flight-top _ q t = refl

-- What the owner knows survives a theft.
owner-top :
    (o : Owner) (q : Deque) (t : ℕ)
    → q.top < t
    → q.top < endpoint o q
    → OwnerFresh q o
    → OwnerFresh (record q { top = t }) o
owner-top Owner.idle q t more left f = tt
owner-top (Owner.push_called e) q t more left f = f
owner-top (Owner.push_loaded e b) q t more left f = f
owner-top (Owner.push_free e b) q t more left f = omega arith
owner-top (Owner.push_written e b) q t more left f = (f.0, f.1, omega (arith, f.2), f.3)
owner-top Owner.pop_called q t more left f = tt
owner-top (Owner.pop_loaded b) q t more left f = f
owner-top (Owner.pop_some b) q t more left f = f
owner-top (Owner.pop_lowered b) q t more left f = f
owner-top (Owner.pop_got u b) q t more left f = (f.0, f.1, omega (arith, f.2))
owner-top (Owner.pop_last e u b) q t more left f = (f.0, f.1, omega (arith, f.2), f.3)
owner-top (Owner.pop_restore b) q t more left f = absurd (omega (arith, f.1))

module _ {q : Deque} {o : Owner} {th : ℕ → Thief} {pushed taken : List ℕ}
    (v : InvAt q o th pushed taken) where
  -- A thief that learns something true.
  pub tell : (i : ℕ) (t : Thief) → Safe q o t → InvAt q o (update th i t) pushed taken
  tell i t safe = record {
    sound = v.sound;
    safe = λ j. elim (ℕ_discrete i j) [
      | yes same ↦ rw (if_pos (ℕ_discrete i j) same) safe
      | no other ↦ rw (if_neg (ℕ_discrete i j) other) (v.safe j)
    ];
    kept = v.kept;
  }

  -- A theft: the exchange found `_top` where the thief had read the element.
  stolen :
      (i e t : ℕ)
      → q.top ≡ t
      → (t ≤ q.top) × (t ≡ q.top → (t < endpoint o q) × (e ≡ at_index q q.top))
      → InvAt (record q { top = succ64 t }) o (update th i Thief.idle) pushed (taken ++ e ∷ [])
  stolen i e t won fresh = record {
    sound = record {
      pow = v.sound.pow;
      room = v.sound.room;
      short = rw (endpoint-top o q (succ64 t)) (v.sound.short);
      ordered = rw (endpoint-top o q (succ64 t)) (omega (arith, next, left));
      fits = rw (endpoint-top o q (succ64 t)) (omega (arith, next, v.sound.fits));
      owner = owner-top o q (succ64 t) (omega (arith, next)) left (v.sound.owner);
    };
    safe = λ j. elim (ℕ_discrete i j) [
      | yes same ↦ rw (if_pos (ℕ_discrete i j) same) tt
      | no other ↦
          rw (if_neg (ℕ_discrete i j) other, endpoint-top o q (succ64 t))
            (Safe-keep (endpoint o q) q.top (at_index q q.top) (endpoint o q) (succ64 t) _ (th j)
              (omega (arith, next)) (λ same below. absurd (omega (arith, next))) (v.safe j))
    ];
    kept =
        rw
          (
            endpoint-top o q (succ64 t),
            in_flight-top o q (succ64 t),
            next,
            append_assoc taken (e ∷ []) (in_flight o q ++ rest),
          )
          (Perm.trans (rw first at (v.kept))
            (Perm.append_left taken (perm_middle (in_flight o q) rest)));
  }
    where
      left : q.top < endpoint o q
      left = rw (← won) at ((fresh.1 (sym won)).0)

      next : succ64 t ≡ suc q.top
      next = omega (arith, left, v.sound.short)

      rest : List ℕ
      rest = window q.capacity q.buffer (suc q.top) (endpoint o q - suc q.top)

      first : contents q (endpoint o q) ≡ e ∷ rest
      first =
          let longer : endpoint o q - q.top ≡ suc (endpoint o q - suc q.top) =
            omega (arith, left) in
          ap (window q.capacity q.buffer q.top) longer
          ∙ ap (λ x. x ∷ rest) (sym ((fresh.1 (sym won)).1))

-- Each access of a thief keeps the invariant.
pub rob-Inv :
    (i : ℕ) (t : Thief) (s : System)
    → s.thieves i ≡ t
    → Safe s.queue s.owner t
    → Inv s
    → Inv (rob i t s)
unfolding rob
rob-Inv i Thief.idle s e f v = v
rob-Inv i Thief.called s e f v = tell v i (Thief.loaded s.queue.top) (omega arith)
rob-Inv i (Thief.loaded t) s e f v = elim (Bool-cases (leb s.queue.bottom t)) [
  | inl empty ↦ rw empty (tell v i Thief.idle tt)
  | inr left ↦ rw left (tell v i (Thief.looping t) f)
]
rob-Inv i (Thief.looping t) s e f v = elim (Bool-cases (leb s.queue.bottom t)) [
  | inl empty ↦ rw empty (tell v i Thief.idle tt)
  | inr left ↦
      rw left (
        tell v i (Thief.ready t) (f, λ same. ground (arith, bottom-le-end s.owner s.queue v.sound)))
]
rob-Inv i (Thief.ready t) s e f v =
    tell v i (Thief.read (at_index s.queue t) t)
      (f.0, λ same. (f.1 same, ap (at_index s.queue) same))
rob-Inv i (Thief.read x t) s e f v = elim (Bool-cases (s.queue.top == t)) [
  | inl won ↦ rw won (stolen v i x t (ground arith) f)
  | inr lost ↦ rw lost (tell v i (Thief.looping s.queue.top) (omega arith))
]
