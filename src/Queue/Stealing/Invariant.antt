-- ===== src/Queue/Stealing/Invariant.antt =====
-- Where the deque logically ends while `pop` is under way, who holds which element, and what the
-- threads know.
use cpp_cores.Base.{
  ℕ, suc, ◌+◌, ◌-◌, ◌<◌, ◌≤◌, ◌≡◌, ap, ◌∙◌, List, [], ◌∷◌, ◌++◌, ◌==◌, if◌then◌else◌, get_or, arith,
  length,
}
use mathlib.Core.List.{Perm, perm_append_singleton}
use mathlib.Core.List.Perm
use cpp_cores.Queue.Stealing.{Deque, w64, slot, Owner, Thief, System}
use cpp_cores.Queue.Stealing.Window.{IsPow, window, window-snoc}

abbrev pub at_index : Deque → ℕ → ℕ
at_index q i = get_or q.buffer (slot q.capacity i) 0

-- The end of the deque: `_bottom`, or one more while `pop` has lowered `_bottom` and not yet made
-- sure of the last element.
abbrev pub endpoint : Owner → Deque → ℕ
endpoint (Owner.pop_lowered b) q = b
endpoint (Owner.pop_got t b) q = if t == q.bottom then b else q.bottom
endpoint (Owner.pop_last e t b) q = b
endpoint (Owner.pop_restore b) q = b
endpoint _ q = q.bottom

-- An element that `pop` has made sure of and not yet returned.
abbrev pub in_flight : Owner → Deque → List ℕ
in_flight (Owner.pop_got t b) q = if t == q.bottom then [] else at_index q q.bottom ∷ []
in_flight _ q = []

abbrev pub contents : Deque → ℕ → List ℕ
contents q end = window q.capacity q.buffer q.top (end - q.top)

abbrev pub OwnerFresh : Deque → Owner → Type 0
OwnerFresh q Owner.idle = Unit
OwnerFresh q (Owner.push_called e) = q.bottom + q.capacity + 1 < w64
OwnerFresh q (Owner.push_loaded e b) = (b ≡ q.bottom) × (q.bottom + q.capacity + 1 < w64)
OwnerFresh q (Owner.push_free e b) =
    (b ≡ q.bottom) × (q.bottom + q.capacity + 1 < w64) × (b < q.top + q.capacity)
OwnerFresh q (Owner.push_written e b) =
    (b ≡ q.bottom)
    × (q.bottom + q.capacity + 1 < w64)
    × (b < q.top + q.capacity)
    × (at_index q b ≡ e)
OwnerFresh q Owner.pop_called = Unit
OwnerFresh q (Owner.pop_loaded b) = b ≡ q.bottom
OwnerFresh q (Owner.pop_some b) = (b ≡ q.bottom) × (0 < b)
OwnerFresh q (Owner.pop_lowered b) = suc q.bottom ≡ b
OwnerFresh q (Owner.pop_got t b) = (suc q.bottom ≡ b) × (t ≤ q.bottom) × (t ≤ q.top)
OwnerFresh q (Owner.pop_last e t b) =
    (suc q.bottom ≡ b) × (t ≡ q.bottom) × (t ≤ q.top) × (at_index q t ≡ e)
OwnerFresh q (Owner.pop_restore b) = (suc q.bottom ≡ b) × (q.top ≡ b)

-- `end` is the end of the deque, `first` the element at `top`.
abbrev pub ThiefFresh : ℕ → ℕ → ℕ → Thief → Type 0
ThiefFresh end top first Thief.idle = Unit
ThiefFresh end top first Thief.called = Unit
ThiefFresh end top first (Thief.loaded t) = t ≤ top
ThiefFresh end top first (Thief.looping t) = t ≤ top
ThiefFresh end top first (Thief.ready t) = (t ≤ top) × (t ≡ top → t < end)
ThiefFresh end top first (Thief.read e t) = (t ≤ top) × (t ≡ top → (t < end) × (e ≡ first))

-- What holds of the queue while the owner is at `o`.
pub record Sound (q : Deque) (o : Owner) : Type 0 where
  pub pow : IsPow q.capacity
  pub room : length q.buffer ≡ q.capacity
  pub short : endpoint o q + q.capacity < w64
  pub ordered : q.top ≤ endpoint o q
  pub fits : endpoint o q ≤ q.top + q.capacity
  pub owner : OwnerFresh q o

abbrev pub Safe : Deque → Owner → Thief → Type 0
Safe q o t = ThiefFresh (endpoint o q) q.top (at_index q q.top) t

-- Everything pushed, in some order: returned, about to be returned, or in the deque.
abbrev pub Kept : Deque → Owner → List ℕ → List ℕ → Type 0
Kept q o pushed taken = Perm pushed (taken ++ (in_flight o q ++ contents q (endpoint o q)))

pub record InvAt (q : Deque) (o : Owner) (thieves : ℕ → Thief) (pushed taken : List ℕ)
    : Type 0 where
  pub sound : Sound q o
  pub safe : (i : ℕ) → Safe q o (thieves i)
  pub kept : Kept q o pushed taken

abbrev pub Inv : System → Type 0
Inv s = InvAt s.queue s.owner s.thieves s.pushed s.taken

-- A thief's knowledge survives if `top` only grows and the element at an unmoved `top` stays.
pub Safe-keep :
    (end top first end' top' first' : ℕ) (t : Thief)
    → top ≤ top'
    → (top ≡ top' → top < end → (top' < end') × (first ≡ first'))
    → ThiefFresh end top first t
    → ThiefFresh end' top' first' t
Safe-keep end top first end' top' first' Thief.idle grow stay f = tt
Safe-keep end top first end' top' first' Thief.called grow stay f = tt
Safe-keep end top first end' top' first' (Thief.loaded t) grow stay f = omega arith
Safe-keep end top first end' top' first' (Thief.looping t) grow stay f = omega arith
Safe-keep end top first end' top' first' (Thief.ready t) grow stay f =
    (omega arith, λ e. ground arith)
Safe-keep end top first end' top' first' (Thief.read x t) grow stay f =
    (omega arith, λ e. ground arith)

-- The last element of the deque set aside.
pub Kept-split :
    (q : Deque) (pushed taken : List ℕ) (end : ℕ)
    → q.top ≤ end
    → Perm pushed (taken ++ contents q (suc end))
    → Perm pushed (taken ++ (at_index q end ∷ contents q end))
Kept-split q pushed taken end le p =
    let longer : suc end - q.top ≡ suc (end - q.top) = omega arith in
    let last : q.top + (end - q.top) ≡ end = omega arith in
    let whole : contents q (suc end) ≡ contents q end ++ at_index q end ∷ [] =
      ap (window q.capacity q.buffer q.top) longer
      ∙ window-snoc q.capacity q.buffer q.top (end - q.top)
      ∙ ap (λ i. contents q end ++ at_index q i ∷ []) last in
    Perm.trans (rw whole at p)
      (Perm.append_left taken (perm_append_singleton (at_index q end) (contents q end)))
