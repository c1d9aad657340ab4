-- ===== src/Queue/Stealing/Fence/Ordered.antt =====
-- What holds where no load of `pop` overtakes the store in front of it.
use cpp_cores.Base.{
  if◌then◌else◌, ℕ, ◌+◌, ◌<◌, ◌≤◌, ◌≡◌, refl, sym, ap, ◌∙◌, Bool, true, false, List, ◌++◌, Option,
  none, some, length, arith,
}
use mathlib.Core.List.{Perm}
use cpp_cores.Queue.Stealing.{w64, System, own, Reach, start}
use cpp_cores.Queue.Stealing.Window.{IsPow}
use cpp_cores.Queue.Stealing.Invariant.{endpoint, in_flight, contents}
use cpp_cores.Queue.Stealing.Interleaved.{reached, pushed-taken, contents-bounded}
use cpp_cores.Queue.Stealing.PushHeld.{held, is_pushing, after_push, held-own}
use cpp_cores.Queue.Stealing.Fence.{
  Weak, load_early, in_order, overtaken, called, robbed, stored, WeakReach, here, later, weak,
}

abbrev is_some : Option ℕ → Bool
is_some none = false
is_some (some t) = true

abbrev InOrder : System → Weak → Type 0
InOrder s w = (w.early ≡ none) × Reach s w.system

early_not : (o : Option ℕ) (t : ℕ) → o ≡ none → o ≡ some t → ⊥
early_not o t e e' = let clash : false ≡ true = sym (ap is_some e) ∙ ap is_some e' in ground arith

WeakReach-InOrder : (s : System) {w : Weak} → WeakReach (weak s) w → w.overtakes ≡ 0 → InOrder s w
unfolding load_early
WeakReach-InOrder s here h = (refl, Reach.here)
WeakReach-InOrder s (later {u} r (in_order e st)) h =
    (e, Reach.later (WeakReach-InOrder s r h).1 st)
WeakReach-InOrder s (later {u} r (overtaken b e at)) h = absurd (omega arith)
WeakReach-InOrder s (later {u} r (called t i e at)) h =
    absurd (early_not u.early t (WeakReach-InOrder s r h).0 e)
WeakReach-InOrder s (later {u} r (robbed t i e)) h =
    absurd (early_not u.early t (WeakReach-InOrder s r h).0 e)
WeakReach-InOrder s (later {u} r (stored t b e at)) h =
    absurd (early_not u.early t (WeakReach-InOrder s r h).0 e)

module _ (capacity : ℕ) (cells : List ℕ) (pow : IsPow capacity) (room : length cells ≡ capacity)
    (short : capacity + 1 < w64) {w : Weak} (r : WeakReach (weak (start capacity cells)) w)
    (ordered : w.overtakes ≡ 0) where
  -- In a run where no load of `_top` in `pop` has overtaken the store of `_bottom` in front of it, which its
  -- fence does not exclude, and however the owner and the thieves interleave: what has been pushed is, in
  -- some order and as often, what `pop` and `steal` have returned, an element that `pop` has made sure of
  -- and not yet returned, and what the deque holds, so that no element is lost and none returned twice.
  pub no_loss_no_double :
      let s = w.system in
      Perm s.pushed
        (s.taken ++ (in_flight s.owner s.queue ++ contents s.queue (endpoint s.owner s.queue)))
  no_loss_no_double =
      pushed-taken capacity cells pow room short
        (WeakReach-InOrder (start capacity cells) r ordered).1

  -- In such a run the deque never holds more elements than its capacity, the accesses of `push` before the
  -- store of `_bottom` leave the elements that it holds as they are, and this store adds the new one behind
  -- them: no element is overwritten.
  pub within_capacity :
      let s = w.system in
      (length (held s) ≤ s.queue.capacity)
      × ((if is_pushing s.owner then held (own s.owner s) else held s)
          ≡ after_push s.owner (held s))
  within_capacity =
      let r' = (WeakReach-InOrder (start capacity cells) r ordered).1 in
      (
        contents-bounded capacity cells pow room short r',
        held-own w.system (reached capacity cells pow room short r'),
      )
