-- ===== src/Queue/Stealing/Fence/Tests.antt =====
-- A run in which an element is returned twice, and the theorems on the runs in order.
use cpp_cores.Base.{
  if◌then◌else◌, ℕ, ◌≤◌, ◌≡◌, refl, List, [], ◌∷◌, ◌++◌, length, arith, ℕ_discrete,
}
use mathlib.Core.List.{Perm}
use cpp_cores.Queue.Stealing.{
  Owner, own, rob, slot, call_push, call_pop, call_steal, owned, robbed, start,
}
use cpp_cores.Queue.Stealing.Invariant.{contents, in_flight, endpoint}
use cpp_cores.Queue.Stealing.PushHeld.{held, is_pushing, after_push}
use cpp_cores.Queue.Stealing.Fence.{Weak, load_early, store_late, WeakStep, WeakReach, weak}
use cpp_cores.Queue.Stealing.Fence.Ordered.{no_loss_no_double, within_capacity}

abbrev cells : List ℕ
cells = 0 ∷ 0 ∷ []

abbrev one_then_two : List ℕ
one_then_two = 7 ∷ 8 ∷ 8 ∷ []

-- 7 and 8 are pushed. The owner calls `pop` and loads `_top` early; two thieves take both elements; then
-- `pop` stores `_bottom` and returns 8 again.
returned_twice : (w : Weak) × WeakReach (weak (start 2 cells)) w × (w.system.taken ≡ one_then_two)
unfolding own rob slot ℕ_discrete load_early store_late
returned_twice = (
  _,
  (WeakReach.later
      (WeakReach.later
        (WeakReach.later
          (WeakReach.later
            (WeakReach.later
              (WeakReach.later
                (WeakReach.later
                  (WeakReach.later
                    (WeakReach.later
                      (WeakReach.later
                        (WeakReach.later
                          (WeakReach.later
                            (WeakReach.later
                              (WeakReach.later
                                (WeakReach.later
                                  (WeakReach.later
                                    (WeakReach.later
                                      (WeakReach.later
                                        (WeakReach.later
                                          (WeakReach.later
                                            (WeakReach.later
                                              (WeakReach.later
                                                (WeakReach.later
                                                  (WeakReach.later
                                                    (WeakReach.later
                                                      (WeakReach.later
                                                        (WeakReach.later
                                                          (WeakReach.later WeakReach.here (
                                                            WeakStep.in_order refl
                                                            (call_push 7 refl (omega arith))))
                                                          (WeakStep.in_order refl owned))
                                                        (WeakStep.in_order refl owned))
                                                      (WeakStep.in_order refl owned))
                                                    (WeakStep.in_order refl owned))
                                                  (WeakStep.in_order refl
                                                    (call_push 8 refl (omega arith))))
                                                (WeakStep.in_order refl owned))
                                              (WeakStep.in_order refl owned))
                                            (WeakStep.in_order refl owned))
                                          (WeakStep.in_order refl owned))
                                        (WeakStep.in_order refl (call_pop refl)))
                                      (WeakStep.in_order refl owned))
                                    (WeakStep.in_order refl owned))
                                  (WeakStep.overtaken 3 refl refl))
                                (WeakStep.called 1 0 refl refl))
                              (WeakStep.robbed 1 0 refl))
                            (WeakStep.robbed 1 0 refl))
                          (WeakStep.robbed 1 0 refl))
                        (WeakStep.robbed 1 0 refl))
                      (WeakStep.robbed 1 0 refl))
                    (WeakStep.called 1 1 refl refl))
                  (WeakStep.robbed 1 1 refl))
                (WeakStep.robbed 1 1 refl))
              (WeakStep.robbed 1 1 refl))
            (WeakStep.robbed 1 1 refl))
          (WeakStep.robbed 1 1 refl))
        (WeakStep.stored 1 3 refl refl))
      (WeakStep.in_order refl owned)),
  refl,
)

abbrev only_seven : List ℕ
only_seven = 7 ∷ []

-- 7 is in the deque, thief 0 has read it, and the owner is about to write 8.
pushing :
    (w : Weak) × WeakReach (weak (start 2 cells)) w
    × (w.overtakes ≡ 0)
    × (w.system.pushed ≡ only_seven)
    × (w.system.owner ≡ Owner.push_free 8 2)
unfolding own rob slot ℕ_discrete load_early store_late
pushing = (
  _,
  (WeakReach.later
      (WeakReach.later
        (WeakReach.later
          (WeakReach.later
            (WeakReach.later
              (WeakReach.later
                (WeakReach.later
                  (WeakReach.later
                    (WeakReach.later
                      (WeakReach.later
                        (WeakReach.later
                          (WeakReach.later
                            (WeakReach.later WeakReach.here
                              (WeakStep.in_order refl (call_push 7 refl (omega arith))))
                            (WeakStep.in_order refl owned))
                          (WeakStep.in_order refl owned))
                        (WeakStep.in_order refl owned))
                      (WeakStep.in_order refl owned))
                    (WeakStep.in_order refl (call_steal 0 refl)))
                  (WeakStep.in_order refl (robbed 0)))
                (WeakStep.in_order refl (robbed 0)))
              (WeakStep.in_order refl (robbed 0)))
            (WeakStep.in_order refl (robbed 0)))
          (WeakStep.in_order refl (call_push 8 refl (omega arith))))
        (WeakStep.in_order refl owned))
      (WeakStep.in_order refl owned)),
  refl,
  refl,
  refl,
)

no_loss_no_double_example :
    let s = pushing.0.system in
    Perm s.pushed
      (s.taken ++ (in_flight s.owner s.queue ++ contents s.queue (endpoint s.owner s.queue)))
no_loss_no_double_example =
    no_loss_no_double 2 cells (1, refl) refl (omega arith) pushing.1 pushing.2

within_capacity_example :
    let s = pushing.0.system in
    (length (held s) ≤ s.queue.capacity)
    × ((if is_pushing s.owner then held (own s.owner s) else held s) ≡ after_push s.owner (held s))
within_capacity_example = within_capacity 2 cells (1, refl) refl (omega arith) pushing.1 pushing.2
