-- ===== src/Thread/Simple/Order.antt =====
-- The tasks are taken in the order in which they came, and none after the stop.
use cpp_cores.Base.{
  ℕ, ◌≡◌, refl, sym, ap, ◌∙◌, true, List, [], ◌∷◌, ◌++◌, append_assoc, Bool-cases, inl, inr,
}
use cpp_cores.Thread.Simple.{
  System, start, enqueue, take_front, take_task, run_task, set_stop, notify_one, notify_none,
  notify_all, fall_asleep, wake_up, Step, Reach,
}

abbrev pub InOrder : System → Type 0
InOrder s = s.enqueued ≡ s.started ++ s.tasks

pub take_front-InOrder :
    (i : ℕ) (l : List ℕ) (s : System) → s.tasks ≡ l → InOrder s → InOrder (take_front i l s)
unfolding take_front
take_front-InOrder i [] s e v = v
take_front-InOrder i (t ∷ ts) s e v =
    v ∙ ap (λ x. s.started ++ x) e ∙ sym (append_assoc s.started (t ∷ []) ts)

pub step-InOrder : {s s' : System} → Step s s' → InOrder s → InOrder s'
unfolding enqueue take_task run_task set_stop notify_one notify_none notify_all fall_asleep wake_up
step-InOrder {s} (Step.enqueued f) v =
    ap (λ x. x ++ f ∷ []) v ∙ append_assoc s.started s.tasks (f ∷ [])
step-InOrder {s} (Step.passed i l w r) v = elim (Bool-cases s.stop) [
  | inl e ↦ rw e v
  | inr e ↦ simp e (take_front-InOrder i s.tasks s refl v)
]
step-InOrder (Step.ran i t l w) v = v
step-InOrder (Step.notified k i e l w) v = v
step-InOrder (Step.notified_nobody k e l) v = v
step-InOrder (Step.slept i l w r) v = v
step-InOrder (Step.woken i l w) v = v
step-InOrder (Step.notified_all e) v = v
step-InOrder Step.stopped v = v

-- After any run, the tasks that were given to the pool are those that workers have taken, in the order in
-- which they came and each once, and after them those that wait in the queue.
pub taken_in_order : (n : ℕ) (s : System) → Reach (start n) s → s.enqueued ≡ s.started ++ s.tasks
unfolding start
taken_in_order n s Reach.here = refl
taken_in_order n s (Reach.later r t) = step-InOrder t (taken_in_order n _ r)

abbrev pub Frozen : System → System → Type 0
Frozen s s' = s'.stop ≡ true × s'.started ≡ s.started

pub step-Frozen : {s s' : System} → Step s s' → s.stop ≡ true → Frozen s s'
unfolding enqueue take_task run_task set_stop notify_one notify_none notify_all fall_asleep wake_up
step-Frozen {s} (Step.enqueued f) h = (h, refl)
step-Frozen {s} (Step.passed i l w r) h = rw h (refl, refl)
step-Frozen (Step.ran i t l w) h = (h, refl)
step-Frozen (Step.notified k i e l w) h = (h, refl)
step-Frozen (Step.notified_nobody k e l) h = (h, refl)
step-Frozen (Step.slept i l w r) h = (h, refl)
step-Frozen (Step.woken i l w) h = (h, refl)
step-Frozen (Step.notified_all e) h = (h, refl)
step-Frozen Step.stopped h = (refl, refl)

-- Once the destructor has set `stop`, no further task is taken: what is in the queue then, and what comes
-- later, is never run.
pub none_after_stop :
    (s s' : System) → s.stop ≡ true → Reach s s' → s'.stop ≡ true × s'.started ≡ s.started
none_after_stop s s' h Reach.here = (h, refl)
none_after_stop s s' h (Reach.later r t) =
    let (still, same) = none_after_stop s _ h r in
    let (now, kept) = step-Frozen t still in (now, kept ∙ same)
