-- ===== src/Thread/Toft/Busy.antt =====
-- `m_num_busy_threads` counts the workers that have not ended, so `Terminate` waits for all of them.
use cpp_cores.Base.{
  ℕ, zero, suc, ◌+◌, ◌≤◌, ◌<◌, ◌≡◌, ◌≢◌, refl, sym, ap, ap₂, ◌∙◌, Bool, true, false, List, ◌++◌,
  if◌then◌else◌, ◌==◌, arith, Bool-cases, inl, inr, ℕ_discrete, ◌%◌, ltb,
}
use mathlib.Core.Path.{subst}
use cpp_cores.Lock.Exclusive.{update, update_self, update_other}
use cpp_cores.Thread.Toft.{
  Caller, Place, Context, System, fresh, start, check_exit, push_task, add_task, get_pending_task,
  run_one, end_round, begin_exit, tell_exit, finish_exit, set_context, less_busy, Step, Reach,
}
use cpp_cores.Thread.Toft.Order.{ended-DoneBefore}

abbrev pub is_ended : Place → Bool
is_ended Place.getting = false
is_ended (Place.working continued) = false
is_ended Place.ended = true

-- The workers below `n` that have not ended.
pub active : ℕ → (ℕ → Context) → ℕ
active zero f = 0
active (suc n) f = (if is_ended (f n).place then 0 else 1) + active n f

pub ended_update :
    (f : ℕ → Context) (i n : ℕ) (c : Context)
    → is_ended c.place ≡ is_ended (f i).place
    → is_ended (update f i c n).place ≡ is_ended (f n).place
ended_update f i n c h = elim (ℕ_discrete i n) [
  | yes same ↦
      subst (λ k. is_ended (update f i c k).place ≡ is_ended (f k).place) same
        (ap (λ x. is_ended x.place) (update_self f i c) ∙ h)
  | no ne ↦ ap (λ x. is_ended x.place) (update_other f i n c ne)
]

pub active-update_same :
    (n : ℕ) (f : ℕ → Context) (i : ℕ) (c : Context)
    → is_ended c.place ≡ is_ended (f i).place
    → active n (update f i c) ≡ active n f
unfolding active
active-update_same zero f i c h = refl
active-update_same (suc n) f i c h =
    let here : is_ended (update f i c n).place ≡ is_ended (f n).place = ended_update f i n c h in
    ap₂ (λ b x. (if b then 0 else 1) + x) here (active-update_same n f i c h)

pub active-update_past :
    (n : ℕ) (f : ℕ → Context) (i : ℕ) (c : Context) → n ≤ i → active n (update f i c) ≡ active n f
unfolding active
active-update_past zero f i c h = refl
active-update_past (suc n) f i c h =
    let other : update f i c n ≡ f n = update_other f i n c (λ e. absurd (omega arith)) in
    rw (other, active-update_past n f i c (omega arith)) refl

-- A worker that ends is one less.
pub active-update_less :
    (n : ℕ) (f : ℕ → Context) (i : ℕ) (c : Context)
    → i < n
    → is_ended (f i).place ≡ false
    → is_ended c.place ≡ true
    → suc (active n (update f i c)) ≡ active n f
unfolding active
active-update_less zero f i c l h k = absurd (omega arith)
active-update_less (suc n) f i c l h k = elim (Bool-cases (i == n)) [
  | inl e ↦
      let eq : i ≡ n = ground arith in
      let here : is_ended (update f i c n).place ≡ true =
        subst (λ j. is_ended (update f i c j).place ≡ true) eq
          (ap (λ x. is_ended x.place) (update_self f i c) ∙ k) in
      let before : is_ended (f n).place ≡ false = subst (λ j. is_ended (f j).place ≡ false) eq h in
      rw (here, before, active-update_past n f i c (omega arith)) omega arith
  | inr e ↦
      let away : i ≢ n = λ eq. absurd (ground arith) in
      let rest : suc (active n (update f i c)) ≡ active n f =
        active-update_less n f i c (ground arith) h k in
      rw (update_other f i n c away) omega (arith, rest)
]

pub active_zero :
    (n : ℕ) (f : ℕ → Context) → active n f ≡ 0 → (i : ℕ) → i < n → is_ended (f i).place ≡ true
unfolding active
active_zero zero f h i l = absurd (omega arith)
active_zero (suc n) f h i l = elim (Bool-cases (i == n)) [
  | inl e ↦
      let eq : i ≡ n = ground arith in
      elim (Bool-cases (is_ended (f n).place)) [
        | inl k ↦ subst (λ j. is_ended (f j).place ≡ true) (sym eq) k
        | inr k ↦
            let some : active (suc n) f ≡ suc (active n f) = rw k omega arith in
            absurd (omega (arith, some, h))
      ]
  | inr e ↦ active_zero n f (ground arith) i (ground arith)
]

-- What holds of the count while the pool runs, with `n` the number of its threads.
pub record Counted (n : ℕ) (s : System) : Type 0 where
  pub threads : s.num_threads ≤ n
  pub busy : s.num_busy_threads ≡ active n s.contexts
  pub others : (i : ℕ) → n ≤ i → (s.contexts i).place ≡ Place.getting

-- A context that changes without an end.
pub same-Counted :
    (n : ℕ) (s : System) (i : ℕ) (c : Context)
    → (n ≤ i → c.place ≡ Place.getting)
    → is_ended c.place ≡ is_ended (s.contexts i).place
    → Counted n s
    → Counted n (set_context i c s)
same-Counted n s i c g h v = record {
  threads = v.threads;
  busy = v.busy ∙ sym (active-update_same n s.contexts i c h);
  others = λ j l. elim (ℕ_discrete i j) [
    | yes same ↦
        subst (λ k. (update s.contexts i c k).place ≡ Place.getting) same
          (ap (λ x. x.place) (update_self s.contexts i c) ∙ g (rw same l))
    | no ne ↦ ap (λ x. x.place) (update_other s.contexts i j c ne) ∙ v.others j l
  ];
}

abbrev pub is_getting : Place → Bool
is_getting Place.getting = true
is_getting (Place.working continued) = false
is_getting Place.ended = false

-- A worker that is in its loop is one of the `n`.
pub working-within :
    (n i : ℕ) (continued : Bool) (s : System)
    → Counted n s
    → (s.contexts i).place ≡ Place.working continued
    → i < n
working-within n i continued s v at = elim (Bool-cases (ltb i n)) [
  | inl e ↦ ground arith
  | inr e ↦
      let clash : true ≡ false =
        sym (ap is_getting (v.others i (ground arith))) ∙ ap is_getting at in
      absurd (ground arith)
]

-- The end of a worker.
pub ended-Counted :
    (n : ℕ) (s : System) (i : ℕ) (c : Context)
    → i < n
    → is_ended (s.contexts i).place ≡ false
    → is_ended c.place ≡ true
    → Counted n s
    → Counted n (less_busy false (set_context i c s))
ended-Counted n s i c l h k v =
    let less : suc (active n (update s.contexts i c)) ≡ active n s.contexts =
      active-update_less n s.contexts i c l h k in
    record {
      threads = v.threads;
      busy = omega (arith, less, v.busy);
      others = λ j m.
          ap (λ x. x.place) (update_other s.contexts i j c (λ eq. absurd (omega arith)))
          ∙ v.others j m;
    }

pub step-Counted : (n : ℕ) {s s' : System} → Step s s' → Counted n s → Counted n s'
unfolding check_exit push_task add_task get_pending_task run_one end_round begin_exit tell_exit
    finish_exit
step-Counted n {s} (Step.checked j f k at) v =
    let more = record s { callers = update s.callers j (Caller.checked f k) } in
    let go = λ (b : Bool). Counted n (if b then s else more) in
    elim (Bool-cases s.exit) [
      | inl e ↦ subst go (sym e) v
      | inr e ↦ subst go (sym e) (record { threads = v.threads; busy = v.busy; others = v.others })
    ]
step-Counted n {s} (Step.added j f k at l) v =
    let i : ℕ = k % s.num_threads in
    let w = same-Counted n s i (push_task f (s.contexts i)) (v.others i) refl v in
    record { threads = w.threads; busy = w.busy; others = w.others }
step-Counted n {s} (Step.got i l at h) v =
    same-Counted n s i _ (λ m. absurd (omega (arith, v.threads))) (sym (ap is_ended at)) v
step-Counted n {s} (Step.ran i t ts continued at first) v = same-Counted n s i _ (v.others i) refl v
step-Counted n {s} (Step.round_ended i true at empty) v =
    same-Counted n s i _ (λ m. refl) (sym (ap is_ended at)) v
step-Counted n {s} (Step.round_ended i false at empty) v =
    ended-Counted n s i _ (working-within n i false s v at) (ap is_ended at) refl v
step-Counted n {s} Step.exit_begun v = record {
  threads = v.threads;
  busy = v.busy;
  others = v.others;
}
step-Counted n {s} (Step.exit_told i e) v = same-Counted n s i _ (v.others i) refl v
step-Counted n {s} (Step.exit_finished e h z) v = record {
  threads = omega arith;
  busy = v.busy;
  others = v.others;
}

pub active-fresh : (n : ℕ) → active n (λ i. fresh) ≡ n
unfolding active fresh
active-fresh zero = refl
active-fresh (suc n) = omega (arith, active-fresh n)

run-Counted : (n : ℕ) {s s' : System} → Reach s s' → Counted n s → Counted n s'
run-Counted n Reach.here v = v
run-Counted n (Reach.later r t) v = step-Counted n t (run-Counted n r v)

pub reach-Counted :
    (hardware threads : ℕ) (s : System)
    → Reach (start hardware threads) s
    → Counted (start hardware threads).num_threads s
unfolding start fresh
reach-Counted hardware threads s r =
    let n : ℕ = if threads == 0 then hardware else threads in
    run-Counted n r
      (record { threads = omega arith; busy = sym (active-fresh n); others = λ i l. refl })

-- When `m_num_busy_threads` is 0, which `Terminate` waits for, the worker of each context of the pool has
-- run, in order, all tasks that were added to the context before `Terminate` had set its `exit`, and
-- maybe some that came later; what it has not run came later and is pending.
pub terminated_all_done :
    (hardware threads : ℕ) (s s' : System) (i : ℕ)
    → Reach (start hardware threads) s
    → (s.contexts i).exit ≡ false
    → Reach s s'
    → s'.num_busy_threads ≡ 0
    → i < (start hardware threads).num_threads
    → ((rest : List ℕ) × ((s'.contexts i).done ≡ (s.contexts i).added ++ rest))
      × ((s'.contexts i).added ≡ (s'.contexts i).done ++ (s'.contexts i).pending_tasks)
terminated_all_done hardware threads s s' i r k r' z l =
    let n : ℕ = (start hardware threads).num_threads in
    let v : Counted n s' = run-Counted n r' (reach-Counted hardware threads s r) in
    let over : is_ended (s'.contexts i).place ≡ true =
      active_zero n s'.contexts (sym v.busy ∙ z) i l in
    ended-DoneBefore hardware threads s s' i r k r' (ended_place (s'.contexts i).place over)
  where
    ended_place : (p : Place) → is_ended p ≡ true → p ≡ Place.ended
    ended_place Place.getting h = absurd (ground arith)
    ended_place (Place.working continued) h = absurd (ground arith)
    ended_place Place.ended h = refl
