-- ===== src/Thread/Toft/Order.antt =====
-- Each context runs its tasks in order, and before its worker ends those that were there when it was told to
-- exit.
use cpp_cores.Base.{
  ℕ, ◌%◌, ◌≡◌, refl, sym, ap, ◌∙◌, Bool, true, false, not, List, [], ◌∷◌, ◌++◌, append-nil,
  append_assoc, arith, Bool-cases, inl, inr, ℕ_discrete,
}
use mathlib.Core.Path.{subst}
use cpp_cores.Lock.Exclusive.{update, update_self, update_other}
use cpp_cores.Thread.Toft.{
  Place, Context, System, fresh, start, check_exit, push_task, add_task, get_pending_task, run_one,
  end_round, begin_exit, tell_exit, finish_exit, set_context, Step, Reach,
}

-- What the place of the worker says of its context.
abbrev pub Shape : Place → Context → Type 0
Shape Place.getting c = c.working_tasks ≡ []
Shape (Place.working true) c = Unit
Shape (Place.working false) c = c.exit ≡ true
Shape Place.ended c = c.exit ≡ true × c.working_tasks ≡ []

-- What was added is what was done, then what the loop has left, then what is pending.
abbrev pub Good : Context → Type 0
Good c = (c.added ≡ c.done ++ (c.working_tasks ++ c.pending_tasks)) × Shape c.place c

-- The tasks of `early` have been done or will be before the worker ends.
abbrev pub Covered : Place → List ℕ → Context → Type 0
Covered Place.getting early c = (rest : List ℕ) × (c.done ++ c.pending_tasks ≡ early ++ rest)
Covered (Place.working true) early c =
    (rest : List ℕ) × (c.done ++ (c.working_tasks ++ c.pending_tasks) ≡ early ++ rest)
Covered (Place.working false) early c =
    (rest : List ℕ) × (c.done ++ c.working_tasks ≡ early ++ rest)
Covered Place.ended early c = (rest : List ℕ) × (c.done ≡ early ++ rest)

-- What is kept of a context, of which `early` is looked at where `watched`.
abbrev Kept : Bool → List ℕ → Context → Type 0
Kept watched early c = Good c × (watched ≡ true → Covered c.place early c)

pub update_all :
    (P : ℕ → Context → Type 0) (f : ℕ → Context) (i : ℕ) (c : Context)
    → P i c
    → ((j : ℕ) → P j (f j))
    → (j : ℕ) → P j (update f i c j)
update_all P f i c h all j = elim (ℕ_discrete i j) [
  | yes same ↦ subst (λ k. P k (update f i c k)) same (subst (P i) (sym (update_self f i c)) h)
  | no ne ↦ subst (P j) (sym (update_other f i j c ne)) (all j)
]

push-Shape : (p : Place) (f : ℕ) (c : Context) → Shape p c → Shape p (push_task f c)
unfolding push_task
push-Shape Place.getting f c s = s
push-Shape (Place.working true) f c s = tt
push-Shape (Place.working false) f c s = s
push-Shape Place.ended f c s = s

push-Covered :
    (p : Place) (early : List ℕ) (f : ℕ) (c : Context)
    → Covered p early c
    → Covered p early (push_task f c)
unfolding push_task
push-Covered Place.getting early f c (rest, e) = (
  rest ++ f ∷ [],
  sym (append_assoc c.done c.pending_tasks (f ∷ []))
      ∙ ap (λ x. x ++ f ∷ []) e
      ∙ append_assoc early rest (f ∷ []),
)
push-Covered (Place.working true) early f c (rest, e) = (
  rest ++ f ∷ [],
  ap (λ x. c.done ++ x) (sym (append_assoc c.working_tasks c.pending_tasks (f ∷ [])))
      ∙ sym (append_assoc c.done (c.working_tasks ++ c.pending_tasks) (f ∷ []))
      ∙ ap (λ x. x ++ f ∷ []) e
      ∙ append_assoc early rest (f ∷ []),
)
push-Covered (Place.working false) early f c v = v
push-Covered Place.ended early f c v = v

module _ (watched : Bool) (early : List ℕ) where
  push-Kept : (f : ℕ) (c : Context) → Kept watched early c → Kept watched early (push_task f c)
  unfolding push_task
  push-Kept f c ((line, s), v) = (
    (
      ap (λ x. x ++ f ∷ []) line
          ∙ append_assoc c.done (c.working_tasks ++ c.pending_tasks) (f ∷ [])
          ∙ ap (λ x. c.done ++ x) (append_assoc c.working_tasks c.pending_tasks (f ∷ [])),
      push-Shape c.place f c s,
    ),
    λ w. push-Covered c.place early f c (v w),
  )

  get-Kept :
      (c : Context)
      → c.place ≡ Place.getting
      → Kept watched early c
      → Kept watched early (get_pending_task c)
  unfolding get_pending_task
  get-Kept c at ((line, s), v) =
      let empty : c.working_tasks ≡ [] = subst (λ p. Shape p c) at s in
      let swapped : c.done ++ (c.pending_tasks ++ c.working_tasks) ≡ c.done ++ c.pending_tasks =
        ap (λ x. c.done ++ (c.pending_tasks ++ x)) empty
        ∙ ap (λ x. c.done ++ x) (append-nil c.pending_tasks) in
      let all = line ∙ ap (λ x. c.done ++ (x ++ c.pending_tasks)) empty ∙ sym swapped in
      let before : watched ≡ true → Covered Place.getting early c =
        λ w. subst (λ p. Covered p early c) at (v w) in
      let c' : Bool → Context = λ b. record c {
        pending_tasks = c.working_tasks;
        working_tasks = c.pending_tasks;
        place = Place.working b;
      } in
      elim (Bool-cases c.exit) [
        | inl k ↦ subst (λ b. Kept watched early (c' (not b))) (sym k) ((all, k), before)
        | inr k ↦
            subst (λ b. Kept watched early (c' (not b))) (sym k)
              ((all, tt), λ w. let (rest, e) = before w in (rest, swapped ∙ e))
      ]

  run-Kept :
      (t : ℕ) (ts : List ℕ) (continued : Bool) (c : Context)
      → c.place ≡ Place.working continued
      → c.working_tasks ≡ t ∷ ts
      → Kept watched early c
      → Kept watched early (run_one t ts c)
  unfolding run_one
  run-Kept t ts continued c at first ((line, s), v) =
      let moved : (more : List ℕ)
          → c.done ++ (c.working_tasks ++ more) ≡ (c.done ++ t ∷ []) ++ (ts ++ more) =
        λ more.
          ap (λ x. c.done ++ (x ++ more)) first ∙ sym (append_assoc c.done (t ∷ []) (ts ++ more)) in
      (
        (
          line ∙ moved c.pending_tasks,
          subst (λ p. Shape p (run_one t ts c)) (sym at)
              (run-Shape continued (subst (λ p. Shape p c) at s)),
        ),
        λ w.
            subst (λ p. Covered p early (run_one t ts c)) (sym at)
              (run-Covered continued moved (subst (λ p. Covered p early c) at (v w))),
      )
    where
      run-Shape :
          (continued : Bool)
          → Shape (Place.working continued) c
          → Shape (Place.working continued) (run_one t ts c)
      run-Shape true s = tt
      run-Shape false s = s

      run-Covered :
          (continued : Bool)
          → ((more : List ℕ)
              → c.done ++ (c.working_tasks ++ more) ≡ (c.done ++ t ∷ []) ++ (ts ++ more))
          → Covered (Place.working continued) early c
          → Covered (Place.working continued) early (run_one t ts c)
      run-Covered true moved (rest, e) = (rest, sym (moved c.pending_tasks) ∙ e)
      run-Covered false moved (rest, e) = (
        rest,
        ap (λ x. (c.done ++ t ∷ []) ++ x) (sym (append-nil ts))
            ∙ sym (moved [])
            ∙ ap (λ x. c.done ++ x) (append-nil c.working_tasks)
            ∙ e,
      )

  end-Kept :
      (continued : Bool) (c : Context)
      → c.place ≡ Place.working continued
      → c.working_tasks ≡ []
      → Kept watched early c
      → Kept watched early (end_round continued c)
  unfolding end_round
  end-Kept true c at empty ((line, s), v) = (
    (line ∙ ap (λ x. c.done ++ (x ++ c.pending_tasks)) empty, refl),
    λ w.
        let (rest, e) = subst (λ p. Covered p early c) at (v w) in
        (rest, sym (ap (λ x. c.done ++ (x ++ c.pending_tasks)) empty) ∙ e),
  )
  end-Kept false c at empty ((line, s), v) = (
    (line ∙ ap (λ x. c.done ++ (x ++ c.pending_tasks)) empty, (subst (λ p. Shape p c) at s, refl)),
    λ w.
        let (rest, e) = subst (λ p. Covered p early c) at (v w) in
        (rest, sym (append-nil c.done) ∙ sym (ap (λ x. c.done ++ x) empty) ∙ e),
  )

  told-Kept : (c : Context) → Kept watched early c → Kept watched early (record c { exit = true })
  told-Kept c ((line, s), v) = ((line, told-Shape c.place s), λ w. told-Covered c.place (v w))
    where
      told-Shape : (p : Place) → Shape p c → Shape p (record c { exit = true })
      told-Shape Place.getting s = s
      told-Shape (Place.working true) s = tt
      told-Shape (Place.working false) s = refl
      told-Shape Place.ended (h, k) = (refl, k)

      told-Covered : (p : Place) → Covered p early c → Covered p early (record c { exit = true })
      told-Covered Place.getting v = v
      told-Covered (Place.working true) v = v
      told-Covered (Place.working false) v = v
      told-Covered Place.ended v = v

-- The same of all contexts.
abbrev AllKept : (ℕ → Bool) → (ℕ → List ℕ) → System → Type 0
AllKept watched early s = (i : ℕ) → Kept (watched i) (early i) (s.contexts i)

module _ (watched : ℕ → Bool) (early : ℕ → List ℕ) where
  set_context-Kept :
      (s : System) (i : ℕ) (c : Context)
      → Kept (watched i) (early i) c
      → AllKept watched early s
      → AllKept watched early (set_context i c s)
  set_context-Kept s i c h v = update_all (λ j x. Kept (watched j) (early j) x) s.contexts i c h v

  step-Kept : {s s' : System} → Step s s' → AllKept watched early s → AllKept watched early s'
  unfolding check_exit add_task begin_exit tell_exit finish_exit
  step-Kept {s} (Step.checked j f k at) v = elim (Bool-cases s.exit) [
    | inl e ↦ rw e v
    | inr e ↦ rw e v
  ]
  step-Kept {s} (Step.added j f k at l) v =
      let i : ℕ = k % s.num_threads in
      set_context-Kept s i _ (push-Kept (watched i) (early i) f (s.contexts i) (v i)) v
  step-Kept {s} (Step.got i l at h) v =
      set_context-Kept s i _ (get-Kept (watched i) (early i) (s.contexts i) at (v i)) v
  step-Kept {s} (Step.ran i t ts continued at first) v =
      set_context-Kept s i _
        (run-Kept (watched i) (early i) t ts continued (s.contexts i) at first (v i)) v
  step-Kept {s} (Step.round_ended i true at empty) v =
      set_context-Kept s i _ (end-Kept (watched i) (early i) true (s.contexts i) at empty (v i)) v
  step-Kept {s} (Step.round_ended i false at empty) v =
      set_context-Kept s i _ (end-Kept (watched i) (early i) false (s.contexts i) at empty (v i)) v
  step-Kept {s} Step.exit_begun v = v
  step-Kept {s} (Step.exit_told i e) v =
      set_context-Kept s i _ (told-Kept (watched i) (early i) (s.contexts i) (v i)) v
  step-Kept {s} (Step.exit_finished e h z) v = v

  run-AllKept : {s s' : System} → Reach s s' → AllKept watched early s → AllKept watched early s'
  run-AllKept Reach.here v = v
  run-AllKept (Reach.later r t) v = step-Kept t (run-AllKept r v)

reach-Good :
    (hardware n : ℕ) (s : System) → Reach (start hardware n) s → (i : ℕ) → Good (s.contexts i)
unfolding start fresh
reach-Good hardware n s r i =
    (run-AllKept (λ j. false) (λ j. []) r (λ j. ((refl, refl), λ w. absurd (ground arith))) i).0

-- After any run, what was added to a context is what its worker has run, then what is left in its loop,
-- then what is pending: each task once and in order.
pub context_in_order :
    (hardware n : ℕ) (s : System) (i : ℕ)
    → Reach (start hardware n) s
    → let c = s.contexts i in c.added ≡ c.done ++ (c.working_tasks ++ c.pending_tasks)
context_in_order hardware n s i r = (reach-Good hardware n s r i).0

-- All that has been added to a context that is not told to exit is covered.
Covered-now :
    (p : Place) (c : Context)
    → c.exit ≡ false
    → c.added ≡ c.done ++ (c.working_tasks ++ c.pending_tasks)
    → Shape p c
    → Covered p c.added c
Covered-now Place.getting c k line s =
    ([], sym (ap (λ x. c.done ++ (x ++ c.pending_tasks)) s) ∙ sym line ∙ sym (append-nil c.added))
Covered-now (Place.working true) c k line s = ([], sym line ∙ sym (append-nil c.added))
Covered-now (Place.working false) c k line s =
    let clash : true ≡ false = sym s ∙ k in absurd (ground arith)
Covered-now Place.ended c k line (s, e) =
    let clash : true ≡ false = sym s ∙ k in absurd (ground arith)

abbrev pub DoneBefore : Context → Context → Type 0
DoneBefore c c' =
    ((rest : List ℕ) × (c'.done ≡ c.added ++ rest)) × (c'.added ≡ c'.done ++ c'.pending_tasks)

-- When a worker has ended, it has run all that was added to its context before this was told to exit.
pub ended-DoneBefore :
    (hardware n : ℕ) (s s' : System) (i : ℕ)
    → Reach (start hardware n) s
    → (s.contexts i).exit ≡ false
    → Reach s s'
    → (s'.contexts i).place ≡ Place.ended
    → DoneBefore (s.contexts i) (s'.contexts i)
ended-DoneBefore hardware n s s' i r k r' at =
    let watched : ℕ → Bool = λ j. not (s.contexts j).exit in
    let early : ℕ → List ℕ = λ j. (s.contexts j).added in
    let now : AllKept watched early s = λ j.
      let (line, shape) = reach-Good hardware n s r j in
      (
        (line, shape),
        λ w. Covered-now (s.contexts j).place (s.contexts j) (ground arith) line shape,
      ) in
    let ((line, shape), v) = run-AllKept watched early r' now i in
    let c' = s'.contexts i in
    let (rest, e) = subst (λ p. Covered p (s.contexts i).added c') at (v (ap not k)) in
    let (h, empty) = subst (λ p. Shape p c') at shape in
    ((rest, e), line ∙ ap (λ x. c'.done ++ (x ++ c'.pending_tasks)) empty)
