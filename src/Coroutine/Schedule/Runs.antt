-- ===== src/Coroutine/Schedule/Runs.antt =====
-- What a create and a resume run, and what the schedule is then.
use cpp_cores.Base.{
  ℕ, zero, suc, ◌+◌, ◌≤◌, ◌<◌, ◌≡◌, refl, ap, ◌∙◌, true, false, ◌&&◌, List, [], ◌∷◌, Option, none,
  some, leb, ltb, ◌==◌, if◌then◌else◌, arith, Bool-cases, inl, inr,
}
use cpp_cores.Coroutine.Schedule.{
  ThreadState, Op, Uthread, Schedule, is_free, is_suspend, set_thread, body_end, uthread_yield, run,
  first_free, uthread_create, uthread_resume, all_free,
}

-- All that a function works, its calls of `uthread_yield` left out.
pub works : List Op → List ℕ
works [] = []
works (Op.work e ∷ ops) = e ∷ works ops
works (Op.yield ∷ ops) = works ops

-- What it works up to its first call of `uthread_yield`, and what it has left to do then, if it makes one.
pub works_before : List Op → List ℕ
works_before [] = []
works_before (Op.work e ∷ ops) = e ∷ works_before ops
works_before (Op.yield ∷ ops) = []

pub after_yield : List Op → Option (List Op)
after_yield [] = none
after_yield (Op.work e ∷ ops) = after_yield ops
after_yield (Op.yield ∷ ops) = some ops

-- A uthread that is suspended with what it has left, or free when it has ended.
abbrev pub stopped : Option (List Op) → Uthread
stopped none = record { state = ThreadState.free; ctx = [] }
stopped (some ops) = record { state = ThreadState.suspend; ctx = ops }

-- Where the schedule knows the uthread that runs, its first call of `uthread_yield` switches back.
pub run-works_before :
    (id : ℕ) (ops : List Op) (s : Schedule)
    → s.running_thread ≡ some id
    → run id ops s ≡ (
      works_before ops,
      record s {
        running_thread = none;
        threads = set_thread s.threads id (stopped (after_yield ops));
      },
    )
unfolding run works_before after_yield uthread_yield
run-works_before id [] s h = refl
run-works_before id (Op.work e ∷ ops) s h = ap (λ x. (e ∷ x.0, x.1)) (run-works_before id ops s h)
run-works_before id (Op.yield ∷ ops) s h = rw h refl

pub uthread_yield-none :
    (rest : List Op) (s : Schedule) → s.running_thread ≡ none → uthread_yield rest s ≡ none
unfolding uthread_yield
uthread_yield-none rest s h = rw h refl

-- Where it knows of none, no call does.
pub run-works :
    (id : ℕ) (ops : List Op) (s : Schedule)
    → s.running_thread ≡ none
    → run id ops s ≡ (works ops, body_end id s)
unfolding run works uthread_yield
run-works id [] s h = refl
run-works id (Op.work e ∷ ops) s h = ap (λ x. (e ∷ x.0, x.1)) (run-works id ops s h)
run-works id (Op.yield ∷ ops) s h =
    ap (λ o. elim o [ none ↦ run id ops s | some s' ↦ ([], s') ]) (uthread_yield-none ops s h)
    ∙ run-works id ops s h

-- The first free thread: all before it are not.
pub first_free_lem :
    (n id : ℕ) (threads : ℕ → Uthread)
    → id ≤ first_free n id threads
      × first_free n id threads ≤ id + n
      × ((j : ℕ) → id ≤ j → j < first_free n id threads → is_free (threads j).state ≡ false)
unfolding first_free
first_free_lem zero id threads = (omega arith, omega arith, λ j l h. absurd (omega arith))
first_free_lem (suc n) id threads = elim (Bool-cases (is_free (threads id).state)) [
  | inl e ↦ rw e (omega arith, omega arith, λ j l h. absurd (omega arith))
  | inr e ↦
      let (low, high, busy) = first_free_lem n (suc id) threads in
      rw e (
        omega arith,
        omega arith,
        λ j l h. elim (Bool-cases (id == j)) [
          | inl k ↦ let eq : id ≡ j = ground arith in rw⁻¹ eq e
          | inr k ↦ busy j (ground arith) h
        ],
      )
]

-- `uthread_create` takes the first free thread, or the one after the last when none is free, however
-- many there are. It does the function's work up to the first call of `uthread_yield`; then no
-- uthread runs, and this one is suspended with the rest, or free when there was no such call.
pub uthread_create_lem :
    (func : List Op) (s : Schedule)
    → let (id, log, s') = uthread_create func s in
      id ≤ s.max_index
      × ((j : ℕ) → j < id → is_free (s.threads j).state ≡ false)
      × log ≡ works_before func
      × (s'.running_thread ≡ none
          × s'.max_index ≡ (if id == s.max_index then s.max_index + 1 else s.max_index)
          × s'.threads id ≡ stopped (after_yield func))
unfolding uthread_create
uthread_create_lem func s =
    let (low, high, busy) = first_free_lem s.max_index 0 s.threads in
    let id : ℕ = first_free s.max_index 0 s.threads in
    let self : (id == id) ≡ true = ground arith in
    rw
      (run-works_before id func
        (record {
          running_thread = some id;
          max_index = if id == s.max_index then s.max_index + 1 else s.max_index;
          threads = set_thread s.threads id (record { state = ThreadState.runnable; ctx = [] });
        })
        refl)
      (omega arith, λ j h. busy j (omega arith) h, refl, (refl, refl, rw self refl))

-- When no uthread runs, `uthread_resume` of a suspended one does all the work that it has left: its calls
-- of `uthread_yield` do not switch back, and it is free then. On any other `id` nothing is done.
pub uthread_resume_lem :
    (id : ℕ) (s : Schedule)
    → s.running_thread ≡ none
    → uthread_resume id s ≡ (
        if ltb id s.max_index && is_suspend (s.threads id).state
        then (works (s.threads id).ctx, body_end id s)
        else ([], s))
unfolding uthread_resume
uthread_resume_lem id s h = elim (Bool-cases (leb s.max_index id)) [
  | inl e ↦ let past : ltb id s.max_index ≡ false = ground arith in rw (e, past) refl
  | inr e ↦
      let within : ltb id s.max_index ≡ true = ground arith in
      elim (Bool-cases (is_suspend (s.threads id).state)) [
        | inl k ↦ rw (e, within, k, run-works id (s.threads id).ctx s h) refl
        | inr k ↦ rw (e, within, k) refl
      ]
]

-- `schedule_finished` holds exactly when no uthread runs and all that were made are free.
pub all_free_sound :
    (n : ℕ) (threads : ℕ → Uthread)
    → all_free n threads ≡ true
    → (i : ℕ) → i < n
    → is_free (threads i).state ≡ true
unfolding all_free
all_free_sound zero threads h i l = absurd (omega arith)
all_free_sound (suc n) threads h i l = elim (Bool-cases (i == n)) [
  | inl e ↦
      let eq : i ≡ n = ground arith in
      let last : is_free (threads n).state ≡ true = ground arith in
      ap (λ x. is_free (threads x).state) eq ∙ last
  | inr e ↦ all_free_sound n threads (ground arith) i (ground arith)
]
