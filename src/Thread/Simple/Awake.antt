-- ===== src/Thread/Simple/Awake.antt =====
-- No wakeup is lost: the workers do not all sleep while there is something to do.
use cpp_cores.Base.{
  ℕ, ◌<◌, ◌≡◌, refl, sym, ap, ◌∙◌, Bool, true, false, ◌||◌, List, [], ◌∷◌, arith, Bool-cases,
  if◌then◌else◌, inl, inr,
}
use mathlib.Core.Path.{subst}
use cpp_cores.Lock.Exclusive.{update, update_self, update-cases}
use cpp_cores.Thread.Simple.{
  Worker, System, start, enqueue, ready, take_front, take_task, run_task, set_stop, notify_one,
  notify_none, notify_all, fall_asleep, wake_up, wake, is_sleeping, Step, Reach,
}

abbrev pub is_awake : Worker → Bool
is_awake Worker.waiting = true
is_awake Worker.sleeping = false
is_awake (Worker.busy t) = true
is_awake Worker.ended = false

abbrev pub is_ended : Worker → Bool
is_ended Worker.ended = true
is_ended _ = false

abbrev pub has_task : List ℕ → Bool
has_task [] = false
has_task (t ∷ ts) = true

abbrev pub SomeAwake : ℕ → (ℕ → Worker) → Type 0
SomeAwake n workers = (i : ℕ) × (i < n) × (is_awake (workers i) ≡ true)

-- While the pool runs no worker has ended; if there are tasks and all notifications have been made, some
-- worker is awake; and once it has been stopped and all have been notified, nobody sleeps.
abbrev Alive : ℕ → (ℕ → Worker) → Bool → ℕ → List ℕ → Bool → Type 0
Alive n workers stop to_notify tasks to_notify_all =
    (stop ≡ false → (i : ℕ) → is_ended (workers i) ≡ false)
    × (stop ≡ false → to_notify ≡ 0 → has_task tasks ≡ true → 0 < n → SomeAwake n workers)
    × (stop ≡ true → to_notify_all ≡ false → (i : ℕ) → is_sleeping (workers i) ≡ false)

abbrev Live : System → Type 0
Live s = Alive s.num_threads s.workers s.stop s.to_notify s.tasks s.to_notify_all

all_update :
    (test : Worker → Bool) (f : ℕ → Worker) (i : ℕ) (w : Worker)
    → test w ≡ false
    → ((j : ℕ) → test (f j) ≡ false)
    → (j : ℕ) → test (update f i w j) ≡ false
all_update test f i w h all j = elim (update-cases test f i w j) [
  | inl (same, e) ↦ e ∙ h
  | inr (ne, e) ↦ e ∙ all j
]

-- Worker `i` is awake after a step.
awake-Alive :
    (n : ℕ) (f : ℕ → Worker) (stop : Bool) (k k' : ℕ) (ts ts' : List ℕ) (a : Bool) (i : ℕ)
    (w : Worker)
    → i < n
    → is_awake w ≡ true
    → is_ended w ≡ false
    → is_sleeping w ≡ false
    → Alive n f stop k ts a
    → Alive n (update f i w) stop k' ts' a
awake-Alive n f stop k k' ts ts' a i w l up more calm (none_ended, some_awake, none_asleep) = (
  λ running. all_update is_ended f i w more (none_ended running),
  λ running done full threads. (i, l, ap is_awake (update_self f i w) ∙ up),
  λ over told. all_update is_sleeping f i w calm (none_asleep over told),
)

no_tasks :
    (stop : Bool) (ts : List ℕ)
    → (stop || elim ts as (λ x. Bool) [ [] ↦ false | t ∷ l ↦ true ]) ≡ false
    → has_task ts ≡ false
no_tasks true ts e = absurd (ground arith)
no_tasks false [] e = refl
no_tasks false (t ∷ ts) e = absurd (ground arith)

not_stopped : (stop b : Bool) → (stop || b) ≡ false → stop ≡ false
not_stopped true b e = absurd (ground arith)
not_stopped false b e = refl

sleep-Alive : (s : System) (i : ℕ) → ready s ≡ false → Live s → Live (fall_asleep i s)
unfolding ready fall_asleep
sleep-Alive s i e (none_ended, some_awake, none_asleep) =
    let running = not_stopped s.stop _ e in
    (
      λ r. all_update is_ended s.workers i Worker.sleeping refl (none_ended r),
      λ r done full threads.
          let clash : true ≡ false = sym full ∙ no_tasks s.stop s.tasks e in absurd (ground arith),
      λ over. let clash : true ≡ false = sym over ∙ running in absurd (ground arith),
    )

-- A worker that is not asleep has not ended, while the pool runs.
awake_or : (w : Worker) → is_sleeping w ≡ false → is_ended w ≡ false → is_awake w ≡ true
awake_or Worker.waiting a b = refl
awake_or Worker.sleeping a b = absurd (ground arith)
awake_or (Worker.busy t) a b = refl
awake_or Worker.ended a b = absurd (ground arith)

ended-wake : (w : Worker) → is_ended (wake w) ≡ is_ended w
ended-wake Worker.waiting = refl
ended-wake Worker.sleeping = refl
ended-wake (Worker.busy t) = refl
ended-wake Worker.ended = refl

sleeping-wake : (w : Worker) → is_sleeping (wake w) ≡ false
sleeping-wake Worker.waiting = refl
sleeping-wake Worker.sleeping = refl
sleeping-wake (Worker.busy t) = refl
sleeping-wake Worker.ended = refl

take-Live :
    (i : ℕ) (l : List ℕ) (s : System)
    → i < s.num_threads
    → s.tasks ≡ l
    → Live s
    → Live (take_front i l s)
unfolding take_front
take-Live i [] s few e v = v
take-Live i (t ∷ ts) s few e v =
    awake-Alive s.num_threads s.workers s.stop s.to_notify s.to_notify s.tasks ts s.to_notify_all i
      (Worker.busy t) few refl refl refl v

end-Live :
    (s : System) (i : ℕ)
    → s.stop ≡ true
    → Live s
    → Live (record s { workers = update s.workers i Worker.ended })
end-Live s i e (none_ended, some_awake, none_asleep) = (
  λ running. let clash : true ≡ false = sym e ∙ running in absurd (ground arith),
  λ running. let clash : true ≡ false = sym e ∙ running in absurd (ground arith),
  λ over told. all_update is_sleeping s.workers i Worker.ended refl (none_asleep over told),
)

step-Live : {s s' : System} → Step s s' → Live s → Live s'
unfolding enqueue take_task run_task set_stop notify_one notify_none notify_all wake_up
step-Live (Step.enqueued f) (none_ended, some_awake, none_asleep) =
    (none_ended, λ running done. absurd (omega arith), none_asleep)
step-Live {s} (Step.notified k i e l w) v =
    awake-Alive s.num_threads s.workers s.stop s.to_notify k s.tasks s.tasks s.to_notify_all i
      Worker.waiting l refl refl refl v
step-Live {s} (Step.notified_nobody k e none) (none_ended, some_awake, none_asleep) = (
  none_ended,
  λ running done full threads.
      (0, threads, awake_or (s.workers 0) (none 0 threads) (none_ended running 0)),
  none_asleep,
)
step-Live {s} (Step.slept i l w e) v = sleep-Alive s i e v
step-Live {s} (Step.woken i l w) v =
    awake-Alive s.num_threads s.workers s.stop s.to_notify s.to_notify s.tasks s.tasks
      s.to_notify_all i Worker.waiting l refl refl refl v
step-Live {s} (Step.passed i l w r) v =
    let over = record s { workers = update s.workers i Worker.ended } in
    let go = λ (b : Bool). Live (if b then over else take_front i s.tasks s) in
    elim (Bool-cases s.stop) [
      | inl e ↦ subst go (sym e) (end-Live s i e v)
      | inr e ↦ subst go (sym e) (take-Live i s.tasks s l refl v)
    ]
step-Live {s} (Step.ran i t l w) v =
    awake-Alive s.num_threads s.workers s.stop s.to_notify s.to_notify s.tasks s.tasks
      s.to_notify_all i Worker.waiting l refl refl refl v
step-Live Step.stopped (none_ended, some_awake, none_asleep) = (
  λ running. absurd (ground arith),
  λ running. absurd (ground arith),
  λ over told. absurd (ground arith),
)
step-Live {s} (Step.notified_all e) (none_ended, some_awake, none_asleep) = (
  λ running i. ended-wake (s.workers i) ∙ none_ended running i,
  λ running done full threads. (
    0,
    threads,
    awake_or (wake (s.workers 0)) (sleeping-wake (s.workers 0))
        (ended-wake (s.workers 0) ∙ none_ended running 0),
  ),
  λ over told i. sleeping-wake (s.workers i),
)

reach-Live : (n : ℕ) (s : System) → Reach (start n) s → Live s
unfolding start
reach-Live n s Reach.here =
    (λ running i. refl, λ running done full. absurd (ground arith), λ over. absurd (ground arith))
reach-Live n s (Reach.later r t) = step-Live t (reach-Live n _ r)

-- Once the pool has been stopped and the destructor has notified all, no worker sleeps.
pub nobody_asleep :
    (n : ℕ) (s : System)
    → Reach (start n) s
    → s.stop ≡ true
    → s.to_notify_all ≡ false
    → (i : ℕ) → is_sleeping (s.workers i) ≡ false
nobody_asleep n s r over told =
    let (none_ended, some_awake, none_asleep) = reach-Live n s r in none_asleep over told

-- In every reachable state of a pool with a thread that is not stopped, if there are tasks and every call
-- of `enqueue` has notified, some worker is awake: it is in a task or goes to test the queue.
pub someone_awake :
    (n : ℕ) (s : System)
    → Reach (start n) s
    → 0 < s.num_threads
    → s.stop ≡ false
    → s.to_notify ≡ 0
    → has_task s.tasks ≡ true
    → SomeAwake s.num_threads s.workers
someone_awake n s r threads running done full =
    let (none_ended, some_awake, none_asleep) = reach-Live n s r in
    some_awake running done full threads
