-- ===== src/Thread/Toft/Tests.antt =====
-- Runs of the pool, and the theorems at concrete runs.
use cpp_cores.Base.{arith, ◌<◌, ℕ, ◌≡◌, refl, true, false, List, [], ◌∷◌, ◌++◌}
use native.Mathlib.Decide.{ℕ_discrete}
use cpp_cores.Thread.Toft.{
  Place, System, fresh, start, check_exit, push_task, add_task, has_work, get_pending_task, run_one,
  end_round, begin_exit, tell_exit, set_context, less_busy, Step, Reach,
}
use cpp_cores.Thread.Toft.Busy.{terminated_all_done}

-- A pool of one thread: a task is added, the pool is told to exit, and the worker runs the task and ends.
abbrev empty : System
empty = start 8 1

abbrev called : System
called = check_exit 0 7 3 empty

abbrev added : System
added = add_task 0 7 3 called

-- A second thread has tested `m_exit` before the pool is told to exit.
abbrev second : System
second = check_exit 1 9 3 added

abbrev exiting : System
exiting = tell_exit 0 (begin_exit second)

abbrev got : System
got = set_context 0 (get_pending_task (exiting.contexts 0)) exiting

abbrev ran : System
ran = set_context 0 (run_one 7 [] (got.contexts 0)) got

abbrev over : System
over = less_busy false (set_context 0 (end_round false (ran.contexts 0)) ran)

at_getting : (exiting.contexts 0).place ≡ Place.getting
unfolding start fresh check_exit push_task add_task begin_exit tell_exit ℕ_discrete
at_getting = refl

has_one : has_work (exiting.contexts 0) ≡ true
unfolding start fresh check_exit push_task add_task begin_exit tell_exit has_work ℕ_discrete
has_one = refl

at_working : (got.contexts 0).place ≡ Place.working false
unfolding start fresh check_exit push_task add_task begin_exit tell_exit get_pending_task ℕ_discrete
at_working = refl

abbrev only_seven : List ℕ
only_seven = 7 ∷ []

left_one : (got.contexts 0).working_tasks ≡ only_seven
unfolding start fresh check_exit push_task add_task begin_exit tell_exit get_pending_task ℕ_discrete
left_one = refl

still_working : (ran.contexts 0).place ≡ Place.working false
unfolding start fresh check_exit push_task add_task begin_exit tell_exit get_pending_task run_one
    ℕ_discrete
still_working = refl

left_none : (ran.contexts 0).working_tasks ≡ []
unfolding start fresh check_exit push_task add_task begin_exit tell_exit get_pending_task run_one
    ℕ_discrete
left_none = refl

begun : (begin_exit second).exit ≡ true
unfolding begin_exit
begun = refl

called_thread : 0 < called.num_threads
unfolding start check_exit
called_thread = omega arith

added_steps : Reach empty second
unfolding start fresh check_exit push_task add_task ℕ_discrete
added_steps =
    Reach.later
      (Reach.later (Reach.later Reach.here (Step.checked 0 7 3 refl))
        (Step.added 0 7 3 refl (omega arith)))
      (Step.checked 1 9 3 refl)

has_thread : 0 < exiting.num_threads
unfolding start check_exit push_task add_task begin_exit tell_exit
has_thread = omega arith

got_steps : Reach second got
got_steps =
    Reach.later (Reach.later (Reach.later Reach.here Step.exit_begun) (Step.exit_told 0 begun))
      (Step.got 0 has_thread at_getting has_one)

over_steps : Reach second over
over_steps =
    Reach.later (Reach.later got_steps (Step.ran 0 7 [] false at_working left_one))
      (Step.round_ended 0 false still_working left_none)

-- What it adds then is never run.
late : ((add_task 1 9 3 over).contexts 0).pending_tasks ≡ 9 ∷ []
unfolding start fresh check_exit push_task add_task begin_exit tell_exit get_pending_task run_one
    end_round ℕ_discrete
late = refl

not_told : (second.contexts 0).exit ≡ false
unfolding start fresh check_exit push_task add_task ℕ_discrete
not_told = refl

no_busy : over.num_busy_threads ≡ 0
unfolding start fresh check_exit push_task add_task begin_exit tell_exit get_pending_task run_one
    end_round ℕ_discrete
no_busy = refl

one_thread : 0 < (start 8 1).num_threads
unfolding start
one_thread = omega arith

terminated_all_done_example :
    ((rest : List ℕ) × ((over.contexts 0).done ≡ (second.contexts 0).added ++ rest))
    × ((over.contexts 0).added ≡ (over.contexts 0).done ++ (over.contexts 0).pending_tasks)
terminated_all_done_example =
    terminated_all_done 8 1 second over 0 added_steps not_told over_steps no_busy one_thread
