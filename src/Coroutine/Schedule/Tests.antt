-- ===== src/Coroutine/Schedule/Tests.antt =====
-- Runs of the schedule, and the theorems at concrete ones.
use cpp_cores.Base.{◌≡◌, refl, true, List, [], ◌∷◌, none}
use cpp_cores.Coroutine.Schedule.{
  Op, Schedule, new, uthread_yield, run, first_free, uthread_create, uthread_resume, all_free,
  schedule_finished,
}

-- Work, a yield, work, a yield, work.
abbrev func : List Op
func = Op.work 1 ∷ Op.yield ∷ Op.work 2 ∷ Op.yield ∷ Op.work 3 ∷ []

abbrev created : Schedule
created = (uthread_create func new).2

first_log : (uthread_create func new).1 ≡ 1 ∷ []
unfolding uthread_create run uthread_yield first_free new
first_log = refl

-- The second yield does not switch back.
resumed_log : (uthread_resume 0 created).0 ≡ 2 ∷ 3 ∷ []
unfolding uthread_resume uthread_create run uthread_yield first_free new
resumed_log = refl

finished_after : schedule_finished (uthread_resume 0 created).1 ≡ true
unfolding uthread_resume uthread_create run uthread_yield first_free new schedule_finished all_free
finished_after = refl

none_running : created.running_thread ≡ none
unfolding uthread_create run uthread_yield first_free new
none_running = refl
