-- ===== src/Thread/Simple/Tests.antt =====
-- Runs of the pool, and the theorems at concrete runs.
use cpp_cores.Base.{ℕ, ◌<◌, arith, ◌≡◌, refl, true, false, List, [], ◌∷◌, ◌++◌}
use cpp_cores.Thread.Simple.{
  System, Worker, start, enqueue, ready, take_front, take_task, set_stop, notify_none, Step, Reach,
}
use cpp_cores.Thread.Simple.Awake.{SomeAwake, has_task, someone_awake}
use cpp_cores.Thread.Simple.Order.{taken_in_order, none_after_stop}

-- Two tasks are given, a worker takes the first, and the pool is destroyed.
abbrev one : System
one = enqueue 7 (start 1)

abbrev two : System
two = enqueue 8 one

abbrev taken : System
taken = take_task 0 two

abbrev stopped : System
stopped = set_stop taken

two_waiting : two.workers 0 ≡ Worker.waiting
unfolding enqueue start
two_waiting = refl

two-ready : ready two ≡ true
unfolding ready enqueue start
two-ready = refl

two_thread : 0 < two.num_threads
unfolding enqueue start
two_thread = omega arith

stopped_stop : stopped.stop ≡ true
unfolding set_stop
stopped_stop = refl

first_steps : Reach (start 1) taken
first_steps =
    Reach.later (Reach.later (Reach.later Reach.here (Step.enqueued 7)) (Step.enqueued 8))
      (Step.passed 0 two_thread two_waiting two-ready)

abbrev only_seven : List ℕ
only_seven = 7 ∷ []

taken_run : taken.started ≡ only_seven
unfolding take_task take_front enqueue start
taken_run = refl

taken_in_order_example : taken.enqueued ≡ taken.started ++ taken.tasks
taken_in_order_example = taken_in_order 1 taken first_steps

none_after_stop_example :
    (enqueue 9 stopped).stop ≡ true × (enqueue 9 stopped).started ≡ stopped.started
none_after_stop_example =
    none_after_stop stopped (enqueue 9 stopped) stopped_stop
      (Reach.later Reach.here (Step.enqueued 9))

-- Both calls of `enqueue` notify while nobody sleeps.
abbrev told : System
told = notify_none 0 (notify_none 1 two)

told_steps : Reach (start 1) told
unfolding notify_none enqueue start
told_steps =
    Reach.later
      (Reach.later (Reach.later (Reach.later Reach.here (Step.enqueued 7)) (Step.enqueued 8))
        (Step.notified_nobody 1 refl (λ i l. refl)))
      (Step.notified_nobody 0 refl (λ i l. refl))

told_threads : 0 < told.num_threads
unfolding notify_none enqueue start
told_threads = omega arith

told_running : told.stop ≡ false
unfolding notify_none enqueue start
told_running = refl

told_all : told.to_notify ≡ 0
unfolding notify_none
told_all = refl

told_task : has_task told.tasks ≡ true
unfolding notify_none enqueue start
told_task = refl

someone_awake_example : SomeAwake told.num_threads told.workers
someone_awake_example = someone_awake 1 told told_steps told_threads told_running told_all told_task
