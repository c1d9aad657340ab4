-- ===== src/Fiber/Timer/Tests.antt =====
-- Runs of the timers, and the theorems at concrete managers.
use cpp_cores.Base.{mem, ℕ, ◌≡◌, refl, true, false, List, [], ◌∷◌, Option, none, some}
use cpp_cores.Fiber.Timer.{
  Timer, Manager, Callback, new, add_timer, add_condition_timer, list_expired, insert_timer, insert,
  before, has_timer, first_later, rolled_over, split_expired, lower_bound, skip_equal, fire, rearm,
}
use cpp_cores.Fiber.Timer.Steps.{Step, Reach, IsValid, reach-IsValid}

-- Timer 1 recurs each 50 ms; timer 2 is a condition timer.
abbrev nothing : ℕ → Timer
nothing p = record { recurring = false; ms = 0; next = 0; cb = none }

abbrev empty : Manager
empty = new 1000 nothing

abbrev one : Manager
one = (add_timer 1 50 (some (Callback.call 7)) true 1000 empty).1

abbrev two : Manager
two = (add_condition_timer 2 20 8 5 false 1010 one).1

fresh_first : mem 1 empty.timers ≡ false
unfolding new
fresh_first = refl

fresh : mem 2 one.timers ≡ false
unfolding add_timer insert_timer insert new
fresh = refl

abbrev two_steps : Reach empty two
two_steps =
    Reach.later (Reach.later Reach.here (Step.added 1 50 (Callback.call 7) true 1000 fresh_first))
      (Step.condition_added 2 20 8 5 false 1010 fresh)

reach-IsValid_example : IsValid two
reach-IsValid_example = reach-IsValid 1000 nothing two two_steps

abbrev members : List ℕ
members = 2 ∷ 1 ∷ []

two-timers : two.timers ≡ members
unfolding add_condition_timer add_timer insert_timer insert before new
two-timers = refl

-- At 1055 both have expired, in the order of their times, and timer 1 is armed again.
abbrev expired_callbacks : List (Option Callback)
expired_callbacks = some (Callback.when_alive 5 8) ∷ some (Callback.call 7) ∷ []

list_expired_run : (list_expired 1055 9 two).0 ≡ expired_callbacks
unfolding list_expired add_condition_timer add_timer insert_timer insert before new has_timer
    first_later rolled_over split_expired lower_bound skip_equal fire rearm
list_expired_run = refl

two-mem : mem 1 two.timers ≡ true
unfolding add_condition_timer add_timer insert_timer insert before new
two-mem = refl
