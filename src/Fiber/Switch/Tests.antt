-- ===== src/Fiber/Switch/Tests.antt =====
-- Runs of fibers, and the theorems at concrete ones.
use cpp_cores.Base.{ℕ, ◌≡◌, refl, false, List, [], ◌∷◌, none, some}
use cpp_cores.Fiber.Switch.{State, Op, Thread, new_main, get_this, new_fiber, is_at}
use cpp_cores.Fiber.Switch.Calls.{calls_back}

abbrev nothing : Thread
nothing = record {
  fiber = λ p. record { id = 0; state = State.init; has_stack = false; ctx = []; cb = none };
  current = none;
  main = none;
  last_id = 0;
  count = 0;
}

abbrev rest : List Op
rest = Op.work 3 ∷ Op.ready_next ∷ []

abbrev func : List Op
func = Op.work 1 ∷ Op.work 2 ∷ Op.back ∷ rest

abbrev both : List ℕ
both = 1 ∷ 2 ∷ []

abbrev made : Thread
made = new_fiber 7 func (get_this 5 nothing).1

abbrev other : Thread
other = new_fiber 7 rest (get_this 5 nothing).1

made_main : made.main ≡ some 5
unfolding new_fiber get_this new_main
made_main = refl

made_ctx : (made.fiber 7).ctx ≡ func
unfolding new_fiber get_this new_main
made_ctx = refl

other_main : is_at 7 other.main ≡ false
unfolding new_fiber get_this new_main
other_main = refl

other_ctx : calls_back (other.fiber 7).ctx ≡ false
unfolding new_fiber get_this new_main calls_back
other_ctx = refl
