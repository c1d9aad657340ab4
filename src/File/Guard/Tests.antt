-- ===== src/File/Guard/Tests.antt =====
-- A run with two guards, and the theorems at it.
use cpp_cores.Base.{ℕ, ◌≡◌, ◌≢◌, refl, true, false, some}
use cpp_cores.File.Guard.{
  System, hand_over, update, move_assign, reset, Reach, here, next, opens, resets, start,
}
use cpp_cores.File.Guard.Keep.{IsValid, guards-IsValid}
use cpp_cores.File.Guard.Leak.{move_assign_leaks}

abbrev with_open : ℕ → System → System
with_open n s = record s { opened = update s.opened n true; loose = update s.loose n true }

abbrev one_held : System
one_held = reset 0 (some 3) (hand_over 3 (with_open 3 start))

abbrev two_held : System
two_held = reset 1 (some 4) (hand_over 4 (with_open 4 one_held))

two_held-Reach : Reach start two_held
unfolding start reset
two_held-Reach =
    next (next (next (next here (opens 3 refl)) (resets 0 3 refl)) (opens 4 refl)) (resets 1 4 refl)

first_held : two_held.fd 0 ≡ some 3
unfolding start reset
first_held = refl

-- The second guard's descriptor moves to the first.
moved : (move_assign 0 1 two_held).fd 0 ≡ some 4
unfolding start reset move_assign
moved = refl

guards-IsValid_example : IsValid two_held
guards-IsValid_example = guards-IsValid two_held-Reach

move_assign_leaks_example :
    let t = move_assign 0 1 two_held in
    (t.opened 3 ≡ true) × (t.loose 3 ≡ false) × ((k : ℕ) → t.fd k ≢ some 3)
move_assign_leaks_example = move_assign_leaks 0 1 3 two_held-Reach first_held refl
