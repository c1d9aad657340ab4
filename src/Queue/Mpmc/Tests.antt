-- ===== src/Queue/Mpmc/Tests.antt =====
-- Runs of the multi-producer multi-consumer queue, and its theorems at concrete queues.
use cpp_cores.Base.{ℕ, zero, suc, ◌≡◌, refl, Bool, false, [], ◌∷◌, none}
use cpp_cores.Queue.Mpmc.{Mpmc, fresh, new, push, push_loop}
use cpp_cores.Queue.Mpmc.Stuck.{pop_count_at, push_never_returns}

abbrev reliable : ℕ → Bool
reliable round = false

-- Pushing to a fresh queue stores the element over and over.
pushed : (push 3 reliable 3 (new 3 reliable) 7).1 ≡ record {
  slots =
      record { val = 7; pop_count = 0; push_count = 1 }
      ∷ record { val = 7; pop_count = 0; push_count = 1 }
      ∷ fresh
      ∷ [];
  r_count = 0;
  w_count = 2;
}
unfolding push push_loop new
pushed = refl

-- Three slots that hold 4, 5 and 6, all of them pushed for the second revolution.
abbrev second_turn : Mpmc
second_turn = record {
  slots =
      record { val = 4; pop_count = 0; push_count = 2 }
      ∷ record { val = 5; pop_count = 0; push_count = 2 }
      ∷ record { val = 6; pop_count = 0; push_count = 2 }
      ∷ [];
  r_count = 3;
  w_count = 6;
}

no_pops : (i : ℕ) → pop_count_at second_turn i ≡ 0
no_pops zero = refl
no_pops (suc zero) = refl
no_pops (suc (suc zero)) = refl
no_pops (suc (suc (suc i))) = refl

push_never_returns_example : (push 3 reliable 100 second_turn 7).0 ≡ none
push_never_returns_example = push_never_returns 3 reliable 100 second_turn 7
