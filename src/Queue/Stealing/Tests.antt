-- ===== src/Queue/Stealing/Tests.antt =====
-- Runs of the work-stealing queue.
use cpp_cores.Base.{ℕ, ◌≡◌, refl, false, List, [], ◌∷◌, some, arith, ℕ_discrete}
use cpp_cores.Queue.Stealing.{
  new, init, Owner, Thief, System, own, rob, slot, update, Reach, here, later, call_push, call_pop,
  call_steal, owned, robbed, start,
}

abbrev cells : List ℕ
cells = 0 ∷ 0 ∷ []

init_six : (init (some cells) 6 new).0 ≡ false
unfolding init new
init_six = refl

-- The owner has pushed 7.
abbrev one_in : System
one_in = record {
  queue = record { bottom = 2; top = 1; capacity = 2; buffer = 0 ∷ 7 ∷ [] };
  owner = Owner.idle;
  thieves = λ _. Thief.idle;
  pushed = 7 ∷ [];
  taken = [];
}

one_in_reached : Reach (start 2 cells) one_in
unfolding own slot
one_in_reached =
    later (later (later (later (later here (call_push 7 refl (omega arith))) owned) owned) owned)
      owned

-- The owner competes for it with thief 0, which has read it too.
abbrev contest : System
contest = record {
  queue = record { bottom = 1; top = 1; capacity = 2; buffer = 0 ∷ 7 ∷ [] };
  owner = Owner.pop_last 7 1 2;
  thieves =
      update
        (update
          (update (update (update (λ _. Thief.idle) 0 Thief.called) 0 (Thief.loaded 1)) 0
            (Thief.looping 1))
          0 (Thief.ready 1))
        0 (Thief.read 7 1);
  pushed = 7 ∷ [];
  taken = [];
}

contest_reached : Reach (start 2 cells) contest
unfolding own rob slot ℕ_discrete
contest_reached =
    later
      (later
        (later
          (later
            (later
              (later
                (later
                  (later
                    (later (later (later one_in_reached (call_steal 0 refl)) (robbed 0)) (robbed 0))
                    (robbed 0))
                  (robbed 0))
                (call_pop refl))
              owned)
            owned)
          owned)
        owned)
      owned
