-- ===== src/Memory/Pool/Tests.antt =====
-- Runs of the pool, and the theorem at a concrete run.
use cpp_cores.Base.{◌+◌, ◌*◌, ◌≡◌, refl, List, [], ◌∷◌, All, arith, inr, length}
use cpp_cores.Memory.Regions.{Region, Covered, Separate}
use cpp_cores.Memory.Pool.{
  System, Fresh, Step, Reach, start, new, call, new_region, new_block, asked, pool_usage,
}
use cpp_cores.Memory.Pool.Disjoint.{total, regions_apart}

-- 100 bytes, 50 more from the same block, and a region that is larger than a block.
abbrev empty : System
empty = start 64

abbrev one : System
one = call 1000 100 empty

abbrev two : System
two = call 5 50 one

abbrev three : System
three = call 200000 70000 two

abbrev addresses : List Region
addresses =
    record { from = 200000; size = 70000 }
    ∷ record { from = 1100; size = 50 }
    ∷ record { from = 1000; size = 100 }
    ∷ []

three_run : three.given ≡ addresses
unfolding call new_region new_block start new
three_run = refl

first-Fresh : Fresh 1000 100 empty
unfolding Fresh asked start new
first-Fresh = (omega arith, (tt, tt))

second-Fresh : Fresh 5 50 one
unfolding Fresh asked call new_region new_block start new
second-Fresh = (omega arith, tt)

third-Fresh : Fresh 200000 70000 two
unfolding Fresh asked call new_region new_block start new
third-Fresh = (omega arith, ((inr (omega arith), tt), tt))

abbrev three_calls : Reach empty three
three_calls =
    Reach.later
      (Reach.later (Reach.later Reach.here (Step.called 1000 100 first-Fresh))
        (Step.called 5 50 second-Fresh))
      (Step.called 200000 70000 third-Fresh)

regions_apart_example :
    All (λ r. Covered r three.owned) three.given
    × Separate three.given
    × pool_usage 8 three.pool ≡ 64 + total three.owned + length three.owned * 8
regions_apart_example = regions_apart 64 8 three three_calls
