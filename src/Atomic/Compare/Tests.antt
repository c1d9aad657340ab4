-- ===== src/Atomic/Compare/Tests.antt =====
-- Two threads that race to exchange one value.
use cpp_cores.Base.{ℕ, ◌+◌, ◌<◌, ◌≡◌, refl, true, false, arith, ℕ_discrete}
use cpp_cores.Atomic.{atomic_compare_exchange}
use cpp_cores.Atomic.Compare.{
  Phase, System, exchanged, Reach, here, later, load, try_exchange, start,
}
use cpp_cores.Atomic.Compare.Winners.{winners_differ}

abbrev Counts : ℕ → ℕ → Type 0
Counts compare exchange = exchange ≡ compare + 1

-- Threads 0 and 1 have loaded 5, thread 0 has exchanged it for 6, and the exchange of thread 1 has failed,
-- with `*old` the value that it expected.
raced :
    (s : System) × Reach Counts (start 5) s
    × (s.threads 0 ≡ Phase.returned true 5)
    × (s.threads 1 ≡ Phase.returned false 5)
unfolding start exchanged atomic_compare_exchange ℕ_discrete
raced = (
  _,
  later
      (later (later (later here (load 0 5 6 refl refl)) (load 1 5 6 refl refl))
        (try_exchange 0 5 6 5 refl))
      (try_exchange 1 5 6 5 refl),
  refl,
  refl,
)

abbrev thread : ℕ
thread = 0

winners_differ_example : (thread ≡ thread) × (5 < raced.0.word)
winners_differ_example =
    winners_differ Counts (λ compare exchange e. omega arith) 5 raced.1 thread thread 5 raced.2
      raced.2
