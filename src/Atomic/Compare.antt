-- ===== src/Atomic/Compare.antt =====
-- The overload of `AtomicCompareExchange` with `old`: a load of the word, and then the exchange. Any
-- number of threads call it.
pub mod Winners
mod Tests
use cpp_cores.Base.{ℕ, ◌≡◌, Bool, true, false, if◌then◌else◌}
use cpp_cores.Atomic.{atomic_compare_exchange}
use cpp_cores.Lock.Exclusive.{update}

-- Between the load and the exchange, a call has its arguments and what it has loaded; a call that has
-- returned has its result and `*old`.
pub data Phase : Type 0 where
  idle : Phase
  loaded : ℕ → ℕ → ℕ → Phase
  returned : Bool → ℕ → Phase

pub record System : Type 0 where
  pub word : ℕ
  pub threads : ℕ → Phase

abbrev pub apply : System → ℕ → Phase × ℕ → System
apply s i (p, word) = record { word = word; threads = update s.threads i p }

-- The second access.
pub exchanged : ℕ → ℕ → ℕ → ℕ → Phase × ℕ
exchanged compare exchange old word =
    let (done, word') = atomic_compare_exchange compare exchange word in
    (if done then Phase.returned true compare else Phase.returned false old, word')

-- The calls that the program makes are those with `Called compare exchange`.
module _ (Called : ℕ → ℕ → Type 0) where
  pub data Step (s : System) : System → Type 0 where
    load :
        (i compare exchange : ℕ)
        → s.threads i ≡ Phase.idle
        → Called compare exchange
        → Step s (apply s i (Phase.loaded compare exchange s.word, s.word))
    try_exchange :
        (i compare exchange old : ℕ)
        → s.threads i ≡ Phase.loaded compare exchange old
        → Step s (apply s i (exchanged compare exchange old s.word))
    use_result :
        (i : ℕ) (ok : Bool) (old : ℕ)
        → s.threads i ≡ Phase.returned ok old
        → Step s (apply s i (Phase.idle, s.word))

  pub data Reach (s : System) : System → Type 0 where
    here : Reach s s
    later : {t u : System} → Reach s t → Step t u → Reach s u

pub start : ℕ → System
start word = record { word = word; threads = λ i. Phase.idle }
