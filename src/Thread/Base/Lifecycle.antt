-- ===== src/Thread/Base/Lifecycle.antt =====
-- What the fields of a `BaseThread` say of its thread.
use cpp_cores.Base.{
  ℕ, ◌≡◌, refl, ◌∙◌, ◌≢◌, inl, inr, Bool, true, false, arith, ◌==◌, Bool-cases, if◌then◌else◌,
}
use cpp_cores.Base.Int.{ℤ, pos, negsuc}
use cpp_cores.Thread.Base.{
  Run, BaseThread, after_start, base_thread, is_joinable, do_start, join, static_entry, start,
  enter, exit, joined, Reach, here, later,
}
use mathlib.Core.Path.{subst}

-- The fields, of a thread that is or is not detached. A detached one keeps the number 0, and does not
-- count as alive.
abbrev pub Fields : Bool → Run → ℕ → ℤ → Bool → Type 0
Fields d Run.absent handle id is_alive = (id ≡ negsuc 0) × (is_alive ≡ false)
Fields true (Run.created n) handle id is_alive = (handle ≢ 0) × (id ≡ pos 0) × (is_alive ≡ false)
Fields true (Run.alive n) handle id is_alive = ⊥
Fields true (Run.in_entry n) handle id is_alive = (handle ≢ 0) × (id ≡ pos 0) × (is_alive ≡ false)
Fields true (Run.leaving n) handle id is_alive = (handle ≢ 0) × (id ≡ pos 0) × (is_alive ≡ false)
Fields true (Run.ended n) handle id is_alive = (handle ≢ 0) × (id ≡ pos 0) × (is_alive ≡ false)
Fields false (Run.created n) handle id is_alive = (handle ≢ 0) × (id ≡ pos 0) × (is_alive ≡ false)
Fields false (Run.alive n) handle id is_alive = (handle ≢ 0) × (id ≡ pos 0) × (is_alive ≡ true)
Fields false (Run.in_entry n) handle id is_alive = (handle ≢ 0) × (id ≡ pos n) × (is_alive ≡ true)
Fields false (Run.leaving n) handle id is_alive = (handle ≢ 0) × (id ≡ pos n)
Fields false (Run.ended n) handle id is_alive = (handle ≢ 0) × (id ≡ pos n) × (is_alive ≡ false)

abbrev pub IsValid : BaseThread → Type 0
IsValid t = Fields t.detached t.run t.m_handle t.m_id t.m_is_alive

enter-IsValid :
    (d : Bool) (run : Run) (handle : ℕ) (id : ℤ) (is_alive : Bool)
    → Fields d run handle id is_alive
    → IsValid (
        static_entry
          (record { detached = d; m_handle = handle; m_id = id; m_is_alive = is_alive; run = run })
          run)
unfolding static_entry
enter-IsValid d Run.absent handle id is_alive f = f
enter-IsValid true (Run.created n) handle id is_alive f = f
enter-IsValid false (Run.created n) handle id is_alive f = (f.0, f.1, refl)
enter-IsValid true (Run.alive n) handle id is_alive f = absurd f
enter-IsValid false (Run.alive n) handle id is_alive f = (f.0, refl, f.2)
enter-IsValid true (Run.in_entry n) handle id is_alive f = (f.0, f.1, refl)
enter-IsValid false (Run.in_entry n) handle id is_alive f = (f.0, f.1)
enter-IsValid true (Run.leaving n) handle id is_alive f = (f.0, f.1, refl)
enter-IsValid false (Run.leaving n) handle id is_alive f = (f.0, f.1, refl)
enter-IsValid true (Run.ended n) handle id is_alive f = f
enter-IsValid false (Run.ended n) handle id is_alive f = f

-- A thread without a handle has no thread of the system.
without_handle :
    (d : Bool) (run : Run) (handle : ℕ) (id : ℤ) (is_alive : Bool)
    → handle ≡ 0
    → Fields d run handle id is_alive
    → (run ≡ Run.absent) × (is_alive ≡ false)
without_handle d Run.absent handle id is_alive e f = (refl, f.1)
without_handle true (Run.created n) handle id is_alive e f = absurd (f.0 e)
without_handle false (Run.created n) handle id is_alive e f = absurd (f.0 e)
without_handle true (Run.alive n) handle id is_alive e f = absurd f
without_handle false (Run.alive n) handle id is_alive e f = absurd (f.0 e)
without_handle true (Run.in_entry n) handle id is_alive e f = absurd (f.0 e)
without_handle false (Run.in_entry n) handle id is_alive e f = absurd (f.0 e)
without_handle true (Run.leaving n) handle id is_alive e f = absurd (f.0 e)
without_handle false (Run.leaving n) handle id is_alive e f = absurd (f.0 e)
without_handle true (Run.ended n) handle id is_alive e f = absurd (f.0 e)
without_handle false (Run.ended n) handle id is_alive e f = absurd (f.0 e)

created-Fields :
    (d : Bool) (n handle : ℕ) (is_alive : Bool)
    → handle ≢ 0
    → is_alive ≡ false
    → Fields d (Run.created n) handle (pos 0) is_alive
created-Fields true n handle is_alive ne e = (ne, refl, e)
created-Fields false n handle is_alive ne e = (ne, refl, e)

leaving-Fields :
    (d : Bool) (n handle : ℕ) (id : ℤ) (is_alive : Bool)
    → Fields d (Run.in_entry n) handle id is_alive
    → Fields d (Run.leaving n) handle id is_alive
leaving-Fields true n handle id is_alive f = f
leaving-Fields false n handle id is_alive f = (f.0, f.1)

is_joinable-false : (t : BaseThread) → is_joinable t ≡ false → t.m_handle ≡ 0
unfolding is_joinable
is_joinable-false t e = ground arith

start-IsValid :
    (t : BaseThread) (error handle id : ℕ)
    → (error ≡ 0 → handle ≢ 0)
    → IsValid t
    → IsValid (after_start t (do_start error handle id t))
unfolding do_start
start-IsValid t error handle id ne v = elim (Bool-cases (is_joinable t)) [
  | inl e ↦ rw e v
  | inr e ↦
      let (no_run, dead) =
        without_handle t.detached t.run t.m_handle t.m_id t.m_is_alive (is_joinable-false t e) v in
      elim (Bool-cases (error == 0)) [
        | inl ok ↦
            rw (e, ok) (created-Fields t.detached id handle t.m_is_alive (ne (ground arith)) dead)
        | inr failed ↦ rw (e, failed, no_run) (refl, dead)
      ]
]

join-IsValid :
    (t : BaseThread) (id : ℕ)
    → t.detached ≡ false
    → t.run ≡ Run.ended id
    → IsValid t
    → IsValid (join t)
unfolding join
join-IsValid t id d at v =
    let f =
      subst (λ (x : Bool). Fields x (Run.ended id) t.m_handle t.m_id t.m_is_alive) d
        (subst (λ (r : Run). Fields t.detached r t.m_handle t.m_id t.m_is_alive) at v) in
    (refl, f.2)

Reach-IsValid : (d : Bool) {t : BaseThread} → Reach (base_thread d) t → IsValid t
unfolding base_thread
Reach-IsValid d here = (refl, refl)
Reach-IsValid d (later {u} r (start error handle id ne)) =
    start-IsValid u error handle id ne (Reach-IsValid d r)
Reach-IsValid d (later {u} r enter) =
    enter-IsValid u.detached u.run u.m_handle u.m_id u.m_is_alive (Reach-IsValid d r)
Reach-IsValid d (later {u} r (exit id at)) =
    leaving-Fields u.detached id u.m_handle u.m_id u.m_is_alive (
      subst (λ (x : Run). Fields u.detached x u.m_handle u.m_id u.m_is_alive) at
        (Reach-IsValid d r))
Reach-IsValid d (later {u} r (joined id same joinable at)) =
    join-IsValid u id same at (Reach-IsValid d r)

detached-start :
    (t : BaseThread) (error handle id : ℕ)
    → (after_start t (do_start error handle id t)).detached ≡ t.detached
unfolding do_start
detached-start t error handle id = elim (Bool-cases (is_joinable t)) [
  | inl e ↦ rw e refl
  | inr e ↦ elim (Bool-cases (error == 0)) [
    | inl ok ↦ rw (e, ok) refl
    | inr failed ↦ rw (e, failed) refl
  ]
]

detached-if :
    (b : Bool) (t u : BaseThread) (d : Bool)
    → t.detached ≡ d
    → u.detached ≡ d
    → (if b then t else u).detached ≡ d
detached-if true t u d e e' = e
detached-if false t u d e e' = e'

detached-static_entry : (t : BaseThread) (r : Run) → (static_entry t r).detached ≡ t.detached
unfolding static_entry
detached-static_entry t Run.absent = refl
detached-static_entry t (Run.created n) =
    detached-if t.detached (record t { run = Run.in_entry n })
      (record t { m_is_alive = true; run = Run.alive n }) t.detached refl refl
detached-static_entry t (Run.alive n) = refl
detached-static_entry t (Run.in_entry n) = refl
detached-static_entry t (Run.leaving n) = refl
detached-static_entry t (Run.ended n) = refl

detached-Reach : (d : Bool) {t : BaseThread} → Reach (base_thread d) t → t.detached ≡ d
unfolding base_thread join
detached-Reach d here = refl
detached-Reach d (later {u} r (start error handle id ne)) =
    detached-start u error handle id ∙ detached-Reach d r
detached-Reach d (later {u} r enter) = detached-static_entry u u.run ∙ detached-Reach d r
detached-Reach d (later {u} r (exit id at)) = detached-Reach d r
detached-Reach d (later {u} r (joined id same joinable at)) = detached-Reach d r

-- In every reachable state of a `BaseThread`, the fields are those that `Fields` gives for the state of
-- its thread: it is joinable while the thread of the system is there, has the number of the thread once
-- this has stored it and -1 when there is none, and counts as alive at most while the thread runs; but a
-- detached one has the number 0 from its start on and never counts as alive. Where there is no thread, the
-- handle can be any, as it is after a start that failed.
pub lifecycle : (d : Bool) {t : BaseThread} → Reach (base_thread d) t → (t.detached ≡ d) × IsValid t
lifecycle d r = (detached-Reach d r, Reach-IsValid d r)
