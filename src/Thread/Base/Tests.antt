-- ===== src/Thread/Base/Tests.antt =====
-- A thread that has been started, has set its number and has left `Entry`, and a detached thread.
use cpp_cores.Base.{ℕ, ◌≡◌, ◌≢◌, refl, true, false, arith}
use cpp_cores.Thread.Base.{
  BaseThread, Started, base_thread, after_start, do_start, is_joinable, static_entry, Reach, start,
  enter, exit, here, later, Run,
}
use cpp_cores.Thread.Base.Lifecycle.{IsValid, lifecycle}

abbrev seven : ℕ
seven = 7

seven-ne : seven ≢ 0
seven-ne e = omega arith

left : (t : BaseThread) × Reach (base_thread false) t × (t.run ≡ Run.ended 42)
unfolding base_thread do_start is_joinable static_entry
left = (
  _,
  later
      (later (later (later (later here (start 0 seven 42 (λ ok. seven-ne))) enter) enter)
        (exit 42 refl))
      enter,
  refl,
)

lifecycle_example : (left.0.detached ≡ false) × IsValid left.0
lifecycle_example = lifecycle false left.1

-- A detached thread that has ended cannot be started again.
not_again :
    do_start 0 8 43 (
      static_entry
        (static_entry
          (after_start (base_thread true) (do_start 0 7 42 (base_thread true)))
          (Run.created 42))
        (Run.in_entry 42))
    ≡ Started.thrown
unfolding base_thread do_start is_joinable static_entry
not_again = refl
