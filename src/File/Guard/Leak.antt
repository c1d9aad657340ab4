-- ===== src/File/Guard/Leak.antt =====
-- Move assignment and what the guard held before.
use cpp_cores.Base.{ℕ, ◌≡◌, ◌≢◌, true, false, some, ◌==◌, arith}
use cpp_cores.File.Guard.{System, move_assign, Reach, start}
use cpp_cores.File.Guard.Keep.{guards-IsValid}

-- After any run, a move assignment to a guard that holds a descriptor, from another guard, leaves that
-- descriptor open, and no guard nor the caller holds it.
pub move_assign_leaks :
    {s : System} (g h n : ℕ)
    → Reach start s
    → s.fd g ≡ some n
    → (g == h) ≡ false
    → let t = move_assign g h s in
      (t.opened n ≡ true) × (t.loose n ≡ false) × ((k : ℕ) → t.fd k ≢ some n)
unfolding move_assign
move_assign_leaks {s} g h n r held other =
    let v = guards-IsValid r in
    let (open_, owned) = v.held g n held in
    rw other (open_, owned, λ k e. ground (arith, v.apart g k n held, v.apart g h n held))
