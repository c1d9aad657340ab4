-- ===== src/File/Guard/Keep.antt =====
-- No descriptor has two owners, and none is closed twice.
use cpp_cores.Base.{
  ℕ, ◌≡◌, refl, true, false, Option, none, some, ◌==◌, arith, Bool-cases, inl, inr,
}
use cpp_cores.File.Guard.{
  System, update, close, close_held, destroy, move_construct, move_assign, reset, release, take_up,
  hand_over, Step, opens, closes, destroys, constructs, assigns, resets, resets_none, releases,
  Reach, here, next, start,
}

pub record IsValid (s : System) : Type 0 where
  -- What a guard holds is open, and no one else holds it.
  pub held : (g n : ℕ) → s.fd g ≡ some n → (s.opened n ≡ true) × (s.loose n ≡ false)
  pub apart : (g h n : ℕ) → s.fd g ≡ some n → s.fd h ≡ some n → g ≡ h
  pub loose_open : (n : ℕ) → s.loose n ≡ true → s.opened n ≡ true
  pub sound : s.faulty ≡ false

opens-IsValid :
    (s : System) (n : ℕ)
    → s.opened n ≡ false
    → IsValid s
    → IsValid (record s { opened = update s.opened n true; loose = update s.loose n true })
opens-IsValid s n e v = record {
  held = λ g m h. ground (arith, v.held g m);
  apart = v.apart;
  loose_open = λ m h. ground (arith, v.loose_open m);
  sound = v.sound;
}

closes-IsValid :
    (s : System) (n : ℕ) → s.loose n ≡ true → IsValid s → IsValid (hand_over n (close n s))
closes-IsValid s n e v = record {
  held = λ g m h. ground (arith, v.held g m);
  apart = v.apart;
  loose_open = λ m h. ground (arith, v.loose_open m);
  sound = ground (arith, v.sound, v.loose_open n);
}

-- Closing what a guard holds, the first half of `reset`.
close_held-IsValid :
    (s : System) (g : ℕ) (o : Option ℕ)
    → s.fd g ≡ o
    → IsValid s
    → IsValid (close_held g o s) × ((close_held g o s).fd g ≡ none)
close_held-IsValid s g none e v = (v, e)
close_held-IsValid s g (some n) e v = (
  record {
    held = λ k m h. ground (arith, v.held k m, v.apart g k n);
    apart = λ k l m hk hl. ground (arith, v.apart k l m);
    loose_open = λ m h. ground (arith, v.loose_open m, v.held g n);
    sound = ground (arith, v.sound, v.held g n);
  },
  ground arith,
)

move-IsValid :
    (s : System) (g h : ℕ)
    → (g == h) ≡ false
    → IsValid s
    → IsValid (record s { fd = update (update s.fd g (s.fd h)) h none })
move-IsValid s g h e v = record {
  held = λ k m o. ground (arith, v.held k m, v.held h m);
  apart = λ k l m hk hl. ground (arith, v.apart k l m, v.apart h l m, v.apart k h m);
  loose_open = v.loose_open;
  sound = v.sound;
}

-- A descriptor that the caller holds goes to a guard that has none.
give-IsValid :
    (s : System) (g n : ℕ)
    → s.loose n ≡ true
    → s.fd g ≡ none
    → IsValid s
    → IsValid (record s { fd = update s.fd g (some n); loose = update s.loose n false })
give-IsValid s g n e empty v = record {
  held = λ k m h. ground (arith, v.held k m, v.loose_open n);
  apart = λ k l m hk hl. ground (arith, v.apart k l m, v.held k n, v.held l n);
  loose_open = λ m h. ground (arith, v.loose_open m);
  sound = v.sound;
}

-- The rest of `reset`, when the guard that is to take the descriptor held another one.
retake-IsValid :
    (s : System) (g n m : ℕ)
    → s.loose n ≡ true
    → s.fd g ≡ some m
    → IsValid s
    → IsValid (
        let s' = close_held g (some m) (hand_over n s) in
        record s' { fd = update s'.fd g (some n) })
retake-IsValid s g n m e full v = record {
  held = λ k l h. ground (arith, v.held k l, v.loose_open n, v.held g m, v.apart g k m);
  apart = λ k l j hk hl. ground (arith, v.apart k l j, v.held k n, v.held l n);
  loose_open = λ l h. ground (arith, v.loose_open l, v.held g m);
  sound = ground (arith, v.sound, v.held g m);
}

reset-IsValid :
    (s : System) (g n : ℕ) (o : Option ℕ)
    → s.loose n ≡ true
    → s.fd g ≡ o
    → IsValid s
    → IsValid
        (let s' = close_held g o (hand_over n s) in record s' { fd = update s'.fd g (some n) })
reset-IsValid s g n none e f v = give-IsValid s g n e f v
reset-IsValid s g n (some m) e f v = retake-IsValid s g n m e f v

-- A guard that is left without a descriptor.
empty-IsValid : (s : System) (g : ℕ) → IsValid s → IsValid (record s { fd = update s.fd g none })
empty-IsValid s g v = record {
  held = λ k m h. ground (arith, v.held k m);
  apart = λ k l m hk hl. ground (arith, v.apart k l m);
  loose_open = v.loose_open;
  sound = v.sound;
}

release-IsValid :
    (s : System) (g : ℕ) (o : Option ℕ)
    → s.fd g ≡ o
    → IsValid s
    → IsValid (take_up o (record s { fd = update s.fd g none }))
release-IsValid s g none e v = empty-IsValid s g v
release-IsValid s g (some n) e v = record {
  held = λ k m h. ground (arith, v.held k m, v.apart g k n);
  apart = λ k l m hk hl. ground (arith, v.apart k l m);
  loose_open = λ m h. ground (arith, v.loose_open m, v.held g n);
  sound = v.sound;
}

pub Step-IsValid : {s t : System} → Step s t → IsValid s → IsValid t
unfolding destroy move_construct move_assign reset release
Step-IsValid (opens {s} n e) v = opens-IsValid s n e v
Step-IsValid (closes {s} n e) v = closes-IsValid s n e v
Step-IsValid (destroys {s} g) v = (close_held-IsValid s g (s.fd g) refl v).0
Step-IsValid (constructs {s} g h e other) v = move-IsValid s g h other v
Step-IsValid (assigns {s} g h) v = elim (Bool-cases (g == h)) [
  | inl same ↦ rw same v
  | inr other ↦ rw other (move-IsValid s g h other v)
]
Step-IsValid (resets {s} g n e) v = reset-IsValid s g n (s.fd g) e refl v
Step-IsValid (resets_none {s} g) v =
    empty-IsValid (close_held g (s.fd g) s) g (close_held-IsValid s g (s.fd g) refl v).0
Step-IsValid (releases {s} g) v = release-IsValid s g (s.fd g) refl v

start-IsValid : IsValid start
unfolding start
start-IsValid = record {
  held = λ g n h. cc;
  apart = λ g h n hg hh. cc;
  loose_open = λ n h. cc;
  sound = refl;
}

-- After any run of a program that closes or hands over only what it holds, what a guard holds is open and
-- no other guard nor the caller holds it, and no `close` has met a descriptor that was not open.
pub guards-IsValid : {s : System} → Reach start s → IsValid s
guards-IsValid here = start-IsValid
guards-IsValid (next r st) = Step-IsValid st (guards-IsValid r)
