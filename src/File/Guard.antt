-- ===== src/File/Guard.antt =====
-- src/utils/fd_utils.h: `fd_guard`, with the descriptors that are open and those that the caller holds. A
-- guard is given by its address, and `fd_` is a descriptor, or `none` for -1.
pub mod Keep
pub mod Leak
mod Tests
use cpp_cores.Base.{ℕ, ◌≡◌, Bool, true, false, not, ◌||◌, Option, none, some, ◌==◌, if◌then◌else◌}

-- `faulty` says that `close` has been called on a descriptor that was not open.
pub record System : Type 0 where
  pub fd : ℕ → Option ℕ
  pub opened : ℕ → Bool
  pub loose : ℕ → Bool
  pub faulty : Bool

abbrev pub update {ℓ} : {A : Type ℓ} → (ℕ → A) → ℕ → A → ℕ → A
update f k v x = if x == k then v else f x

abbrev pub close : ℕ → System → System
close n s = record s { opened = update s.opened n false; faulty = s.faulty || not (s.opened n) }

-- `if (fd_ >= 0) { ::close(fd_); fd_ = -1; }`
abbrev pub close_held : ℕ → Option ℕ → System → System
close_held g none s = s
close_held g (some n) s = let s' = close n s in record s' { fd = update s'.fd g none }

pub destroy : ℕ → System → System
destroy g s = close_held g (s.fd g) s

-- `g` is the new guard, and `h` the other.
pub move_construct : ℕ → ℕ → System → System
move_construct g h s = record s { fd = update (update s.fd g (s.fd h)) h none }

pub move_assign : ℕ → ℕ → System → System
move_assign g h s = if g == h then s else record s { fd = update (update s.fd g (s.fd h)) h none }

pub reset : ℕ → Option ℕ → System → System
reset g o s = let s' = close_held g (s.fd g) s in record s' { fd = update s'.fd g o }

pub release : ℕ → System → Option ℕ × System
release g s = (s.fd g, record s { fd = update s.fd g none })

-- What a caller holds without a guard: `open` returns it, `release` gives it, and `reset` takes it.
abbrev pub take_up : Option ℕ → System → System
take_up none s = s
take_up (some n) s = record s { loose = update s.loose n true }

abbrev pub hand_over : ℕ → System → System
hand_over n s = record s { loose = update s.loose n false }

-- The steps of a program that closes or hands over only what it holds. A guard is made where there is
-- none.
pub data Step : System → System → Type 0 where
  opens :
      {s : System} (n : ℕ)
      → s.opened n ≡ false
      → Step s (record s { opened = update s.opened n true; loose = update s.loose n true })
  closes : {s : System} (n : ℕ) → s.loose n ≡ true → Step s (hand_over n (close n s))
  destroys : {s : System} (g : ℕ) → Step s (destroy g s)
  constructs :
      {s : System} (g h : ℕ) → s.fd g ≡ none → (g == h) ≡ false → Step s (move_construct g h s)
  assigns : {s : System} (g h : ℕ) → Step s (move_assign g h s)
  resets : {s : System} (g n : ℕ) → s.loose n ≡ true → Step s (reset g (some n) (hand_over n s))
  resets_none : {s : System} (g : ℕ) → Step s (reset g none s)
  releases : {s : System} (g : ℕ) → Step s (take_up (release g s).0 (release g s).1)

pub data Reach (s : System) : System → Type 0 where
  here : Reach s s
  next : {t u : System} → Reach s t → Step t u → Reach s u

pub start : System
start = record { fd = λ g. none; opened = λ n. false; loose = λ n. false; faulty = false }
