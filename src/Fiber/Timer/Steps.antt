-- ===== src/Fiber/Timer/Steps.antt =====
-- The operations of the timers and of their manager as steps, and what holds after any of them.
use cpp_cores.Base.{
  mem, ℕ, ◌≡◌, refl, Bool, true, false, not, ◌&&◌, List, some, ◌==◌, arith, Bool-cases, inl, inr,
}
use cpp_cores.Fiber.Timer.{
  Timer, Manager, Callback, is_some, set_object, insert, erase, find, new, insert_timer, add_timer,
  add_condition_timer, cancel, refresh, reset, get_next_timer, list_expired, has_timer, first_later,
  rolled_over, fire, split_expired,
}
use cpp_cores.Fiber.Timer.Order.{Sorted}
use cpp_cores.Fiber.Timer.Keep.{Armed, Valid, frame-Valid, put-Valid, erase-Valid, erased}
use cpp_cores.Fiber.Timer.Split.{
  select, is_due, mem-select, select-Sorted, All-select, split_expired-select,
}
use cpp_cores.Fiber.Timer.Fire.{Fresh, Fresh-select, fire-Valid}

-- `new` returns an address that no timer of the set has.
pub data Step (m : Manager) : Manager → Type 0 where
  added :
      (p ms : ℕ) (cb : Callback) (recurring : Bool) (now : ℕ)
      → mem p m.timers ≡ false
      → Step m (add_timer p ms (some cb) recurring now m).1
  condition_added :
      (p ms cb weak_cond : ℕ) (recurring : Bool) (now : ℕ)
      → mem p m.timers ≡ false
      → Step m (add_condition_timer p ms cb weak_cond recurring now m).1
  cancelled : (p : ℕ) → Step m (cancel p m).1
  refreshed : (p now : ℕ) → Step m (refresh p now m).1
  started_over : (p ms : ℕ) (from_now : Bool) (now : ℕ) → Step m (reset p ms from_now now m).2
  asked : (now : ℕ) → Step m (get_next_timer now m).1
  listed : (now probe : ℕ) → Step m (list_expired now probe m).1

pub data Reach (m : Manager) : Manager → Type 0 where
  here : Reach m m
  later : {m' m'' : Manager} → Reach m m' → Step m' m'' → Reach m m''

abbrev pub IsValid : Manager → Type 0
IsValid m = Valid m.object m.timers

pub add_timer-Valid :
    (p ms : ℕ) (cb : Callback) (recurring : Bool) (now : ℕ) (m : Manager)
    → mem p m.timers ≡ false
    → IsValid m
    → IsValid (add_timer p ms (some cb) recurring now m).1
unfolding add_timer insert_timer
add_timer-Valid p ms cb recurring now m h v = put-Valid m.object p _ m.timers h refl v

pub cancel-Valid : (p : ℕ) (m : Manager) → IsValid m → IsValid (cancel p m).1
unfolding cancel
cancel-Valid p m v = elim (Bool-cases (is_some (m.object p).cb)) [
  | inl e ↦ rw e (
      frame-Valid m.object p _ _ (erased m.object p m.timers v) (erase-Valid m.object p m.timers v))
  | inr e ↦ rw e v
]

-- A timer that is in the set is taken out, and goes in again with another time.
pub move-Valid :
    (f : ℕ → Timer) (p : ℕ) (t : Timer) (l : List ℕ)
    → is_some t.cb ≡ true
    → Valid f l
    → Valid (set_object f p t) (insert (set_object f p t) p (erase f p l))
move-Valid f p t l h v = put-Valid f p t (erase f p l) (erased f p l v) h (erase-Valid f p l v)

pub refresh-Valid : (p now : ℕ) (m : Manager) → IsValid m → IsValid (refresh p now m).1
unfolding refresh
refresh-Valid p now m v = elim (Bool-cases (is_some (m.object p).cb)) [
  | inl e ↦ elim (Bool-cases (find m.object p m.timers)) [
    | inl k ↦ rw (e, k) (move-Valid m.object p _ m.timers e v)
    | inr k ↦ rw (e, k) v
  ]
  | inr e ↦ rw e v
]

pub reset-Valid :
    (p ms : ℕ) (from_now : Bool) (now : ℕ) (m : Manager)
    → IsValid m
    → IsValid (reset p ms from_now now m).2
unfolding reset insert_timer
reset-Valid p ms from_now now m v = elim (Bool-cases (ms == (m.object p).ms && not from_now)) [
  | inl d ↦ rw d v
  | inr d ↦ elim (Bool-cases (is_some (m.object p).cb)) [
    | inl e ↦ elim (Bool-cases (find m.object p m.timers)) [
      | inl k ↦ rw (d, e, k) (move-Valid m.object p _ m.timers e v)
      | inr k ↦ rw (d, e, k) v
    ]
    | inr e ↦ rw (d, e) v
  ]
]

-- The expired timers are taken out of the set before the loop.
pub expired-Fresh :
    (f : ℕ → Timer) (test : ℕ → Bool) (l : List ℕ)
    → Sorted f l
    → Fresh (select test l) (select (λ p. not (test p)) l)
expired-Fresh f test l s = Fresh-select f test l _ s (λ q at is.
    let out : mem q (select (λ p. not (test p)) l) ≡ (mem q l && not (test q)) = mem-select _ l q in
    ground arith)

pub fire_expired-Valid :
    (now last probe : ℕ) (rollover : Bool) (m : Manager)
    → IsValid m
    → let (expired, rest) = split_expired rollover m.object now probe m.timers in
      IsValid (fire now expired (record m { last_execute_time = last; timers = rest })).1
fire_expired-Valid now last probe rollover m (s, a) =
    let test : ℕ → Bool = is_due rollover m.object now in
    rw (split_expired-select rollover m.object now probe m.timers s) (
      fire-Valid now (select test m.timers) _ (expired-Fresh m.object test m.timers s)
        (All-select (Armed m.object) test m.timers a)
        (select-Sorted m.object _ m.timers s, All-select (Armed m.object) _ m.timers a))

pub list_expired-Valid :
    (now probe : ℕ) (m : Manager) → IsValid m → IsValid (list_expired now probe m).1
unfolding list_expired
list_expired-Valid now probe m v = elim (Bool-cases (has_timer m)) [
  | inl e ↦
      elim (Bool-cases
        (not (rolled_over now m.last_execute_time) && first_later m.object now m.timers)) [
          | inl k ↦ rw (e, k) v
          | inr k ↦
              rw (e, k) (fire_expired-Valid now now probe (rolled_over now m.last_execute_time) m v)
        ]
  | inr e ↦ rw e v
]

pub step-Valid : {m m' : Manager} → Step m m' → IsValid m → IsValid m'
unfolding get_next_timer add_condition_timer
step-Valid {m} (Step.added p ms cb recurring now h) v = add_timer-Valid p ms cb recurring now m h v
step-Valid {m} (Step.condition_added p ms cb weak_cond recurring now h) v =
    add_timer-Valid p ms (Callback.when_alive weak_cond cb) recurring now m h v
step-Valid {m} (Step.cancelled p) v = cancel-Valid p m v
step-Valid {m} (Step.refreshed p now) v = refresh-Valid p now m v
step-Valid {m} (Step.started_over p ms from_now now) v = reset-Valid p ms from_now now m v
step-Valid {m} (Step.asked now) v = v
step-Valid {m} (Step.listed now probe) v = list_expired-Valid now probe m v

-- After any calls on a new manager, each on a fresh address where it makes a timer and with a callback
-- that is not empty, the timers of the set are in the order of the comparator, each once, and each has
-- its callback.
pub reach-IsValid :
    (now : ℕ) (object : ℕ → Timer) (m : Manager) → Reach (new now object) m → IsValid m
unfolding new
reach-IsValid now object m Reach.here = (tt, tt)
reach-IsValid now object m (Reach.later r s) = step-Valid s (reach-IsValid now object _ r)
