-- ===== src/Fiber/Timer/Results.antt =====
-- What the calls return, and which timers they leave in the set.
use cpp_cores.Base.{
  mem, All-mem, ℕ, ◌≡◌, refl, sym, ap, ◌∙◌, ◌-◌, ◌≤◌, Bool, true, false, not, ◌&&◌, ◌||◌, List, [],
  ◌∷◌, map, Option, ◌==◌, arith, All, Bool-cases, inl, inr,
}
use cpp_cores.Fiber.Timer.{
  Timer, Manager, Callback, is_some, insert, erase, cancel, refresh, reset, insert_timer,
  get_next_timer, wait_first, list_expired, has_timer, first_later, rolled_over, fire,
  split_expired,
}
use cpp_cores.Fiber.Timer.Order.{Below, Sorted, before_next, find-mem, mem-insert, mem-erase}
use cpp_cores.Fiber.Timer.Keep.{Armed}
use cpp_cores.Fiber.Timer.Split.{
  select, is_due, mem-select, select_none, later-All, split_expired-select,
}
use cpp_cores.Fiber.Timer.Fire.{fire-callbacks, fire-mem}
use cpp_cores.Fiber.Timer.Steps.{IsValid, expired-Fresh}

-- Whether `list_expired` takes the timer at that time.
abbrev pub due_at : ℕ → Manager → ℕ → Bool
due_at now m = is_due (rolled_over now m.last_execute_time) m.object now

abbrev pub callback : Manager → ℕ → Option Callback
callback m p = (m.object p).cb

-- When the first is later than `now`, all are.
pub first_later-All :
    (f : ℕ → Timer) (now : ℕ) (l : List ℕ)
    → Sorted f l
    → first_later f now l ≡ true
    → All (λ q. is_due false f now q ≡ false) l
unfolding first_later
first_later-All f now [] s h = tt
first_later-All f now (p ∷ l) (b, s) h = (ground arith, later-All f now p l (ground arith) b)

pub has_timer-false : (m : Manager) → has_timer m ≡ false → m.timers ≡ []
unfolding has_timer
has_timer-false m h = go m.timers h
  where
    go : (l : List ℕ) → (elim l as (λ x. Bool) [ [] ↦ false | p ∷ ps ↦ true ]) ≡ false → l ≡ []
    go [] h = refl
    go (p ∷ ps) h = absurd (ground arith)

module _ (now probe : ℕ) (m : Manager) where
  abbrev pub after_loop : Bool → List (Option Callback) × Manager
  after_loop rollover =
      let (expired, rest) = split_expired rollover m.object now probe m.timers in
      fire now expired (record m { last_execute_time = now; timers = rest })

  pub loop-callbacks :
      (rollover : Bool)
      → IsValid m
      → (after_loop rollover).0 ≡ map (callback m) (select (is_due rollover m.object now) m.timers)
  loop-callbacks rollover (s, a) =
      rw (split_expired-select rollover m.object now probe m.timers s)
        (fire-callbacks now _ _ (expired-Fresh m.object (is_due rollover m.object now) m.timers s))

  pub loop-mem :
      (rollover : Bool) (q : ℕ)
      → IsValid m
      → mem q (after_loop rollover).1.timers
        ≡ (mem q m.timers && (not (is_due rollover m.object now q) || (m.object q).recurring))
  loop-mem rollover q (s, a) =
      let test : ℕ → Bool = is_due rollover m.object now in
      let stays : mem q (select (λ p. not (test p)) m.timers) ≡ (mem q m.timers && not (test q)) =
        mem-select _ m.timers q in
      let goes : mem q (select test m.timers) ≡ (mem q m.timers && test q) =
        mem-select _ m.timers q in
      let at : mem q
            (fire now (select test m.timers) (record m {
              last_execute_time = now;
              timers = select (λ p. not (test p)) m.timers;
            })).1.timers
          ≡ (mem q (select (λ p. not (test p)) m.timers)
              || mem q (select test m.timers) && (m.object q).recurring) =
        fire-mem now (select test m.timers) _ q (expired-Fresh m.object test m.timers s) in
      rw (split_expired-select rollover m.object now probe m.timers s, at, stays, goes) ground arith

  -- When `list_expired` returns early, nothing is due.
  pub none_due :
      IsValid m
      → rolled_over now m.last_execute_time ≡ false
      → first_later m.object now m.timers ≡ true
      → All (λ q. due_at now m q ≡ false) m.timers
  none_due (s, a) r k = rw r (first_later-All m.object now m.timers s k)

  -- After `list_expired`, exactly those timers are in the set that were there and are not due or recur.
  pub list_expired-mem :
      (q : ℕ)
      → IsValid m
      → mem q (list_expired now probe m).1.timers
        ≡ (mem q m.timers && (not (due_at now m q) || (m.object q).recurring))
  unfolding list_expired
  list_expired-mem q v = elim (Bool-cases (has_timer m)) [
    | inl e ↦ elim (Bool-cases (rolled_over now m.last_execute_time)) [
      | inl r ↦ rw (e, r) (loop-mem true q v)
      | inr r ↦ elim (Bool-cases (first_later m.object now m.timers)) [
        | inl k ↦
            let stays : mem q (select (due_at now m) m.timers)
                ≡ (mem q m.timers && due_at now m q) =
              mem-select _ m.timers q in
            let none_left : select (due_at now m) m.timers ≡ [] =
              select_none _ m.timers (none_due v r k) in
            let never : (mem q m.timers && due_at now m q) ≡ false =
              sym stays ∙ ap (mem q) none_left in
            rw (e, r, k) ground arith
        | inr k ↦ rw (e, r, k) (loop-mem false q v)
      ]
    ]
    | inr e ↦ rw (e, has_timer-false m e) refl
  ]

-- A timer without a callback is not in the set.
pub mem-empty :
    (p : ℕ) (m : Manager) → IsValid m → is_some (m.object p).cb ≡ false → mem p m.timers ≡ false
mem-empty p m (s, a) h = elim (Bool-cases (mem p m.timers)) [
  | inl e ↦
      let armed : is_some (m.object p).cb ≡ true = All-mem (Armed m.object) m.timers p a e in
      absurd (ground arith)
  | inr e ↦ e
]

pub move-mem :
    (f g : ℕ → Timer) (p q : ℕ) (l : List ℕ)
    → Sorted f l
    → mem p l ≡ true
    → mem q (insert g p (erase f p l)) ≡ mem q l
move-mem f g p q l s h =
    let out : mem q (erase f p l) ≡ (mem q l && not (q == p)) = mem-erase f p l q s in
    let into : mem q (insert g p (erase f p l)) ≡ (q == p || mem q (erase f p l)) =
      mem-insert g p (erase f p l) q in
    elim (Bool-cases (q == p)) [
      | inl e ↦
          let eq : q ≡ p = ground arith in
          let is : mem q l ≡ true = ap (λ x. mem x l) eq ∙ h in ground arith
      | inr e ↦ ground arith
    ]

pub wait_first-least :
    (f : ℕ → Timer) (now : ℕ) (l : List ℕ) (q : ℕ)
    → Sorted f l
    → mem q l ≡ true
    → wait_first f now l ≤ (f q).next - now
      × ((p : ℕ) × (mem p l ≡ true × wait_first f now l ≡ (f p).next - now))
unfolding wait_first
wait_first-least f now [] q s h = absurd (ground arith)
wait_first-least f now (p ∷ l) q (b, s) h =
    let is : wait_first f now (p ∷ l) ≡ (f p).next - now = ground arith in
    let first : (f p).next ≤ (f q).next =
      All-mem (λ r. (f p).next ≤ (f r).next) (p ∷ l) q (ground arith, least p l b) h in
    (ground arith, (p, (ground arith, is)))
  where
    least : (p : ℕ) (l : List ℕ) → Below f p l → All (λ r. (f p).next ≤ (f r).next) l
    least p [] h = tt
    least p (r ∷ l) (h, hs) = (before_next f p r h, least p l hs)

-- When the set is not empty, `get_next_timer` returns the least of the times that its timers have left,
-- 0 for a timer that is due.
pub get_next_timer_least :
    (now : ℕ) (m : Manager) (q : ℕ)
    → IsValid m
    → mem q m.timers ≡ true
    → (get_next_timer now m).0 ≤ (m.object q).next - now
      × ((p : ℕ) × (mem p m.timers ≡ true × (get_next_timer now m).0 ≡ (m.object p).next - now))
unfolding get_next_timer
get_next_timer_least now m q (s, a) h = wait_first-least m.object now m.timers q s h

-- `cancel` returns whether the timer has its callback. After it the timer is not in the set, all others
-- are where they were, and a second call returns false.
pub cancel-mem :
    (p q : ℕ) (m : Manager)
    → IsValid m
    → (cancel p m).0 ≡ is_some (m.object p).cb
      × mem q (cancel p m).1.timers ≡ (mem q m.timers && not (q == p))
      × (cancel p (cancel p m).1).0 ≡ false
unfolding cancel
cancel-mem p q m (s, a) = elim (Bool-cases (is_some (m.object p).cb)) [
  | inl e ↦
      let self : (p == p) ≡ true = ground arith in
      rw (e, mem-erase m.object p m.timers q s, self) (refl, refl, refl)
  | inr e ↦
      let out : mem p m.timers ≡ false = mem-empty p m (s, a) e in
      let move : q ≡ p → mem q m.timers ≡ false = λ eq. ap (λ x. mem x m.timers) eq ∙ out in
      let others : mem q m.timers ≡ (mem q m.timers && not (q == p)) = elim (Bool-cases (q == p)) [
        | inl k ↦ let is : mem q m.timers ≡ false = move (ground arith) in ground arith
        | inr k ↦ ground arith
      ] in
      rw e (refl, others, rw e refl)
]

-- `refresh` returns whether the timer is in the set, and no timer leaves the set or comes into it.
pub refresh-mem :
    (p now q : ℕ) (m : Manager)
    → IsValid m
    → (refresh p now m).0 ≡ mem p m.timers × mem q (refresh p now m).1.timers ≡ mem q m.timers
unfolding refresh
refresh-mem p now q m (s, a) = elim (Bool-cases (is_some (m.object p).cb)) [
  | inl e ↦ elim (Bool-cases (mem p m.timers)) [
    | inl k ↦ rw (e, find-mem m.object p m.timers, k) (refl, move-mem m.object _ p q m.timers s k)
    | inr k ↦ rw (e, find-mem m.object p m.timers, k) (refl, refl)
  ]
  | inr e ↦ rw (e, mem-empty p m (s, a) e) (refl, refl)
]

-- `reset` returns whether the timer is in the set, but true on the same period without `from_now`; no
-- timer leaves the set or comes into it.
pub reset-mem :
    (p ms : ℕ) (from_now : Bool) (now q : ℕ) (m : Manager)
    → IsValid m
    → (reset p ms from_now now m).0 ≡ (ms == (m.object p).ms && not from_now || mem p m.timers)
      × mem q (reset p ms from_now now m).2.timers ≡ mem q m.timers
unfolding reset insert_timer
reset-mem p ms from_now now q m (s, a) = elim (Bool-cases (ms == (m.object p).ms && not from_now)) [
  | inl d ↦ rw d (refl, refl)
  | inr d ↦ elim (Bool-cases (is_some (m.object p).cb)) [
    | inl e ↦ elim (Bool-cases (mem p m.timers)) [
      | inl k ↦
          rw (d, e, find-mem m.object p m.timers, k) (refl, move-mem m.object _ p q m.timers s k)
      | inr k ↦ rw (d, e, find-mem m.object p m.timers, k) (refl, refl)
    ]
    | inr e ↦ rw (d, e, mem-empty p m (s, a) e) (refl, refl)
  ]
]
