-- ===== src/Fiber/Timer.antt =====
-- src/fiber/fiber_timer.h and src/fiber/fiber_timer.cc: `FiberTimer` and `FiberTimerManager`. A pointer
-- to a timer is a number, and `object` is what it points to; `m_timers` is the list of the pointers in
-- the order of the set. Each operation runs whole under the lock. The clock is an argument `now`, and a
-- callback is a number, or a number bound to a weak pointer.
pub mod Order
mod Keep
mod Split
mod Fire
pub mod Steps
pub mod Results
mod Tests
use cpp_cores.Base.{
  ℕ, ◌+◌, ◌-◌, ◌%◌, ◌^◌, Bool, true, false, not, ◌&&◌, ◌||◌, List, [], ◌∷◌, ◌++◌, Option, none,
  some, ◌==◌, ltb, leb, if◌then◌else◌,
}

abbrev pub w64 : ℕ
w64 = 2 ^ 64

-- A `std::function<void()>` that is not empty; `when_alive` is what `addConditionTimer` binds, run by `OnTimer`.
pub data Callback : Type 0 where
  call : (cb : ℕ) → Callback
  when_alive : (weak_cond cb : ℕ) → Callback

-- `m_manager` is the one manager of the model.
pub record Timer : Type 0 where
  pub recurring : Bool
  pub ms : ℕ
  pub next : ℕ
  pub cb : Option Callback

pub record Manager : Type 0 where
  pub timers : List ℕ
  pub object : ℕ → Timer
  pub tickled : Bool
  pub last_execute_time : ℕ

abbrev pub set_object : (ℕ → Timer) → ℕ → Timer → ℕ → Timer
set_object f p t q = if p == q then t else f q

-- `Comparator`, on pointers that are not null; the set holds no null pointer.
pub before : (ℕ → Timer) → ℕ → ℕ → Bool
before f p q =
    if ltb (f p).next (f q).next then true else if ltb (f q).next (f p).next then false else ltb p q

-- Neither comes before the other: what the set takes for equal.
abbrev pub same_place : (ℕ → Timer) → ℕ → ℕ → Bool
same_place f p q = not (before f p q) && not (before f q p)

-- `insert` of the set: an equal element stays.
pub insert : (ℕ → Timer) → ℕ → List ℕ → List ℕ
insert f p [] = p ∷ []
insert f p (q ∷ qs) =
    let rest = insert f p qs in
    if before f p q then p ∷ q ∷ qs else if before f q p then q ∷ rest else q ∷ qs

-- `find` of the set: whether there is such an element.
pub find : (ℕ → Timer) → ℕ → List ℕ → Bool
find f p [] = false
find f p (q ∷ qs) = same_place f p q || find f p qs

-- `find`, and then `erase` unless it is the end.
pub erase : (ℕ → Timer) → ℕ → List ℕ → List ℕ
erase f p [] = []
erase f p (q ∷ qs) = let rest = erase f p qs in if same_place f p q then qs else q ∷ rest

abbrev pub is_some : Option Callback → Bool
is_some none = false
is_some (some cb) = true

pub new : ℕ → (ℕ → Timer) → Manager
new now object = record { timers = []; object = object; tickled = false; last_execute_time = now }

-- Whether `it == m_timers.begin()` after the insertion.
abbrev pub at_begin : ℕ → List ℕ → Bool
at_begin p [] = false
at_begin p (q ∷ qs) = p == q

-- The private `addTimer`: the manager, and whether `onTimerInsertedAtFront` is called.
pub insert_timer : ℕ → Manager → Bool × Manager
insert_timer p m =
    let timers = insert m.object p m.timers in
    let at_front = at_begin p timers && not m.tickled in
    (at_front, record m { timers = timers; tickled = m.tickled || at_front })

-- `p` is the address that `new` returns.
pub add_timer : ℕ → ℕ → Option Callback → Bool → ℕ → Manager → Bool × Manager
add_timer p ms cb recurring now m =
    let timer : Timer = record {
      recurring = recurring;
      ms = ms;
      next = (now + ms) % w64;
      cb = cb;
    } in
    insert_timer p (record m { object = set_object m.object p timer })

pub add_condition_timer : ℕ → ℕ → ℕ → ℕ → Bool → ℕ → Manager → Bool × Manager
add_condition_timer p ms cb weak_cond recurring now m =
    add_timer p ms (some (Callback.when_alive weak_cond cb)) recurring now m

pub cancel : ℕ → Manager → Bool × Manager
cancel p m =
    let t = m.object p in
    if is_some t.cb
    then (
      true,
      record m {
        object = set_object m.object p (record t { cb = none });
        timers = erase m.object p m.timers;
      },
    )
    else (false, m)

pub refresh : ℕ → ℕ → Manager → Bool × Manager
refresh p now m =
    let t = m.object p in
    let object = set_object m.object p (record t { next = (now + t.ms) % w64 }) in
    if not (is_some t.cb)
    then (false, m)
    else if not (find m.object p m.timers)
    then (false, m)
    else (true, record m { object = object; timers = insert object p (erase m.object p m.timers) })

-- The result, whether `onTimerInsertedAtFront` is called, and the manager.
pub reset : ℕ → ℕ → Bool → ℕ → Manager → Bool × Bool × Manager
reset p ms from_now now m =
    let t = m.object p in
    let start = if from_now then now else (t.next + w64 - t.ms) % w64 in
    let object = set_object m.object p (record t { ms = ms; next = (start + ms) % w64 }) in
    let (notified, m') =
      insert_timer p (record m { object = object; timers = erase m.object p m.timers }) in
    if ms == t.ms && not from_now
    then (true, false, m)
    else if not (is_some t.cb)
    then (false, false, m)
    else if not (find m.object p m.timers)
    then (false, false, m)
    else (true, notified, m')

pub wait_first : (ℕ → Timer) → ℕ → List ℕ → ℕ
wait_first f now [] = w64 - 1
wait_first f now (p ∷ ps) = if leb (f p).next now then 0 else (f p).next - now

pub get_next_timer : ℕ → Manager → ℕ × Manager
get_next_timer now m = (wait_first m.object now m.timers, record m { tickled = false })

pub has_timer : Manager → Bool
has_timer m = elim m.timers [ [] ↦ false | p ∷ ps ↦ true ]

-- The test of `detectClockRollover`; `m_last_execute_time - 60 * 60 * 1000` wraps.
pub rolled_over : ℕ → ℕ → Bool
rolled_over now last = ltb now last && ltb now ((last + w64 - 3600000) % w64)

-- `lower_bound(now_timer)`, where the timer made for the search is at the address `probe`: what comes
-- before it, and the rest.
pub lower_bound : (ℕ → Timer) → ℕ → ℕ → List ℕ → List ℕ × List ℕ
lower_bound f now probe [] = ([], [])
lower_bound f now probe (q ∷ qs) =
    let (less, rest) = lower_bound f now probe qs in
    if ltb (f q).next now || (f q).next == now && ltb q probe
    then (q ∷ less, rest)
    else ([], q ∷ qs)

-- `while (it != m_timers.end() && (*it)->m_next == now_ms) ++it;`
pub skip_equal : (ℕ → Timer) → ℕ → List ℕ → List ℕ × List ℕ
skip_equal f now [] = ([], [])
skip_equal f now (q ∷ qs) =
    let (equal, rest) = skip_equal f now qs in
    if (f q).next == now then (q ∷ equal, rest) else ([], q ∷ qs)

-- What is expired, and what stays in the set.
pub split_expired : Bool → (ℕ → Timer) → ℕ → ℕ → List ℕ → List ℕ × List ℕ
split_expired rollover f now probe timers =
    let (less, from) = lower_bound f now probe timers in
    let (equal, rest) = skip_equal f now from in
    if rollover then (timers, []) else (less ++ equal, rest)

-- One round of the loop over the expired timers: it goes back into the set, or loses its callback.
pub rearm : ℕ → ℕ → Manager → Manager
rearm now p m =
    let t = m.object p in
    let object = set_object m.object p (record t { next = (now + t.ms) % w64 }) in
    if t.recurring
    then record m { object = object; timers = insert object p m.timers }
    else record m { object = set_object m.object p (record t { cb = none }) }

-- The loop: the callbacks pushed, and the manager.
pub fire : ℕ → List ℕ → Manager → List (Option Callback) × Manager
fire now [] m = ([], m)
fire now (p ∷ ps) m = let (cbs, m') = fire now ps (rearm now p m) in ((m.object p).cb ∷ cbs, m')

-- Whether the first timer is due later than `now`.
pub first_later : (ℕ → Timer) → ℕ → List ℕ → Bool
first_later f now [] = true
first_later f now (p ∷ ps) = ltb now (f p).next

pub list_expired : ℕ → ℕ → Manager → List (Option Callback) × Manager
list_expired now probe m =
    let rollover = rolled_over now m.last_execute_time in
    let (expired, rest) = split_expired rollover m.object now probe m.timers in
    if not (has_timer m)
    then ([], m)
    else if not rollover && first_later m.object now m.timers
    then ([], record m { last_execute_time = now })
    else fire now expired (record m { last_execute_time = now; timers = rest })
