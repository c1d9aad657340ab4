-- ===== src/Queue/Mpmc.antt =====
-- src/concurrent/lockfree_queue_impl.h: `MpmcLockFreeQueue<T, N>`. Elements are only moved, so an
-- element is any number. A call is modelled while it runs alone: `push` and `pop` are loops without a
-- bound, run here for a number of rounds, and a result of `none` says that the call has not returned
-- yet. The counters are not followed up to 2^64. `compare_exchange_weak` may fail for no reason; `spurious` says in which rounds it does.
pub mod Stuck
mod Tests
use cpp_cores.Base.{
  ℕ, zero, suc, ◌+◌, ◌/◌, ◌%◌, Bool, true, false, not, ◌&&◌, List, [], ◌∷◌, Option, none, some,
  ◌==◌, ltb, if◌then◌else◌, get_or, set, replicate,
}

pub record Slot : Type 0 where
  pub val : ℕ
  pub pop_count : ℕ
  pub push_count : ℕ

pub record Mpmc : Type 0 where
  pub slots : List Slot
  pub r_count : ℕ
  pub w_count : ℕ

-- A fresh slot, which also stands for a slot outside the array; every index is below N.
abbrev pub fresh : Slot
fresh = record { val = 0; pop_count = 0; push_count = 0 }

abbrev pub slot_at : Mpmc → ℕ → Slot
slot_at q i = get_or q.slots i fresh

module _ (n : ℕ) (spurious : ℕ → Bool) where
  pub new : Mpmc
  new = record { slots = replicate n fresh; r_count = 0; w_count = 0 }

  -- What a successful exchange in `push` does: the counter, the element, the slot's counter.
  abbrev pub store : Mpmc → ℕ → ℕ → ℕ → Mpmc
  store q w_count push_count element =
      let index = w_count % n in
      record {
        slots = set q.slots index (record {
          val = element;
          pop_count = (slot_at q index).pop_count;
          push_count = push_count + 1;
        });
        r_count = q.r_count;
        w_count = w_count + 1;
      }

  -- The loop of `push`, from the local `w_count`. Both loads read `push_count`. A round that stores goes
  -- on with the old `w_count`; one whose exchange fails reloads it.
  pub push_loop : ℕ → ℕ → Mpmc → ℕ → Option Bool × Mpmc
  push_loop zero w_count q element = (none, q)
  push_loop (suc rounds) w_count q element =
      let slot = slot_at q (w_count % n) in
      let push_count = slot.push_count in
      let pop_count = slot.push_count in
      let stored = push_loop rounds w_count (store q w_count push_count element) element in
      let reloaded = push_loop rounds q.w_count q element in
      if ltb pop_count push_count
      then (some false, q)
      else if w_count / n == push_count && (q.w_count == w_count && not (spurious rounds))
      then stored
      else reloaded

  pub push : ℕ → Mpmc → ℕ → Option Bool × Mpmc
  push rounds q element = push_loop rounds q.w_count q element

  -- What a successful exchange in `pop` does: it stores to `push_count`.
  abbrev pub remove : Mpmc → ℕ → ℕ → Mpmc
  remove q r_count pop_count =
      let index = r_count % n in
      record {
        slots = set q.slots index (record {
          val = (slot_at q index).val;
          pop_count = (slot_at q index).pop_count;
          push_count = pop_count + 1;
        });
        r_count = r_count + 1;
        w_count = q.w_count;
      }

  -- The loop of `pop`: `some none` is a return of false, `some (some e)` of true with the element `e`.
  pub pop_loop : ℕ → ℕ → Mpmc → Option (Option ℕ) × Mpmc
  pop_loop zero r_count q = (none, q)
  pop_loop (suc rounds) r_count q =
      let slot = slot_at q (r_count % n) in
      let reloaded = pop_loop rounds q.r_count q in
      if slot.pop_count == slot.push_count
      then (some none, q)
      else if r_count / n == slot.pop_count && (q.r_count == r_count && not (spurious rounds))
      then (some (some slot.val), remove q r_count slot.pop_count)
      else reloaded

  pub pop : ℕ → Mpmc → Option (Option ℕ) × Mpmc
  pop rounds q = pop_loop rounds q.r_count q
