-- ===== src/Queue/Stealing/Fence.antt =====
-- The fence of `pop` in src/concurrent/work_stealing_queue.h. It is an acquire and release fence, so the load
-- of `_top` after it may take effect before the store of `_bottom` in front of it; the steps of
-- Queue/Stealing have the order of the program. Here a run may do either. No other accesses change places.
pub mod Ordered
mod Tests
use cpp_cores.Base.{ℕ, zero, suc, ◌≡◌, ◌++◌, Option, none, some, ltb, if◌then◌else◌}
use cpp_cores.Queue.Stealing.{System, Owner, Thief, Step, pred64, rob, update}

-- `early` is what `pop` has loaded from `_top` while its store is still to come; `overtakes` counts these
-- loads.
pub record Weak : Type 0 where
  pub system : System
  pub early : Option ℕ
  pub overtakes : ℕ

-- The load of `_top`, before the store.
pub load_early : Weak → Weak
load_early w = record w { early = some w.system.queue.top; overtakes = suc w.overtakes }

-- The store of `_bottom`, and the test of what has been loaded.
pub store_late : ℕ → ℕ → System → System
store_late t b s = record s {
  queue = record s.queue { bottom = pred64 b };
  owner = if ltb (pred64 b) t then Owner.pop_restore b else Owner.pop_got t b;
}

pub data WeakStep (w : Weak) : Weak → Type 0 where
  in_order : {s : System} → w.early ≡ none → Step w.system s → WeakStep w (record w { system = s })
  overtaken :
      (b : ℕ) → w.early ≡ none → w.system.owner ≡ Owner.pop_some b → WeakStep w (load_early w)
  -- Meanwhile thieves may call and move.
  called :
      (t i : ℕ)
      → w.early ≡ some t
      → w.system.thieves i ≡ Thief.idle
      → WeakStep w (record w {
        system = record w.system { thieves = update w.system.thieves i Thief.called };
      })
  robbed :
      (t i : ℕ)
      → w.early ≡ some t
      → WeakStep w (record w { system = rob i (w.system.thieves i) w.system })
  stored :
      (t b : ℕ)
      → w.early ≡ some t
      → w.system.owner ≡ Owner.pop_some b
      → WeakStep w (record w { system = store_late t b w.system; early = none })

pub data WeakReach (w : Weak) : Weak → Type 0 where
  here : WeakReach w w
  later : {u v : Weak} → WeakReach w u → WeakStep u v → WeakReach w v

abbrev pub weak : System → Weak
weak s = record { system = s; early = none; overtakes = 0 }
