-- ===== src/Thread/Base.antt =====
-- src/concurrent/base_thread.h and base_thread.cc: `BaseThread`, with the thread of the system that it
-- starts. A handle is a number, which is 0 for `pthread_t()`; what `pthread_create` gives is an argument.
pub mod Lifecycle
mod Tests
use cpp_cores.Base.{ℕ, ◌≡◌, ◌≢◌, Bool, true, false, not, ◌==◌, if◌then◌else◌}
use cpp_cores.Base.Int.{ℤ, pos, negsuc}

-- Where the thread of the system is in `StaticEntry`, with its number: before its first store, before it
-- stores its number, in `Entry`, before `Cleanup` stores, and after it.
pub data Run : Type 0 where
  absent : Run
  created : ℕ → Run
  alive : ℕ → Run
  in_entry : ℕ → Run
  leaving : ℕ → Run
  ended : ℕ → Run

-- `detached` is `m_attributes.IsDetached()`.
pub record BaseThread : Type 0 where
  pub detached : Bool
  pub m_handle : ℕ
  pub m_id : ℤ
  pub m_is_alive : Bool
  pub run : Run

pub data Started : Type 0 where
  thrown : Started
  returned : ℕ → BaseThread → Started

pub base_thread : Bool → BaseThread
base_thread is_detached = record {
  detached = is_detached;
  m_handle = 0;
  m_id = negsuc 0;
  m_is_alive = false;
  run = Run.absent;
}

pub is_joinable : BaseThread → Bool
is_joinable t = not (t.m_handle == 0)

-- `error`, `handle` and `id` are what `pthread_create` returns, what `m_handle` holds after it, which is not
-- determined where it fails, and the number of the thread that it else makes.
pub do_start : ℕ → ℕ → ℕ → BaseThread → Started
do_start error handle id t =
    if is_joinable t
    then Started.thrown
    else if error == 0
    then Started.returned error (record t { m_handle = handle; m_id = pos 0; run = Run.created id })
    else Started.returned error (record t { m_handle = handle; m_id = negsuc 0 })

-- After `pthread_join`.
pub join : BaseThread → BaseThread
join t = record t { m_handle = 0; m_id = negsuc 0; run = Run.absent }

-- The next store of the thread of the system.
pub static_entry : BaseThread → Run → BaseThread
static_entry t Run.absent = t
static_entry t (Run.created id) =
    if t.detached
    then record t { run = Run.in_entry id }
    else record t { m_is_alive = true; run = Run.alive id }
static_entry t (Run.alive id) = record t { m_id = pos id; run = Run.in_entry id }
static_entry t (Run.in_entry id) = record t { m_is_alive = false; run = Run.leaving id }
static_entry t (Run.leaving id) = record t { m_is_alive = false; run = Run.ended id }
static_entry t (Run.ended id) = t

-- A throw leaves the object as it is.
abbrev pub after_start : BaseThread → Started → BaseThread
after_start t Started.thrown = t
after_start t (Started.returned error u) = u

pub data Step (t : BaseThread) : BaseThread → Type 0 where
  start :
      (error handle id : ℕ)
      → (error ≡ 0 → handle ≢ 0)
      → Step t (after_start t (do_start error handle id t))
  enter : Step t (static_entry t t.run)
  -- `Entry` ends the thread by `pthread_exit`, which calls `Cleanup`.
  exit : (id : ℕ) → t.run ≡ Run.in_entry id → Step t (record t { run = Run.leaving id })
  -- `pthread_join` returns 0 for a thread that has ended and is not detached; a call for a handle of no
  -- thread is undefined and left out.
  joined :
      (id : ℕ) → t.detached ≡ false → is_joinable t ≡ true → t.run ≡ Run.ended id → Step t (join t)

pub data Reach (t : BaseThread) : BaseThread → Type 0 where
  here : Reach t t
  later : {u v : BaseThread} → Reach t u → Step u v → Reach t v
