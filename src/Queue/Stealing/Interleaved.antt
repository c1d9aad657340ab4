-- ===== src/Queue/Stealing/Interleaved.antt =====
-- What holds in every state that the owner and any number of thieves can reach, where each makes its
-- accesses in the order of the program.
use cpp_cores.Base.{ℕ, ◌+◌, ◌-◌, ◌<◌, ◌≤◌, ◌≡◌, refl, List, [], ◌++◌, length, arith}
use mathlib.Core.List.{Perm}
use mathlib.Core.List.Perm
use cpp_cores.Queue.Stealing.{
  w64, Owner, Thief, System, Step, call_push, call_pop, call_steal, owned, robbed, Reach, here,
  later, start, volatile_size,
}
use cpp_cores.Queue.Stealing.Window.{IsPow, length-window}
use cpp_cores.Queue.Stealing.Invariant.{endpoint, in_flight, contents, Inv}
use cpp_cores.Queue.Stealing.PushMoves.{learn}
use cpp_cores.Queue.Stealing.PopMoves.{own-Inv}
use cpp_cores.Queue.Stealing.ThiefMoves.{tell, rob-Inv}

start-Inv :
    (capacity : ℕ) (cells : List ℕ)
    → IsPow capacity
    → length cells ≡ capacity
    → capacity + 1 < w64
    → Inv (start capacity cells)
start-Inv capacity cells pow room short = record {
  sound = record {
    pow = pow;
    room = room;
    short = omega arith;
    ordered = omega arith;
    fits = omega arith;
    owner = tt;
  };
  safe = λ i. tt;
  kept = Perm.refl [];
}

Step-Inv : {s t : System} → Step s t → Inv s → Inv t
Step-Inv {s} (call_push e idle room) v =
    learn {o = Owner.idle} (Owner.push_called e) refl refl room (rw idle at v)
Step-Inv {s} (call_pop idle) v = learn {o = Owner.idle} Owner.pop_called refl refl tt (rw idle at v)
Step-Inv {s} (call_steal i idle) v = tell v i Thief.called tt
Step-Inv {s} owned v = own-Inv s.owner s refl v
Step-Inv {s} (robbed i) v = rob-Inv i (s.thieves i) s refl (v.safe i) v

pub Reach-Inv : {s t : System} → Reach s t → Inv s → Inv t
Reach-Inv here v = v
Reach-Inv (later r st) v = Step-Inv st (Reach-Inv r v)

module _ (capacity : ℕ) (cells : List ℕ) (pow : IsPow capacity) (room : length cells ≡ capacity)
    (short : capacity + 1 < w64) {s : System} (r : Reach (start capacity cells) s) where
  pub reached : Inv s
  reached = Reach-Inv r (start-Inv capacity cells pow room short)

  -- However the owner and the thieves interleave, what has been pushed is, in some order and as often,
  -- what `pop` and `steal` have returned, an element that `pop` has made sure of and not yet
  -- returned, and what the deque holds: no element is lost, and none is returned twice.
  pub pushed-taken :
      Perm s.pushed
        (s.taken ++ (in_flight s.owner s.queue ++ contents s.queue (endpoint s.owner s.queue)))
  pushed-taken = reached.kept

  -- The deque never holds more elements than its capacity.
  pub contents-bounded : length (contents s.queue (endpoint s.owner s.queue)) ≤ s.queue.capacity
  contents-bounded = omega (
    arith,
    length-window s.queue.capacity s.queue.buffer s.queue.top
        (endpoint s.owner s.queue - s.queue.top),
    reached.sound.fits,
  )

  -- While the owner is idle, `volatile_size` is the number of elements that the deque holds.
  pub volatile_size_idle :
      s.owner ≡ Owner.idle
      → volatile_size s.queue ≡ length (contents s.queue (endpoint s.owner s.queue))
  unfolding volatile_size
  volatile_size_idle idle = rw idle (
      ground (
        arith,
        length-window s.queue.capacity s.queue.buffer s.queue.top (s.queue.bottom - s.queue.top),
      ))
