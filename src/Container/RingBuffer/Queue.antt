-- ===== src/Container/RingBuffer/Queue.antt =====
-- The ring as a queue of at most `capacity - 1` elements.
use cpp_cores.Base.{
  ℕ, ◌+◌, ◌-◌, ◌%◌, ◌<◌, ◌≡◌, ◌≢◌, refl, ◌∙◌, true, false, List, some, ◌==◌, leb, ltb,
  if◌then◌else◌, set, length, drop, arith, Bool-cases, inl, inr, length-set, get_or-set_self,
}
use native.Mathlib.Nat.{mod_self, mod-eq_of_lt}
use cpp_cores.Queue.Spsc.{Ring, push}
use cpp_cores.Queue.Spsc.Window.{count, window, length-window}
use cpp_cores.Queue.Spsc.Invariant.{contents_write, contents_take}
use cpp_cores.Queue.Spsc.Sequential.{bounded_push, push_refines}
use cpp_cores.Queue.Spsc.Sequential
use cpp_cores.Container.RingBuffer.{RingBuffer, w64, next, prev, push_back, back, force_push, size}

pub record IsValid (q : RingBuffer) : Type 0 where
  pub room : length q.buffer ≡ q.capacity
  pub small : q.capacity < w64
  pub r_in : q.reader < q.capacity
  pub w_in : q.writer < q.capacity

-- The elements from the reader up to the writer.
abbrev pub contents : RingBuffer → List ℕ
contents q = window q.capacity q.buffer q.reader (count q.capacity q.reader q.writer)

-- `next` steps round the buffer.
abbrev pub step : RingBuffer → ℕ → ℕ
step q i = if i + 1 == q.capacity then 0 else i + 1

mod_step : (c i : ℕ) → i < c → c < w64 → (i + 1) % w64 % c ≡ (if i + 1 == c then 0 else i + 1)
mod_step c i h small =
    let outer : (i + 1) % w64 ≡ i + 1 = omega arith in
    elim (Bool-cases (i + 1 == c)) [
      | inl last ↦ let same : i + 1 ≡ c = ground arith in rw (last, outer, same) (mod_self c)
      | inr inner ↦ let fits : i + 1 < c = ground arith in rw (inner, outer) (mod-eq_of_lt fits)
    ]

pub next_lem : (q : RingBuffer) → IsValid q → (i : ℕ) → i < q.capacity → next q i ≡ step q i
unfolding next
next_lem q v i h = rw v.room (mod_step q.capacity i h v.small)

-- The same cells and indices, seen as the ring of the lock-free queue.
abbrev as_ring : RingBuffer → Ring
as_ring q = record { cells = q.buffer; r = q.reader; w = q.writer }

as_ring-IsValid : (q : RingBuffer) → IsValid q → Sequential.IsValid q.capacity (as_ring q)
as_ring-IsValid q v = record { room = v.room; r_in = v.r_in; w_in = v.w_in }

push_back-push :
    (q : RingBuffer)
    → IsValid q
    → (value : ℕ)
    → let (done, ring) = push q.capacity (as_ring q) value in
      push_back q value ≡ (
        done,
        record { buffer = ring.cells; reader = ring.r; writer = ring.w; capacity = q.capacity },
      )
unfolding push_back push
push_back-push q v value =
    rw (next_lem q v q.writer v.w_in) (elim (Bool-cases (step q q.writer == q.reader)) [
      | inl full ↦ rw full refl
      | inr free ↦ rw free refl
    ])

-- On a valid ring `push_back` returns what a queue of at most `capacity - 1` elements returns, leaves
-- its contents in the ring, and keeps the ring valid.
pub push_back_refines :
    (q : RingBuffer)
    → IsValid q
    → (value : ℕ)
    → let (done, q') = push_back q value in
      ((done, contents q') ≡ bounded_push (q.capacity - 1) (contents q) value) × IsValid q'
push_back_refines q v value =
    let (same, ring) = push_refines q.capacity (as_ring q) (as_ring-IsValid q v) value in
    rw (push_back-push q v value)
      (same, record { room = ring.room; small = v.small; r_in = ring.r_in; w_in = ring.w_in })

-- `size` on a valid ring is the number of elements while the writer has not gone round; after that it
-- is too large by 2^64 less the capacity.
pub size_wraps :
    (q : RingBuffer)
    → IsValid q
    → size q ≡ length (contents q) + (if leb q.reader q.writer then 0 else w64 - q.capacity)
unfolding size
size_wraps q v = ground (
  arith,
  length-window q.capacity q.buffer q.reader (count q.capacity q.reader q.writer),
  v.small,
  v.r_in,
  v.w_in,
)

prev-step :
    (c i : ℕ)
    → i < c
    → let s : ℕ = if i + 1 == c then 0 else i + 1 in (if ltb 0 s then (s - 1) % c else c - 1) ≡ i
prev-step c i h = ground (arith, mod-eq_of_lt h)

-- After a `push_back` that succeeds, `back` is the element.
pub back-push_back :
    (q : RingBuffer)
    → IsValid q
    → (value : ℕ) → (push_back q value).0 ≡ true
    → back (push_back q value).1 ≡ value
unfolding push_back back prev
back-push_back q v value =
    rw (next_lem q v q.writer v.w_in) (elim (Bool-cases (step q q.writer == q.reader)) [
      | inl full ↦ rw full (λ no. ground arith)
      | inr free ↦ rw free (λ yes.
          rw (length-set q.buffer q.writer value ∙ v.room, prev-step q.capacity q.writer v.w_in)
            (get_or-set_self q.buffer q.writer value 0 (omega (arith, v.room, v.w_in))))
    ])

dropped :
    (q : RingBuffer)
    → IsValid q
    → step q q.writer ≡ q.reader
    → contents (record q { reader = step q q.reader }) ≡ drop 1 (contents q)
dropped q v full = elim (Bool-cases (q.reader == q.writer)) [
  | inl empty ↦
      let same : step q q.reader ≡ q.reader = ground arith in
      let nothing : count q.capacity q.reader q.writer ≡ 0 = ground arith in rw (same, nothing) refl
  | inr some_left ↦
      let apart : q.reader ≢ q.writer = ground arith in
      rw (contents_take q.capacity q.buffer q.reader q.writer v.r_in v.w_in apart) refl
]

-- `force_push` on a valid ring never adds the element: the contents stay, or lose their oldest element
-- when the ring is full.
pub force_push_forgets :
    (q : RingBuffer)
    → IsValid q
    → (value : ℕ)
    → (q' : RingBuffer) × (force_push q value ≡ some q')
      × (contents q' ≡ (if step q q.writer == q.reader then drop 1 (contents q) else contents q))
      × IsValid q'
unfolding force_push
force_push_forgets q v value =
    let positive : (q.capacity == 0) ≡ false = ground (arith, v.r_in) in
    let room : length (set q.buffer q.writer value) ≡ q.capacity =
      length-set q.buffer q.writer value ∙ v.room in
    let unseen = λ (r : ℕ) (h : r < q.capacity).
      contents_write q.capacity q.buffer r q.writer value h v.w_in in
    rw (positive, next_lem q v q.writer v.w_in, next_lem q v q.reader v.r_in)
      (elim (Bool-cases (step q q.writer == q.reader)) [
        | inl full ↦
            let at_reader : step q q.writer ≡ q.reader = ground arith in
            let inside : step q q.reader < q.capacity = ground (arith, v.r_in) in
            rw full (
              _,
              refl,
              unseen (step q q.reader) inside ∙ dropped q v at_reader,
              record { room = room; small = v.small; r_in = inside; w_in = v.w_in },
            )
        | inr free ↦ rw free (
          _,
          refl,
          unseen q.reader v.r_in,
          record { room = room; small = v.small; r_in = v.r_in; w_in = v.w_in },
        )
      ])
