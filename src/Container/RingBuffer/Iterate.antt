-- ===== src/Container/RingBuffer/Iterate.antt =====
-- Going over a ring with its iterators.
use cpp_cores.Base.{ℕ, zero, suc, ◌<◌, ◌≢◌, length, arith}
use cpp_cores.Container.RingBuffer.{RingBuffer, increment, begin_, end_}

-- `++` so many times.
pub advance : RingBuffer → ℕ → ℕ → ℕ
advance q zero i = i
advance q (suc k) i = advance q k (increment q i)

advance-lt : (q : RingBuffer) (k i : ℕ) → i < length q.buffer → advance q k i < length q.buffer
unfolding advance increment
advance-lt q zero i h = h
advance-lt q (suc k) i h = advance-lt q k (increment q i) (ground arith)

-- On a buffer that is not empty, no number of increments takes the iterator from `begin()` to `end()`.
pub advance_never_ends :
    (q : RingBuffer) (k : ℕ) → 0 < length q.buffer → advance q k (begin_ q) ≢ end_ q
advance_never_ends q k h = λ e. omega (arith, advance-lt q k 0 h)
