-- ===== src/Container/RingBuffer.antt =====
-- src/ds/ring_buffer.h: `RingBuffer<T>`. Elements are only moved, so an element is any number, and 0
-- is the value that `vector::resize` fills in. A `size_t` wraps at 2^64. An iterator is its position
-- in `buffer_`.
pub mod Queue
pub mod Grow
pub mod Iterate
mod Tests
use cpp_cores.Base.{
  ℕ, zero, suc, ◌+◌, ◌-◌, ◌%◌, ◌^◌, Bool, true, false, List, [], ◌∷◌, ◌++◌, Option, none, some,
  ◌==◌, leb, ltb, if◌then◌else◌, get_or, set, length, take, drop, replicate,
}

pub record RingBuffer : Type 0 where
  pub buffer : List ℕ
  pub reader : ℕ
  pub writer : ℕ
  pub capacity : ℕ

abbrev pub w64 : ℕ
w64 = 2 ^ 64

pub new : ℕ → RingBuffer
new size_ = record { buffer = replicate size_ 0; reader = 0; writer = 0; capacity = size_ }

-- `writer_ - reader_` on `size_t`.
abbrev pub distance : RingBuffer → ℕ
distance q = (q.writer + w64 - q.reader) % w64

-- The test `writer_ - reader_ >= 0` is on `size_t`.
pub size : RingBuffer → ℕ
size q = if leb 0 (distance q) then distance q else length q.buffer - q.reader + q.writer

pub empty : RingBuffer → Bool
empty q = q.writer == q.reader

-- On a buffer of no element the source divides by zero.
pub next : RingBuffer → ℕ → ℕ
next q n = (n + 1) % w64 % length q.buffer

pub prev : RingBuffer → ℕ → ℕ
prev q n = if ltb 0 n then (n - 1) % length q.buffer else length q.buffer - 1

pub push_back : RingBuffer → ℕ → Bool × RingBuffer
push_back q value =
    if next q q.writer == q.reader
    then (false, q)
    else (true, record q { buffer = set q.buffer q.writer value; writer = next q q.writer })

pub front : RingBuffer → ℕ
front q = get_or q.buffer q.reader 0

pub back : RingBuffer → ℕ
back q = get_or q.buffer (prev q q.writer) 0

-- `none` is the exception.
pub force_push : RingBuffer → ℕ → Option RingBuffer
force_push q value =
    if q.capacity == 0
    then none
    else some (record q {
      buffer = set q.buffer q.writer value;
      reader = if next q q.writer == q.reader then next q q.reader else q.reader;
    })

-- `std::copy` to the start of a buffer.
abbrev pub overwrite : List ℕ → List ℕ → List ℕ
overwrite elements buffer = elements ++ drop (length elements) buffer

-- `std::copy` from `first` up to `last`: `none` when it reads past the end of the buffer.
pub range : List ℕ → ℕ → ℕ → Option (List ℕ)
range buffer first last =
    if leb last (length buffer) then some (take (last - first) (drop first buffer)) else none

abbrev refilled : ℕ → RingBuffer → Option (List ℕ) → Option RingBuffer
refilled new_capacity q none = none
refilled new_capacity q (some elements) = some (record {
  buffer = overwrite elements (replicate new_capacity 0);
  reader = 0;
  writer = distance q;
  capacity = new_capacity;
})

-- `none` is a read past the end of `buffer_`, which the language leaves undefined. The first branch
-- copies up to `buffer_.end() + writer_`.
pub resize : ℕ → RingBuffer → Option RingBuffer
resize new_capacity q =
    if ltb new_capacity q.capacity
    then some q
    else if leb q.reader q.writer
    then refilled new_capacity q (range q.buffer q.reader (length q.buffer + q.writer))
    else refilled new_capacity q (some (drop q.reader q.buffer ++ take q.writer q.buffer))

-- `++` and `--` of the iterator.
pub increment : RingBuffer → ℕ → ℕ
increment q i = if i + 1 == length q.buffer then 0 else i + 1

pub decrement : RingBuffer → ℕ → ℕ
decrement q i = if i == 0 then length q.buffer else i - 1

abbrev pub begin_ : RingBuffer → ℕ
begin_ q = 0

abbrev pub end_ : RingBuffer → ℕ
end_ q = length q.buffer
