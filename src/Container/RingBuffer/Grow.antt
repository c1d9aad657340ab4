-- ===== src/Container/RingBuffer/Grow.antt =====
-- Growing a ring.
use cpp_cores.Base.{
  ℕ, ◌+◌, ◌<◌, ◌≤◌, ◌≡◌, refl, false, none, some, leb, ltb, length, arith, Bool-cases, ◌⊎◌, inl,
  inr,
}
use cpp_cores.Container.RingBuffer.{RingBuffer, w64, distance, range, resize}
use cpp_cores.Container.RingBuffer.Queue.{IsValid}

-- Growing a valid ring whose indices are not both 0 reads past the end of the buffer, or leaves the
-- writer outside the new one. The capacities together stay within 2^64.
pub resize_breaks :
    (q : RingBuffer)
    → IsValid q
    → (new_capacity : ℕ) → q.capacity ≤ new_capacity
    → new_capacity + q.capacity ≤ w64
    → 0 < q.reader + q.writer
    → (resize new_capacity q ≡ none)
      ⊎ ((q' : RingBuffer) × (resize new_capacity q ≡ some q') × (new_capacity ≤ q'.writer))
unfolding resize range
resize_breaks q v new_capacity grows fits moved =
    let kept : ltb new_capacity q.capacity ≡ false = ground arith in
    rw kept (elim (Bool-cases (leb q.reader q.writer)) [
      | inl ahead ↦
          let past : leb (length q.buffer + q.writer) (length q.buffer) ≡ false = ground arith in
          rw (ahead, past) (inl refl)
      | inr behind ↦
          let far : new_capacity ≤ distance q = ground (arith, v.w_in, v.r_in, v.small) in
          rw behind (inr (_, refl, far))
    ])
