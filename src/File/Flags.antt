-- ===== src/File/Flags.antt =====
-- src/utils/fd_utils.h: `make_non_blocking` and `make_blocking`, over the calls of `fcntl` on one
-- descriptor, which are parameters, as is the bit `O_NONBLOCK`.
pub mod Bit
pub mod Effect
mod Tests
use cpp_cores.Base.{ℕ, ◌-◌, ◌^◌, Bool, true, false, bit_and, bit_or, ◌==◌, if◌then◌else◌}
use cpp_cores.Base.Int.{ℤ, pos, negsuc}

-- `F_GETFL` and `F_SETFL`; a negative result is an error.
pub record Fcntl (K : Type 0) : Type 0 where
  pub getfl : K → ℤ
  pub setfl : K → ℕ → K × ℤ

module _ {K : Type 0} (c : Fcntl K) (o_nonblock : ℕ) where
  -- The rest of `make_non_blocking`, from the flags on.
  pub set_flag : ℤ → K → K × ℤ
  set_flag (negsuc e) s = (s, negsuc e)
  set_flag (pos flag) s =
      if bit_and flag o_nonblock == 0 then c.setfl s (bit_or flag o_nonblock) else (s, pos 0)

  pub make_non_blocking : K → K × ℤ
  make_non_blocking s = set_flag (c.getfl s) s

  -- The rest of `make_blocking`; `f & ~m` is `f - (f & m)`.
  pub clear_flag : ℤ → K → K × ℤ
  clear_flag (negsuc e) s = (s, negsuc e)
  clear_flag (pos flags) s =
      if bit_and flags o_nonblock == 0
      then (s, pos 0)
      else c.setfl s (flags - bit_and flags o_nonblock)

  pub make_blocking : K → K × ℤ
  make_blocking s = clear_flag (c.getfl s) s
