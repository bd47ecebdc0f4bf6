-- ===== src/Descriptors.antt =====
-- utils/fd_ops.c. What `fcntl` answers is a parameter: the mode for `F_GETFL`, also -1, which the code does
-- not look at, and the result of `F_SETFL` for each mode.
use rq_route_demo.Base.{ℤ, pos, negsuc, eqb_ℤ, if◌then◌else◌}

-- The calls of `fcntl` for one descriptor, and `mode | O_NONBLOCK`.
pub record Fcntl : Type 0 where
  pub getfl : ℤ
  pub setfl : ℤ → ℤ
  pub or_nonblock : ℤ → ℤ

-- `make_nonblock`
abbrev pub make_nonblock : Fcntl → ℤ
make_nonblock fd = if eqb_ℤ (fd.setfl (fd.or_nonblock fd.getfl)) (negsuc 0) then negsuc 0 else pos 0
