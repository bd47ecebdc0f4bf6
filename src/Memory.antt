-- ===== src/Memory.antt =====
-- The C library's allocator as the program relies on it: `malloc(n)` and `aligned_alloc(_, n)` return
-- a block of `n` entries whose contents are not known. The program does not look at failures.
use rq_route_demo.Base.{ℕ, ◌≡◌, List, length}

pub record Malloc : Type 0 where
  pub block : ℕ → List ℕ
  pub length-block : (n : ℕ) → length (block n) ≡ n
