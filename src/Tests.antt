-- ===== src/Tests.antt =====
-- Concrete inputs of the theorems, and runs of the definitions.
mod Blocks
pub mod Files
mod Sets
pub mod Loop
mod Whole
mod Late
mod Sending
mod Playlists
mod Allocations
mod Commands
mod Clocks
mod Series
mod Repetition
mod Repairs
mod Decoding
mod Programs
use rq_route_demo.Base.{
  ℕ, ◌≡◌, refl, List, [], ◌∷◌, replicate, length-replicate, ℤ, pos, none, arith, ok,
}
use rq_route_demo.Memory.{Malloc}
use rq_route_demo.CodeBlock.Codec.{Codec}
use rq_route_demo.Segment.{SegState, Mode, receiving}
use rq_route_demo.Params.Exact.{single_block}

-- An allocator whose blocks hold zeros.
abbrev pub zero_heap : Malloc
zero_heap = record { block = λ n. replicate n 0; length-block = λ n. length-replicate n 0 }

-- A decoder that never fails, and writes nothing.
abbrev pub idle : Codec (Unit {0})
idle = record {
  include_case = λ c k n_extra n_out t. (pos 0, c);
  inter_init = λ c k n_extra. (pos 0, c);
  inter_add_ids = λ c id n. (pos 0, c);
  inter_compile = λ c. (pos 0, c);
  inter_execute = λ c t syms. (pos 0, c);
  out_init = λ c k. (pos 0, c);
  out_add_ids = λ c id n. (pos 0, c);
  out_compile = λ c. (pos 0, c);
  out_execute = λ c t out. (pos 0, out, c);
  insuff_ids = pos 1;
}

-- File 0, of three bytes, with nothing received.
abbrev pub three_bytes : SegState
three_bytes = record {
  file_nbr = 0;
  file_len = 3;
  mode = receiving;
  params = single_block 3;
  cbstates = [];
  out_fd = none;
  out_cb = none;
  out_cb_buf = [];
  out_cb_buf_sz = 0;
  out_cb_buf_offs = 0;
}
