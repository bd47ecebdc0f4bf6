-- ===== src/Segment.antt =====
-- receiver/segstate.h and receiver/segstate.c: the state of one file that is being received, and its
-- output. The value -1 of `out_fd` and `out_cb` is `none`, and a null pointer
-- to an array is the empty list. The decoder's memory, which `codec_mem` points to, is passed along.
pub mod State
pub mod Packet
pub mod Output
pub mod Drain
pub mod Keeps
pub mod Whole
use rq_route_demo.Base.{
  ℕ, zero, suc, ◌+◌, ◌-◌, ◌*◌, ◌/◌, ◌%◌, ◌^◌, Bool, true, false, ◌&&◌, not, List, [], ◌∷◌, ◌++◌,
  get_elem?, Option, none, some, Run, ok, fault, ◌>>=◌, ◌>>◌, assert, mul_int, out_of_bounds,
  division_by_zero, leb, ltb, ◌==◌, if◌then◌else◌, slice, ℤ, pos, negsuc, length, set,
}
use rq_route_demo.Memory.{Malloc}
use rq_route_demo.Params.{CodingParams, param_deriv}
use rq_route_demo.CodeBlock
use rq_route_demo.CodeBlock.{CodeBlockState}
use rq_route_demo.CodeBlock.Codec.{Codec}
use rq_route_demo.CodeBlock.Data.{get_data}
pub use rq_route_demo.Packet.{RouteHeader, route_ens_id_source}

-- `segstate_mode`
pub data Mode : Type 0 where
  receiving ready_to_write writing : Mode

-- `segstate`
pub record SegState : Type 0 where
  pub file_nbr : ℕ
  pub file_len : ℕ
  pub mode : Mode
  pub params : CodingParams
  pub cbstates : List CodeBlockState
  pub out_fd : Option ℕ
  pub out_cb : Option ℕ
  pub out_cb_buf : List ℕ
  pub out_cb_buf_sz : ℕ
  pub out_cb_buf_offs : ℕ

abbrev pub is_receiving : Mode → Bool
is_receiving receiving = true
is_receiving _ = false

abbrev pub is_ready : Mode → Bool
is_ready ready_to_write = true
is_ready _ = false

abbrev pub is_writing : Mode → Bool
is_writing writing = true
is_writing _ = false

-- A `size_t` passed as an `int` of 32 bits.
abbrev pub int_of_size : ℕ → ℤ
int_of_size n =
    let low = n % 2 ^ 32 in if ltb low (2 ^ 31) then pos low else negsuc (2 ^ 32 - 1 - low)

-- The loops of `segstate_init` over `n` code blocks of one size.
pub init_blocks : Malloc → ℕ → ℕ → ℕ → Run (List CodeBlockState)
init_blocks heap zero k t = ok []
init_blocks heap (suc n) k t = do
  block ← CodeBlock.init heap k t
  rest ← init_blocks heap n k t
  ok (block ∷ rest)

-- `segstate_init`. `param_deriv` returns 0 whenever it returns, so the call of `exit` is never made.
pub init : Malloc → ℕ → ℕ → Run SegState
init heap file_nbr file_len = do
  params ← param_deriv (int_of_size file_len)
  large ← init_blocks heap params.n_large params.k_large params.t
  small ← init_blocks heap (params.n_cb - params.n_large) (params.k_large - 1) params.t
  ok (record {
    file_nbr = file_nbr;
    file_len = file_len;
    mode = receiving;
    params = params;
    cbstates = large ++ small;
    out_fd = none;
    out_cb = none;
    out_cb_buf = [];
    out_cb_buf_sz = 0;
    out_cb_buf_offs = 0;
  })

-- `segstate_free`: both arrays are released, and their pointers set to null.
unfoldable pub free : SegState → SegState
free s = record s { out_cb_buf = []; cbstates = [] }

-- `segstate_ready_for_write`
unfoldable pub ready_for_write : SegState → SegState
ready_for_write s = record s { mode = ready_to_write }

-- `segstate_get_mode`
abbrev pub get_mode : SegState → Mode
get_mode s = s.mode

-- `payload_id / T`
pub div_uint : ℕ → ℕ → Run ℕ
div_uint a b = if b == 0 then fault division_by_zero else ok (a / b)

-- The symbol that a packet carries.
pub symbol_id : SegState → RouteHeader → Run ℕ
symbol_id s header = do
  q ← div_uint header.payload_id s.params.t
  ok (if header.ens_id == route_ens_id_source then q else s.params.k_large + q)

-- The first code block, with symbol `symb_id` added.
pub add_to_first : List CodeBlockState → ℕ → List ℕ → Run (List CodeBlockState)
add_to_first [] symb_id payload = fault out_of_bounds
add_to_first (block ∷ rest) symb_id payload = do
  added ← CodeBlock.add_sym block symb_id payload
  ok (added ∷ rest)

-- `segstate_add_packet`; `payload_id` is unsigned, so the assertion `0 <= header->payload_id` holds.
pub add_packet : SegState → RouteHeader → List ℕ → Run SegState
unfolding symbol_id add_to_first
add_packet s header payload = do
  assert (header.toi == s.file_nbr)
  assert (header.tos == s.file_len)
  assert (s.params.n_cb == 1)
  assert (is_receiving s.mode)
  symb_id ← symbol_id s header
  blocks ← add_to_first s.cbstates symb_id payload
  ok (record s { cbstates = blocks })

-- `a - b` of two values of type `size_t`
abbrev pub sub_size : ℕ → ℕ → ℕ
sub_size a b = (a + 2 ^ 64 - b) % 2 ^ 64

-- What one call of `segstate_write_more` does: its result, the bytes that `write` took, and the state.
pub record Written (C : Type 0) : Type 0 where
  pub more : Bool
  pub bytes : List ℕ
  pub state : SegState
  pub mem : C

abbrev pub is_none : {A : Type 0} → Option A → Bool
is_none none = true
is_none (some n) = false

-- The padding of the last symbol, if `out_cb` is the last code block.
pub pad_bytes : SegState → ℕ → Run ℕ
pad_bytes s out_cb =
    let n_pad_bytes = sub_size (s.params.n_srcsym_tot * s.params.t) s.file_len in
    if out_cb + 1 == s.params.n_cb
    then (assert (ltb n_pad_bytes s.params.t) >> ok n_pad_bytes)
    else ok 0

-- The size of code block `out_cb` without the padding.
pub cb_size : SegState → ℕ → Run ℕ
cb_size s out_cb = do
  n_pad_bytes ← pad_bytes s out_cb
  ok (
      sub_size (s.params.t * (s.params.k_large - (if leb s.params.n_large out_cb then 1 else 0)))
        n_pad_bytes)

module _ {C : Type 0} (rq : Codec C) where
  -- `load_cb_buf` for code block `out_cb`; the result of `codeblockstate_get_data` is not looked at.
  pub load_cb_buf : SegState → ℕ → C → Run (SegState × C)
  load_cb_buf s out_cb c = elim (get_elem? s.cbstates out_cb) [
    | none ↦ fault out_of_bounds
    | some block ↦ do
      (result, data_out, c') ← get_data rq block s.out_cb_buf c
      ok (record s { out_cb_buf = data_out }, c')
  ]

  -- `segstate_prepare_output`
  pub prepare_output : Malloc → SegState → ℕ → C → Run (SegState × C)
  prepare_output heap s out_fd c = do
    assert (is_none s.out_fd)
    out_cb_buf_sz ← mul_int s.params.t s.params.k_large
    load_cb_buf
        (record s {
          mode = writing;
          out_fd = some out_fd;
          out_cb = some 0;
          out_cb_buf_sz = out_cb_buf_sz;
          out_cb_buf = heap.block out_cb_buf_sz;
          out_cb_buf_offs = 0;
        })
        0 c

  -- The part of `segstate_write_more` behind the call of `write`, which took `n` bytes.
  pub after_write : SegState → ℕ → ℕ → ℕ → C → Run (Written C)
  after_write s out_cb size n c =
      let bytes = slice s.out_cb_buf s.out_cb_buf_offs n in
      let offs = s.out_cb_buf_offs + n in
      if offs == size
      then (let s' = record s { out_cb_buf_offs = 0; out_cb = some (out_cb + 1) } in
          if out_cb + 1 == s.params.n_cb
          then ok (record { more = false; bytes = bytes; state = s'; mem = c })
          else (load_cb_buf s' (out_cb + 1) c >>= λ r.
              ok (record { more = true; bytes = bytes; state = r.0; mem = r.1 })))
      else ok (record {
        more = true;
        bytes = bytes;
        state = record s { out_cb_buf_offs = offs };
        mem = c;
      })

  -- `segstate_write_more` while code block `out_cb` is being written. `write` takes as many of the
  -- bytes offered as `sink` says; a negative number is an error.
  pub write_block : SegState → ℕ → (ℕ → ℤ) → C → Run (Written C)
  write_block s out_cb sink c =
      if out_cb == s.params.n_cb
      then ok (record { more = false; bytes = []; state = s; mem = c })
      else do
        size ← cb_size s out_cb
        assert (ltb s.out_cb_buf_offs size)
        elim (sink (size - s.out_cb_buf_offs)) [
          | negsuc e ↦ ok (record { more = false; bytes = []; state = s; mem = c })
          | pos n ↦ after_write s out_cb size n c
        ]

  -- `segstate_write_more`. `out_cb` is -1 only before `segstate_prepare_output`; an access to code
  -- block -1 would lie outside the array.
  pub write_more : SegState → (ℕ → ℤ) → C → Run (Written C)
  write_more s sink c = do
    assert (not (is_none s.out_fd))
    assert (is_writing s.mode)
    elim s.out_cb [ none ↦ fault out_of_bounds | some out_cb ↦ write_block s out_cb sink c ]
