-- ===== src/Segment/State.antt =====
-- The state of a file as `segstate_init` sets it up.
use rq_route_demo.Base.{ℕ, ◌^◌, ◌≤◌, ◌<◌, ◌≡◌, refl, arith, [], ◌∷◌, ok, pos, none}
use rq_route_demo.Memory.{Malloc}
use rq_route_demo.Params.Exact.{symbols, max_file, single_block, accepts}
use rq_route_demo.CodeBlock
use rq_route_demo.CodeBlock.{CodeBlockState}
use rq_route_demo.CodeBlock.Invariant.{IsValid as BlockIsValid, init-Fresh}
use rq_route_demo.CodeBlock.Received.{received}
use rq_route_demo.Segment.{SegState, receiving, init, init_blocks, int_of_size}

-- A file of `file_len` bytes in one code block.
pub record IsValid (s : SegState) : Type 0 where
  pub some_bytes : 0 < s.file_len
  pub fits : s.file_len ≤ max_file
  pub derived : s.params ≡ single_block s.file_len
  pub block : CodeBlockState
  pub one_block : s.cbstates ≡ block ∷ []
  pub block_valid : BlockIsValid block
  pub block_k : block.k ≡ symbols s.file_len
  pub block_t : block.t ≡ 1024

-- A new state: nothing received yet, and no output.
pub record IsNew (file_nbr file_len : ℕ) (s : SegState) : Type 0 where
  pub valid : IsValid s
  pub numbered : s.file_nbr ≡ file_nbr
  pub sized : s.file_len ≡ file_len
  pub receives : s.mode ≡ receiving
  pub nothing_received : received valid.block ≡ []
  pub no_output : s.out_fd ≡ none

int_of_size-small : (f : ℕ) → f < 2 ^ 31 → int_of_size f ≡ pos f
int_of_size-small f h = ground arith

init_blocks-one :
    (heap : Malloc) (k t : ℕ) (b : CodeBlockState)
    → CodeBlock.init heap k t ≡ ok b
    → init_blocks heap 1 k t ≡ ok (b ∷ [])
unfolding init_blocks
init_blocks-one heap k t b e = rw e

init_blocks-none : (heap : Malloc) (k t : ℕ) → init_blocks heap 0 k t ≡ ok []
unfolding init_blocks
init_blocks-none heap k t = refl

-- For every file of 1 to 51200000 bytes, `segstate_init` returns a state of one well-formed code block
-- that has the number and size given, is receiving, has no output, and has received nothing.
pub init-IsNew :
    (heap : Malloc) (file_nbr file_len : ℕ)
    → 0 < file_len
    → file_len ≤ max_file
    → (s : SegState) × (init heap file_nbr file_len ≡ ok s) × IsNew file_nbr file_len s
unfolding init
init-IsNew heap file_nbr file_len h k =
    let (b, made, fresh) = init-Fresh heap (symbols file_len) 1024 (omega arith) (omega arith) in
    (
      state b,
      runs b made,
      record {
        valid = record {
          some_bytes = h;
          fits = k;
          derived = refl;
          block = b;
          one_block = refl;
          block_valid = fresh.valid;
          block_k = fresh.k_kept;
          block_t = fresh.t_kept;
        };
        numbered = refl;
        sized = refl;
        receives = refl;
        nothing_received = fresh.none_received;
        no_output = refl;
      },
    )
  where
    state : CodeBlockState → SegState
    state b = record {
      file_nbr = file_nbr;
      file_len = file_len;
      mode = receiving;
      params = single_block file_len;
      cbstates = b ∷ [];
      out_fd = none;
      out_cb = none;
      out_cb_buf = [];
      out_cb_buf_sz = 0;
      out_cb_buf_offs = 0;
    }

    runs :
        (b : CodeBlockState)
        → CodeBlock.init heap (symbols file_len) 1024 ≡ ok b
        → init heap file_nbr file_len ≡ ok (state b)
    runs b made = rw (
      int_of_size-small file_len (omega arith),
      accepts file_len h k,
      init_blocks-one heap (symbols file_len) 1024 b made,
      init_blocks-none,
    )
