-- ===== src/CodeBlock/Codec.antt =====
-- The RaptorQ library of rq_api.h, which the program calls and does not contain. `C` is the contents
-- of the memory blocks that hold a decoder; a call returns its code and the new contents. The calls
-- that fill in the blocks' addresses and sizes are those of utils/rq_memblocks.c.
use rq_route_demo.Base.{ℕ, List, ℤ}

pub record Codec (C : Type 0) : Type 0 where
  -- `RqMemBlocksIncludeCase(codec_mem, nMaxK, nMaxExtraIn, nMaxOut, nMaxT)`
  pub include_case : C → ℕ → ℕ → ℕ → ℕ → ℤ × C
  -- `RqInterInit(K, n_extra, ...)`, `RqInterAddIds(..., id, n)`, `RqInterCompile(...)`
  pub inter_init : C → ℕ → ℕ → ℤ × C
  pub inter_add_ids : C → ℕ → ℕ → ℤ × C
  pub inter_compile : C → ℤ × C
  -- `RqInterExecute(..., T, syms_buf, ...)`
  pub inter_execute : C → ℕ → List ℕ → ℤ × C
  -- `RqOutInit(K, ...)`, `RqOutAddIds(..., id, n)`, `RqOutCompile(...)`
  pub out_init : C → ℕ → ℤ × C
  pub out_add_ids : C → ℕ → ℕ → ℤ × C
  pub out_compile : C → ℤ × C
  -- `RqOutExecute(..., T, ..., data_out, data_out_sz)` fills `data_out`.
  pub out_execute : C → ℕ → List ℕ → ℤ × List ℕ × C
  -- `RQ_ERR_INSUFF_IDS`
  pub insuff_ids : ℤ

-- The sizes that the library asks for: `RqInterGetMemSizes(K, n_extra, &work, &program, &symbols)` and
-- `RqOutGetMemSizes(n_out, &work, &program)`, each with its code.
pub record CodecSizes : Type 0 where
  pub inter : ℕ → ℕ → ℤ × ℕ × ℕ × ℕ
  pub out : ℕ → ℤ × ℕ × ℕ
