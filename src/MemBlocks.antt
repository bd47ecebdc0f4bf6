-- ===== src/MemBlocks.antt =====
-- utils/rq_memblocks.h and utils/rq_memblocks.c: the memory that the decoder works in. A heap has the
-- blocks that are allocated, by number, and `malloc` gives a block with a new number; the null pointer
-- is `none`. The contents of the blocks belong to the library.
pub mod Heap
pub mod Owned
pub mod Cases
use rq_route_demo.Base.{
  ℕ, suc, ◌+◌, ◌*◌, ◌%◌, ◌^◌, Bool, List, [], ◌∷◌, mem, Option, none, some, Run, ok, fault,
  invalid_free, ◌>>=◌, ltb, ◌==◌, if◌then◌else◌, ℤ, pos, negsuc,
}
use rq_route_demo.CodeBlock.Codec.{CodecSizes}

-- The allocator: the blocks in use, the next number, and the bytes that were asked for with each number.
pub record Blocks : Type 0 where
  pub live : List ℕ
  pub next : ℕ
  pub size : ℕ → ℕ

abbrev pub remove : ℕ → List ℕ → List ℕ
remove p [] = []
remove p (q ∷ qs) = if p == q then qs else q ∷ remove p qs

-- `malloc(n)`, `aligned_alloc(_, n)`
pub malloc : ℕ → Blocks → ℕ × Blocks
malloc n h = (
  h.next,
  record {
    live = h.next ∷ h.live;
    next = h.next + 1;
    size = λ p. if p == h.next then n else h.size p;
  },
)

-- `free(p)`
pub free : ℕ → Blocks → Run Blocks
free p h = if mem p h.live then ok (record h { live = remove p h.live }) else fault invalid_free

-- `if (p) free(p);`
pub xfree : Option ℕ → Blocks → Run Blocks
unfolding free
xfree none h = ok h
xfree (some p) h = free p h

-- A pointer with the size of its block.
pub record Slot : Type 0 where
  pub size : ℕ
  pub ptr : Option ℕ

-- `RqMemBlocks`
pub record RqMemBlocks : Type 0 where
  pub max_k : ℕ
  pub max_extra_in : ℕ
  pub max_out : ℕ
  pub max_t : ℕ
  pub inter_work : Slot
  pub inter_prog : Slot
  pub inter_sym : Slot
  pub out_work : Slot
  pub out_prog : Slot

-- `alloc(x, alloc_fn)` for `n` bytes
pub alloc : ℕ → Slot → Blocks → Run (Slot × Blocks)
unfolding malloc xfree
alloc n slot h =
    if ltb slot.size n
    then (xfree slot.ptr h >>= λ h₁.
        let (p, h₂) = malloc n h₁ in ok (record { size = n; ptr = some p }, h₂))
    else ok (slot, h)

-- The allocations of `RqMemBlocksIncludeCase`, and the parameters recorded.
pub include_sizes :
    (iw ip is ow op k n_extra n_out t : ℕ) → RqMemBlocks → Blocks → Run (RqMemBlocks × Blocks)
unfolding alloc
include_sizes iw ip is ow op k n_extra n_out t b h = do
  (inter_work, h₁) ← alloc iw b.inter_work h
  (inter_prog, h₂) ← alloc ip b.inter_prog h₁
  (inter_sym, h₃) ← alloc is b.inter_sym h₂
  (out_work, h₄) ← alloc ow b.out_work h₃
  (out_prog, h₅) ← alloc op b.out_prog h₄
  ok (
    record {
      max_k = k;
      max_extra_in = n_extra;
      max_out = n_out;
      max_t = t;
      inter_work = inter_work;
      inter_prog = inter_prog;
      inter_sym = inter_sym;
      out_work = out_work;
      out_prog = out_prog;
    },
    h₅,
  )

-- `nMaxT * nInterSymNum` in `size_t`
abbrev pub sym_size : ℕ → ℕ → ℕ
sym_size t sym_num = t * sym_num % 2 ^ 64

module _ (sizes : CodecSizes) where
  -- `RqMemBlocksIncludeCase` once both sizes have been asked for
  pub after_sizes :
      ℤ × ℕ × ℕ × ℕ
      → ℤ × ℕ × ℕ
      → ℕ
      → ℕ
      → ℕ
      → ℕ
      → RqMemBlocks
      → Blocks
      → Run (ℤ × RqMemBlocks × Blocks)
  unfolding include_sizes
  after_sizes (negsuc rc, _, _, _) _ k n_extra n_out t b h = ok (negsuc rc, b, h)
  after_sizes (pos _, _, _, _) (negsuc rc, _, _) k n_extra n_out t b h = ok (negsuc rc, b, h)
  after_sizes (pos _, iw, ip, num) (pos _, ow, op) k n_extra n_out t b h =
      include_sizes iw ip (sym_size t num) ow op k n_extra n_out t b h >>= λ r. ok (pos 0, r.0, r.1)

  -- `RqMemBlocksIncludeCase`
  pub include_case : ℕ → ℕ → ℕ → ℕ → RqMemBlocks → Blocks → Run (ℤ × RqMemBlocks × Blocks)
  unfolding after_sizes
  include_case k n_extra n_out t b h =
      after_sizes (sizes.inter k n_extra) (sizes.out n_out) k n_extra n_out t b h

  -- `RqMemBlocksInit`
  pub init : ℕ → ℕ → ℕ → ℕ → Blocks → Run (ℤ × RqMemBlocks × Blocks)
  unfolding include_case
  init k n_extra n_out t h =
      let empty : Slot = record { size = 0; ptr = none } in
      include_case k n_extra n_out t
        (record {
          max_k = 0;
          max_extra_in = 0;
          max_out = 0;
          max_t = 0;
          inter_work = empty;
          inter_prog = empty;
          inter_sym = empty;
          out_work = empty;
          out_prog = empty;
        })
        h

-- `RqMemBlocksFreeMem`
pub free_mem : RqMemBlocks → Blocks → Run Blocks
unfolding xfree
free_mem b h = do
  h₁ ← xfree b.inter_work.ptr h
  h₂ ← xfree b.inter_prog.ptr h₁
  h₃ ← xfree b.inter_sym.ptr h₂
  h₄ ← xfree b.out_work.ptr h₃
  xfree b.out_prog.ptr h₄
