-- ===== src/Tests/Allocations.antt =====
-- Blocks for two cases, on a heap with one block of another owner.
use rq_route_demo.Base.{
  ℕ, replicate, length, ◌≡◌, ◌==◌, ◌+◌, true, false, refl, [], ◌∷◌, ok, none, arith, inl, ℤ, pos,
  negsuc,
}
use rq_route_demo.CodeBlock.Codec.{CodecSizes}
use rq_route_demo.MemBlocks.{Blocks, Slot, RqMemBlocks, include_case}
use rq_route_demo.MemBlocks.Heap.{count, IsHeap}
use rq_route_demo.SegmentList.Memory.{ListBlocks, load_blocks, free_blocks}
use rq_route_demo.SegmentList.Memory.Released.{load-free}
use rq_route_demo.MemBlocks.Owned.{Owns}
use rq_route_demo.MemBlocks.Cases.{Included, use_blocks, include_case_lem, use_blocks_lem}

-- Sizes that grow with the case, and an error for 9 symbols.
abbrev sizes : CodecSizes
sizes = record {
  inter = λ k n. (elim (k == 9) [ true ↦ negsuc 0 | false ↦ pos 0 ], k, k + n, n);
  out = λ n. (pos 0, n, 8);
}

abbrev heap : Blocks
heap = record { live = 4 ∷ []; next = 5; size = λ p. 0 }

heap-IsHeap : IsHeap heap
heap-IsHeap = record { single = λ p. ground arith; fresh = λ p h. ground arith }

abbrev empty : Slot
empty = record { size = 0; ptr = none }

abbrev no_blocks : RqMemBlocks
no_blocks = record {
  max_k = 0;
  max_extra_in = 0;
  max_out = 0;
  max_t = 0;
  inter_work = empty;
  inter_prog = empty;
  inter_sym = empty;
  out_work = empty;
  out_prog = empty;
}

no_blocks-Owns : Owns (4 ∷ []) no_blocks heap
no_blocks-Owns = record {
  heap = heap-IsHeap;
  owned = λ p. omega arith;
  work_backed = inl refl;
  prog_backed = inl refl;
  sym_backed = inl refl;
  out_work_backed = inl refl;
  out_prog_backed = inl refl;
}

include_case_lem_example :
    (rc : ℤ) × (b' : RqMemBlocks) × (h' : Blocks) × (include_case sizes 10 2 1 1024 no_blocks heap
      ≡ ok (rc, b', h'))
    × Owns (4 ∷ []) b' h'
    × Included sizes (10, 2, 1, 1024) no_blocks heap rc b' h'
include_case_lem_example = include_case_lem sizes (10, 2, 1, 1024) no_blocks-Owns

use_blocks_lem_example :
    (h' : Blocks) × (use_blocks sizes (10, 2, 1, 1024) ((9, 2, 1, 1024) ∷ (20, 1, 1, 512) ∷ []) heap
      ≡ ok h')
    × ((p : ℕ) → count p h'.live ≡ count p (4 ∷ []))
use_blocks_lem_example =
    use_blocks_lem sizes (10, 2, 1, 1024) ((9, 2, 1, 1024) ∷ (20, 1, 1, 512) ∷ []) heap-IsHeap

load-free_example :
    (l : ListBlocks) × (h₁ : Blocks) × (h₂ : Blocks) × (load_blocks (replicate 20 7) heap
      ≡ ok (l, h₁))
    × (length l.names ≡ 20)
    × (free_blocks l h₁ ≡ ok h₂)
    × IsHeap h₂
    × ((p : ℕ) → count p h₂.live ≡ count p heap.live)
load-free_example = load-free (replicate 20 7) heap heap-IsHeap (omega arith)
