-- ===== src/MemBlocks/Cases.antt =====
-- Whole sequences of calls: the blocks set up, made large enough for any cases, and freed.
use rq_route_demo.Base.{
  ℕ, ◌≡◌, refl, ◌∙◌, ◌⊎◌, arith, List, [], ◌∷◌, none, Run, ok, ◌>>=◌, >>=-ok, inl, inr, ℤ, pos,
  negsuc,
}
use rq_route_demo.CodeBlock.Codec.{CodecSizes}
use rq_route_demo.MemBlocks.{
  Blocks, Slot, RqMemBlocks, sym_size, after_sizes, include_case, init, free_mem,
}
use rq_route_demo.MemBlocks.Heap.{count, IsHeap}
use rq_route_demo.MemBlocks.Owned.{Owns, NoSmaller, Enough, include_sizes_lem, free_mem_lem}

-- The arguments of a call: `nMaxK`, `nMaxExtraIn`, `nMaxOut` and `nMaxT`.
abbrev pub Case : Type 0
Case = ℕ × ℕ × ℕ × ℕ

module _ (sizes : CodecSizes) where
  -- The blocks of the sizes that the library asks for.
  abbrev pub Serves : Case → RqMemBlocks → Type 0
  Serves (k, n_extra, n_out, t) b =
      Enough (sizes.inter k n_extra).1 (sizes.inter k n_extra).2
        (sym_size t (sizes.inter k n_extra).3) (sizes.out n_out).1 (sizes.out n_out).2 b

  -- What a call leaves: a negative code and everything as it was, or 0, blocks of the sizes asked for,
  -- and none smaller than before.
  abbrev pub Included : Case → RqMemBlocks → Blocks → ℤ → RqMemBlocks → Blocks → Type 0
  Included c b h rc b' h' =
      ((e : ℕ) × (rc ≡ negsuc e) × (b' ≡ b) × (h' ≡ h))
      ⊎ ((rc ≡ pos 0) × NoSmaller b b' × Serves c b')

  after_sizes_lem :
      (inter : ℤ × ℕ × ℕ × ℕ) (out : ℤ × ℕ × ℕ) (c : Case) {others : List ℕ} {b : RqMemBlocks}
      {h : Blocks}
      → Owns others b h
      → (rc : ℤ) × (b' : RqMemBlocks) × (h' : Blocks) × (after_sizes sizes inter out c.0 c.1 c.2 c.3
            b h
          ≡ ok (rc, b', h'))
        × Owns others b' h'
        × (((e : ℕ) × (rc ≡ negsuc e) × (b' ≡ b) × (h' ≡ h))
            ⊎ ((rc ≡ pos 0)
                × NoSmaller b b'
                × Enough inter.1 inter.2 (sym_size c.3 inter.3) out.1 out.2 b'))
  unfolding after_sizes
  after_sizes_lem (negsuc e, iw, ip, num) out c {others} {b} {h} o =
      (negsuc e, b, h, refl, o, inl (e, refl, refl, refl))
  after_sizes_lem (pos n, iw, ip, num) (negsuc e, ow, op) c {others} {b} {h} o =
      (negsuc e, b, h, refl, o, inl (e, refl, refl, refl))
  after_sizes_lem (pos n, iw, ip, num) (pos m, ow, op) (k, n_extra, n_out, t) o =
      let (b', h', runs, o', grows, enough) =
        include_sizes_lem iw ip (sym_size t num) ow op k n_extra n_out t o in
      (pos 0, b', h', rw runs, o', inr (refl, grows, enough))

  -- Whatever the library answers, `RqMemBlocksIncludeCase` returns without a fault, its blocks stay the
  -- only ones in use besides the others, each used once and allocated with the size that is recorded for
  -- it, and either it returns an error with everything as it was, or 0 with blocks of at least the sizes
  -- that the library asks for, none smaller than before.
  pub include_case_lem :
      (c : Case) {others : List ℕ} {b : RqMemBlocks} {h : Blocks}
      → Owns others b h
      → (rc : ℤ) × (b' : RqMemBlocks) × (h' : Blocks) × (include_case sizes c.0 c.1 c.2 c.3 b h
          ≡ ok (rc, b', h'))
        × Owns others b' h'
        × Included c b h rc b' h'
  unfolding include_case
  include_case_lem (k, n_extra, n_out, t) o =
      after_sizes_lem (sizes.inter k n_extra) (sizes.out n_out) (k, n_extra, n_out, t) o

  -- A caller that includes one case after the other, and frees the blocks at the end.
  pub include_all : List Case → RqMemBlocks → Blocks → Run Blocks
  include_all [] b h = free_mem b h
  include_all ((k, n_extra, n_out, t) ∷ cases) b h =
      include_case sizes k n_extra n_out t b h >>= λ r. include_all cases r.1 r.2

  pub use_blocks : Case → List Case → Blocks → Run Blocks
  unfolding include_all
  use_blocks (k, n_extra, n_out, t) cases h =
      init sizes k n_extra n_out t h >>= λ r. include_all cases r.1 r.2

  include_all_lem :
      (cases : List Case) {others : List ℕ} {b : RqMemBlocks} {h : Blocks}
      → Owns others b h
      → (h' : Blocks) × (include_all cases b h ≡ ok h')
        × ((p : ℕ) → count p h'.live ≡ count p others)
  unfolding include_all
  include_all_lem [] o = let (h', runs, v, left) = free_mem_lem o in (h', runs, left)
  include_all_lem ((k, n_extra, n_out, t) ∷ cases) {others} {b} {h} o =
      let (rc, b', h₁, runs, o', _) = include_case_lem (k, n_extra, n_out, t) o in
      let (h', rest, left) = include_all_lem cases o' in
      (h', >>=-ok (include_case sizes k n_extra n_out t b h) _ (rc, b', h₁) runs ∙ rest, left)

  -- From `RqMemBlocksInit` over any calls of `RqMemBlocksIncludeCase`, failing ones included, to
  -- `RqMemBlocksFreeMem`: nothing is freed that is not allocated, and at the end just the blocks are in
  -- use that were in use before.
  pub use_blocks_lem :
      (c : Case) (cases : List Case) {h : Blocks}
      → IsHeap h
      → (h' : Blocks) × (use_blocks c cases h ≡ ok h')
        × ((p : ℕ) → count p h'.live ≡ count p h.live)
  unfolding use_blocks init
  use_blocks_lem (k, n_extra, n_out, t) cases {h} v =
      let empty : Slot = record { size = 0; ptr = none } in
      let b : RqMemBlocks = record {
        max_k = 0;
        max_extra_in = 0;
        max_out = 0;
        max_t = 0;
        inter_work = empty;
        inter_prog = empty;
        inter_sym = empty;
        out_work = empty;
        out_prog = empty;
      } in
      let o : Owns h.live b h = record {
        heap = v;
        owned = λ p. omega arith;
        work_backed = inl refl;
        prog_backed = inl refl;
        sym_backed = inl refl;
        out_work_backed = inl refl;
        out_prog_backed = inl refl;
      } in
      let (rc, b', h₁, runs, o', _) = include_case_lem (k, n_extra, n_out, t) o in
      let (h', rest, left) = include_all_lem cases o' in
      (h', >>=-ok (include_case sizes k n_extra n_out t b h) _ (rc, b', h₁) runs ∙ rest, left)
