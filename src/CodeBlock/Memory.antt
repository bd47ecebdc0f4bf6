-- ===== src/CodeBlock/Memory.antt =====
-- The memory of a code block: what `codeblockstate_init` allocates, and `codeblockstate_free`. A pointer is
-- the number of its block.
use rq_route_demo.Base.{ℕ, ◌*◌, ◌≡◌, ◌∙◌, Run, ok, ◌>>=◌, >>=-ok}
use rq_route_demo.MemBlocks.{Blocks, malloc, free}
use rq_route_demo.MemBlocks.Heap.{count, IsHeap, malloc-IsHeap, free-IsHeap}

-- The pointers of `codeblockstate`
pub record BlockPointers : Type 0 where
  pub esi : ℕ
  pub hash_esi : ℕ
  pub syms_buf : ℕ

-- The allocations of `codeblockstate_init`. An `int` has 4 bytes.
pub init_blocks : (n_esi_max hash_esi_sz t : ℕ) → Blocks → BlockPointers × Blocks
init_blocks n_esi_max hash_esi_sz t h =
    let (esi, h₁) = malloc (4 * n_esi_max) h in
    let (hash_esi, h₂) = malloc (hash_esi_sz * 4) h₁ in
    let (syms_buf, h₃) = malloc (t * n_esi_max) h₂ in
    (record { esi = esi; hash_esi = hash_esi; syms_buf = syms_buf }, h₃)

-- `codeblockstate_free`
pub free_blocks : BlockPointers → Blocks → Run Blocks
free_blocks s h = do h₁ ← free s.syms_buf h; h₂ ← free s.hash_esi h₁; free s.esi h₂

-- `codeblockstate_init` and then `codeblockstate_free` leave the blocks in use as they were.
pub init-free :
    (n_esi_max hash_esi_sz t : ℕ) (h : Blocks)
    → IsHeap h
    → (h' : Blocks) × (free_blocks
          (init_blocks n_esi_max hash_esi_sz t h).0
          (init_blocks n_esi_max hash_esi_sz t h).1
        ≡ ok h')
      × IsHeap h'
      × ((p : ℕ) → count p h'.live ≡ count p h.live)
unfolding init_blocks free_blocks
init-free n_esi_max hash_esi_sz t h v =
    let (esi, h₁) = malloc (4 * n_esi_max) h in
    let (hash_esi, h₂) = malloc (hash_esi_sz * 4) h₁ in
    let (syms_buf, h₃) = malloc (t * n_esi_max) h₂ in
    let (v₁, new₁) = malloc-IsHeap (4 * n_esi_max) v in
    let (v₂, new₂) = malloc-IsHeap (hash_esi_sz * 4) v₁ in
    let (v₃, new₃) = malloc-IsHeap (t * n_esi_max) v₂ in
    let (g₁, frees₁, u₁, left₁) = free-IsHeap v₃ syms_buf (λ p. count p h₂.live) new₃ in
    let (g₂, frees₂, u₂, left₂) =
      free-IsHeap u₁ hash_esi (λ p. count p h₁.live) (λ p. left₁ p ∙ new₂ p) in
    let (g₃, frees₃, u₃, left₃) =
      free-IsHeap u₂ esi (λ p. count p h.live) (λ p. left₂ p ∙ new₁ p) in
    (
      g₃,
      >>=-ok (free syms_buf h₃) _ g₁ frees₁ ∙ >>=-ok (free hash_esi g₁) _ g₂ frees₂ ∙ frees₃,
      u₃,
      left₃,
    )
