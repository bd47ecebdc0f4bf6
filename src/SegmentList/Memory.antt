-- ===== src/SegmentList/Memory.antt =====
-- The memory of a list of segments: what `segment_list_load` allocates for a number of entries, and
-- `segment_list_free`. A pointer is the number of its block. `realloc` is taken to move the array.
pub mod Released
use rq_route_demo.Base.{
  ℕ, ◌+◌, ◌*◌, ◌&&◌, List, [], ◌∷◌, ◌++◌, length, mem, Run, ok, fault, out_of_bounds, ◌>>=◌,
  mul_int, leb, ◌==◌, if◌then◌else◌,
}
use rq_route_demo.MemBlocks.{Blocks, malloc, free}

-- The pointers of `segment_list`: to the array, and to the names in it, one for each of its entries. The
-- array has room for `arrsz`.
pub record ListBlocks : Type 0 where
  pub array : ℕ
  pub names : List ℕ
  pub arrsz : ℕ

-- `realloc`
pub realloc : ℕ → ℕ → Blocks → Run (ℕ × Blocks)
realloc p n h = let (q, h₁) = malloc n h in free p h₁ >>= λ h₂. ok (q, h₂)

-- The write of `segments[n].file_name`, a pointer of 8 bytes: the array must be in use, and large enough.
pub write_entry : ListBlocks → ℕ → Blocks → Run ListBlocks
write_entry l name h =
    if mem l.array h.live && leb ((length l.names + 1) * 8) (h.size l.array)
    then ok (record l { names = l.names ++ name ∷ [] })
    else fault out_of_bounds

-- The larger array, once it is full.
pub grow_blocks : ListBlocks → Blocks → Run (ListBlocks × Blocks)
unfolding realloc
grow_blocks l h =
    if length l.names == l.arrsz
    then (mul_int l.arrsz 2 >>= λ larger.
        realloc l.array (larger * 8) h >>= λ r. ok (record l { array = r.0; arrsz = larger }, r.1))
    else ok (l, h)

-- One round of the loop, for a path of `n` bytes: `strdup`, the write, and the larger array.
pub add_name : ℕ → ListBlocks → Blocks → Run (ListBlocks × Blocks)
unfolding write_entry grow_blocks
add_name n l h =
    let (name, h₁) = malloc (n + 1) h in write_entry l name h₁ >>= λ longer. grow_blocks longer h₁

pub add_names : List ℕ → ListBlocks → Blocks → Run (ListBlocks × Blocks)
unfolding add_name
add_names [] l h = ok (l, h)
add_names (n ∷ ns) l h = add_name n l h >>= λ r. add_names ns r.0 r.1

-- `segment_list_load`, for a playlist whose entries give paths of these lengths
pub load_blocks : List ℕ → Blocks → Run (ListBlocks × Blocks)
unfolding add_names
load_blocks ns h =
    let (array, h₁) = malloc (16 * 8) h in
    add_names ns (record { array = array; names = []; arrsz = 16 }) h₁

-- The loop of `segment_list_free`
pub free_names : List ℕ → Blocks → Run Blocks
free_names [] h = ok h
free_names (name ∷ names) h = free name h >>= free_names names

-- `segment_list_free`
pub free_blocks : ListBlocks → Blocks → Run Blocks
unfolding free_names
free_blocks l h = free_names l.names h >>= free l.array
