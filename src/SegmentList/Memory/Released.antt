-- ===== src/SegmentList/Memory/Released.antt =====
-- What `segment_list_load` allocates is what `segment_list_free` releases.
use rq_route_demo.Base.{
  ℕ, ◌+◌, ◌*◌, ◌^◌, ◌<◌, ◌≤◌, true, mem, mul_int, length-append, ◌≡◌, refl, ◌∙◌, arith, inl, inr,
  Bool-cases, List, [], ◌∷◌, ◌++◌, length, some, ok, >>=-ok, ◌==◌,
}
use rq_route_demo.MemBlocks.{Blocks, malloc, free}
use rq_route_demo.MemBlocks.Heap.{
  count, IsHeap, points, malloc-IsHeap, free-IsHeap, mem-count, malloc-Keeps, free-Keeps,
}
use rq_route_demo.SegmentList.Memory.{
  ListBlocks, realloc, write_entry, grow_blocks, add_name, add_names, load_blocks, free_names,
  free_blocks,
}

-- The blocks in use are those of the list, and those of `others`, each once for each of its pointers.
pub record Owns (others : ℕ → ℕ) (l : ListBlocks) (h : Blocks) : Type 0 where
  pub heap : IsHeap h
  pub in_use : (p : ℕ) → count p h.live ≡ points p (some l.array) + (count p l.names + others p)

-- The array has room for `arrsz` entries, of which one at least is left, and is at most twice as large as
-- it must be.
pub record HasRoom (l : ListBlocks) (h : Blocks) : Type 0 where
  pub known : l.array < h.next
  pub sized : h.size l.array ≡ l.arrsz * 8
  pub room : length l.names < l.arrsz
  pub small : l.arrsz ≤ 16 + 2 * length l.names

count-append : (p : ℕ) (xs ys : List ℕ) → count p (xs ++ ys) ≡ count p xs + count p ys
count-append p [] ys = omega arith
count-append p (x ∷ xs) ys = omega (arith, count-append p xs ys)

module _ (others : ℕ → ℕ) where
  grow_blocks-Owns :
      (l : ListBlocks) (h : Blocks)
      → Owns others l h
      → l.array < h.next
      → h.size l.array ≡ l.arrsz * 8
      → length l.names ≤ l.arrsz
      → 1 ≤ length l.names
      → l.arrsz ≤ 16 + 2 * length l.names
      → length l.names < 2 ^ 28
      → (l' : ListBlocks) × (h' : Blocks) × (grow_blocks l h ≡ ok (l', h'))
        × Owns others l' h'
        × HasRoom l' h'
        × (length l'.names ≡ length l.names)
  unfolding grow_blocks realloc
  grow_blocks-Owns l h v known sized room some_names small few =
      elim (Bool-cases (length l.names == l.arrsz)) [
        | inr more ↦ (
          l,
          h,
          rw more refl,
          v,
          record { known = known; sized = sized; room = ground arith; small = small },
          refl,
        )
        | inl full ↦
            let larger = l.arrsz * 2 in
            let (array, h₁) = malloc (larger * 8) h in
            let (heap₁, new) = malloc-IsHeap (larger * 8) v.heap in
            let (kept₁, known₁, sized₁) = malloc-Keeps (larger * 8) h in
            let rest : ℕ → ℕ = λ p. points p (some array) + (count p l.names + others p) in
            let (h₂, frees, heap₂, left) =
              free-IsHeap heap₁ l.array rest (λ p. omega (arith, new p, v.in_use p)) in
            let kept₂ = free-Keeps l.array frees in
            let doubled : mul_int l.arrsz 2 ≡ ok larger = ground arith in
            (
              record l { array = array; arrsz = larger },
              h₂,
              rw (full, doubled) (rw frees refl),
              record { heap = heap₂; in_use = left },
              record {
                known = omega (arith, known₁, kept₂.later);
                sized = kept₂.same array known₁ ∙ sized₁;
                room = ground arith;
                small = ground arith;
              },
              refl,
            )
      ]

  add_name-Owns :
      (n : ℕ) (l : ListBlocks) (h : Blocks)
      → Owns others l h
      → HasRoom l h
      → length l.names + 1 < 2 ^ 28
      → (l' : ListBlocks) × (h' : Blocks) × (add_name n l h ≡ ok (l', h'))
        × Owns others l' h'
        × HasRoom l' h'
        × (length l'.names ≡ length l.names + 1)
  unfolding add_name write_entry
  add_name-Owns n l h v r few =
      let (name, h₁) = malloc (n + 1) h in
      let (heap₁, new) = malloc-IsHeap (n + 1) v.heap in
      let (kept, _, _) = malloc-Keeps (n + 1) h in
      let longer : ListBlocks = record l { names = l.names ++ name ∷ [] } in
      let owns : Owns others longer h₁ = record {
        heap = heap₁;
        in_use = λ p. omega (arith, new p, v.in_use p, count-append p l.names (name ∷ []));
      } in
      let in_use : mem l.array h₁.live ≡ true =
        mem-count l.array h₁.live (ground (arith, owns.in_use l.array)) in
      let sized : h₁.size l.array ≡ l.arrsz * 8 = kept.same l.array r.known ∙ r.sized in
      let counted : length longer.names ≡ length l.names + 1 = length-append l.names (name ∷ []) in
      let (l', h', grown, v', r', same) =
        grow_blocks-Owns longer h₁ owns (omega (arith, r.known, kept.later)) sized
          (omega (arith, counted, r.room)) (omega (arith, counted))
          (omega (arith, counted, r.small)) (omega (arith, counted)) in
      (
        l',
        h',
        >>=-ok (write_entry l name h₁) (λ k. grow_blocks k h₁) longer
              (ground (arith, in_use, sized, r.room))
            ∙ grown,
        v',
        r',
        same ∙ counted,
      )

  add_names-Owns :
      (ns : List ℕ) (l : ListBlocks) (h : Blocks)
      → Owns others l h
      → HasRoom l h
      → length l.names + length ns < 2 ^ 28
      → (l' : ListBlocks) × (h' : Blocks) × (add_names ns l h ≡ ok (l', h'))
        × Owns others l' h'
        × (length l'.names ≡ length l.names + length ns)
  unfolding add_names
  add_names-Owns [] l h v r few = (l, h, refl, v, omega arith)
  add_names-Owns (n ∷ ns) l h v r few =
      let (l₁, h₁, one, v₁, r₁, counted) = add_name-Owns n l h v r (omega arith) in
      let (l', h', runs, v', all) = add_names-Owns ns l₁ h₁ v₁ r₁ (omega (arith, counted)) in
      (l', h', >>=-ok (add_name n l h) _ (l₁, h₁) one ∙ runs, v', omega (arith, all, counted))

free_names-IsHeap :
    (names : List ℕ) (h : Blocks) (rest : ℕ → ℕ)
    → IsHeap h
    → ((p : ℕ) → count p h.live ≡ count p names + rest p)
    → (h' : Blocks) × (free_names names h ≡ ok h')
      × IsHeap h'
      × ((p : ℕ) → count p h'.live ≡ rest p)
unfolding free_names
free_names-IsHeap [] h rest v owned = (h, refl, v, λ p. owned p ∙ omega arith)
free_names-IsHeap (name ∷ names) h rest v owned =
    let (h₁, frees, v₁, left) =
      free-IsHeap v name (λ p. count p names + rest p) (λ p. omega (arith, owned p)) in
    let (h', runs, v', all) = free_names-IsHeap names h₁ rest v₁ left in
    (h', >>=-ok (free name h) _ h₁ frees ∙ runs, v', all)

-- For fewer than 2 ^ 28 entries, with paths of any lengths: `segment_list_load` and then
-- `segment_list_free` use and release memory without a fault. Each entry is written within the array that
-- is allocated then, the list has as many names as there are entries, no block is released twice, and the
-- blocks in use are those from before.
pub load-free :
    (ns : List ℕ) (h : Blocks)
    → IsHeap h
    → length ns < 2 ^ 28
    → (l : ListBlocks) × (h₁ : Blocks) × (h₂ : Blocks) × (load_blocks ns h ≡ ok (l, h₁))
      × (length l.names ≡ length ns)
      × (free_blocks l h₁ ≡ ok h₂)
      × IsHeap h₂
      × ((p : ℕ) → count p h₂.live ≡ count p h.live)
unfolding load_blocks free_blocks
load-free ns h v few =
    let (array, h₀) = malloc (16 * 8) h in
    let (v₀, new) = malloc-IsHeap (16 * 8) v in
    let (_, known, sized) = malloc-Keeps (16 * 8) h in
    let others : ℕ → ℕ = λ p. count p h.live in
    let empty : ListBlocks = record { array = array; names = []; arrsz = 16 } in
    let (l, h₁, loads, owns, counted) =
      add_names-Owns others ns empty h₀ (record { heap = v₀; in_use = λ p. new p ∙ omega arith })
        (record { known = known; sized = sized; room = omega arith; small = omega arith })
        (omega (arith, few)) in
    let (h', names_freed, v', left) =
      free_names-IsHeap l.names h₁ (λ p. points p (some l.array) + others p) owns.heap
        (λ p. omega (arith, owns.in_use p)) in
    let (h₂, freed, v₂, same) = free-IsHeap v' l.array others left in
    (
      l,
      h₁,
      h₂,
      loads,
      counted ∙ omega arith,
      >>=-ok (free_names l.names h₁) _ h' names_freed ∙ freed,
      v₂,
      same,
    )
