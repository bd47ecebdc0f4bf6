-- ===== src/MemBlocks/Owned.antt =====
-- The blocks of one `RqMemBlocks`, and everything else that is in use.
use rq_route_demo.Base.{
  ℕ, ◌+◌, ◌≤◌, ◌<◌, ◌≡◌, refl, ◌∙◌, ◌⊎◌, arith, List, some, ok, ltb, Bool-cases, inl, inr,
}
use rq_route_demo.MemBlocks.{Blocks, malloc, Slot, RqMemBlocks, alloc, include_sizes, free_mem}
use rq_route_demo.MemBlocks.Heap.{
  count, IsHeap, points, malloc-IsHeap, xfree-IsHeap, Keeps, Keeps-trans, malloc-Keeps, xfree-Keeps,
}

-- A slot of a size other than 0 has a block, which was allocated with just that size.
abbrev pub IsBacked : Blocks → Slot → Type 0
IsBacked h s = (s.size ≡ 0) ⊎ ((p : ℕ) × (s.ptr ≡ some p) × (p < h.next) × (h.size p ≡ s.size))

IsBacked-Keeps : {h h' : Blocks} (s : Slot) → Keeps h h' → IsBacked h s → IsBacked h' s
IsBacked-Keeps s k (inl none_needed) = inl none_needed
IsBacked-Keeps s k (inr (p, at, known, sized)) =
    inr (p, at, omega (arith, k.later), k.same p known ∙ sized)

-- What `alloc` leaves: the slot has a block of `n` bytes or more, the old block is in use no more if it
-- was replaced, and `rest` is as before.
record Allocated (n : ℕ) (slot : Slot) (h : Blocks) (rest : ℕ → ℕ) (slot' : Slot) (h' : Blocks)
    : Type 0 where
  heap : IsHeap h'
  owned : (p : ℕ) → count p h'.live ≡ points p slot'.ptr + rest p
  enough : n ≤ slot'.size
  grows : slot.size ≤ slot'.size
  backed : IsBacked h' slot'
  kept : Keeps h h'

alloc_lem :
    (n : ℕ) (slot : Slot) {h : Blocks} (v : IsHeap h) (rest : ℕ → ℕ)
    → ((p : ℕ) → count p h.live ≡ points p slot.ptr + rest p)
    → IsBacked h slot
    → (slot' : Slot) × (h' : Blocks) × (alloc n slot h ≡ ok (slot', h'))
      × Allocated n slot h rest slot' h'
unfolding alloc
alloc_lem n slot {h} v rest owned backed = elim (Bool-cases (ltb slot.size n)) [
  | inr large ↦ (
    slot,
    h,
    rw large,
    record {
      heap = v;
      owned = owned;
      enough = ground arith;
      grows = omega arith;
      backed = backed;
      kept = record { later = omega arith; same = λ p lt. refl };
    },
  )
  | inl small ↦
      let (h₁, freed, v₁, left) = xfree-IsHeap v slot.ptr rest owned in
      let (v₂, taken) = malloc-IsHeap n v₁ in
      let (kept, known, sized) = malloc-Keeps n h₁ in
      (
        record { size = n; ptr = some (malloc n h₁).0 },
        (malloc n h₁).1,
        rw (small, freed),
        record {
          heap = v₂;
          owned = λ p. taken p ∙ omega (arith, left p);
          enough = omega arith;
          grows = ground arith;
          backed = inr ((malloc n h₁).0, refl, known, sized);
          kept = Keeps-trans (xfree-Keeps slot.ptr freed) kept;
        },
      )
]

-- The same, for what is shown of any slot and heap that `alloc` may leave.
with_alloc :
    {R : Type 0} (n : ℕ) (slot : Slot) {h : Blocks} (v : IsHeap h) (rest : ℕ → ℕ)
    → ((p : ℕ) → count p h.live ≡ points p slot.ptr + rest p)
    → IsBacked h slot
    → ((slot' : Slot) (h' : Blocks)
        → alloc n slot h ≡ ok (slot', h')
        → Allocated n slot h rest slot' h'
        → R)
    → R
with_alloc n slot {h} v rest owned backed show =
    let (slot', h', runs, a) = alloc_lem n slot v rest owned backed in show slot' h' runs a

-- The blocks of `b` are in use, each for one slot and with the size that is recorded for it, and besides
-- them just the blocks `others`.
pub record Owns (others : List ℕ) (b : RqMemBlocks) (h : Blocks) : Type 0 where
  pub heap : IsHeap h
  pub owned :
      (p : ℕ)
      → count p h.live
        ≡ points p b.inter_work.ptr
          + points p b.inter_prog.ptr
          + points p b.inter_sym.ptr
          + points p b.out_work.ptr
          + points p b.out_prog.ptr
          + count p others
  pub work_backed : IsBacked h b.inter_work
  pub prog_backed : IsBacked h b.inter_prog
  pub sym_backed : IsBacked h b.inter_sym
  pub out_work_backed : IsBacked h b.out_work
  pub out_prog_backed : IsBacked h b.out_prog

-- No block of `b` is smaller than the one of `a`.
pub record NoSmaller (a b : RqMemBlocks) : Type 0 where
  pub work : a.inter_work.size ≤ b.inter_work.size
  pub prog : a.inter_prog.size ≤ b.inter_prog.size
  pub sym_mem : a.inter_sym.size ≤ b.inter_sym.size
  pub out_work : a.out_work.size ≤ b.out_work.size
  pub out_prog : a.out_prog.size ≤ b.out_prog.size

-- The blocks have the sizes asked for.
pub record Enough (iw ip is ow op : ℕ) (b : RqMemBlocks) : Type 0 where
  pub work : iw ≤ b.inter_work.size
  pub prog : ip ≤ b.inter_prog.size
  pub sym_mem : is ≤ b.inter_sym.size
  pub out_work : ow ≤ b.out_work.size
  pub out_prog : op ≤ b.out_prog.size

pub include_sizes_lem :
    (iw ip is ow op k n_extra n_out t : ℕ) {others : List ℕ} {b : RqMemBlocks} {h : Blocks}
    → Owns others b h
    → (b' : RqMemBlocks) × (h' : Blocks) × (include_sizes iw ip is ow op k n_extra n_out t b h
        ≡ ok (b', h'))
      × Owns others b' h'
      × NoSmaller b b'
      × Enough iw ip is ow op b'
unfolding include_sizes
include_sizes_lem iw ip is ow op k n_extra n_out t {others} {b} {h} o =
    let o₂ = λ (p : ℕ). points p b.inter_prog.ptr in
    let o₃ = λ (p : ℕ). points p b.inter_sym.ptr in
    let o₄ = λ (p : ℕ). points p b.out_work.ptr in
    let o₅ = λ (p : ℕ). points p b.out_prog.ptr in
    with_alloc iw b.inter_work o.heap (λ p. o₂ p + o₃ p + o₄ p + o₅ p + count p others)
      (λ p. omega (arith, o.owned p)) o.work_backed
      λ s₁ h₁ r₁ a₁.
        with_alloc ip b.inter_prog a₁.heap
          (λ p. points p s₁.ptr + o₃ p + o₄ p + o₅ p + count p others)
          (λ p. omega (arith, a₁.owned p)) (IsBacked-Keeps b.inter_prog a₁.kept o.prog_backed)
          λ s₂ h₂ r₂ a₂.
            with_alloc is b.inter_sym a₂.heap
              (λ p. points p s₁.ptr + points p s₂.ptr + o₄ p + o₅ p + count p others)
              (λ p. omega (arith, a₂.owned p))
              (IsBacked-Keeps b.inter_sym (Keeps-trans a₁.kept a₂.kept) o.sym_backed)
              λ s₃ h₃ r₃ a₃.
                with_alloc ow b.out_work a₃.heap
                  (λ p. points p s₁.ptr + points p s₂.ptr + points p s₃.ptr + o₅ p + count p others)
                  (λ p. omega (arith, a₃.owned p))
                  (IsBacked-Keeps b.out_work (Keeps-trans a₁.kept (Keeps-trans a₂.kept a₃.kept))
                    o.out_work_backed)
                  λ s₄ h₄ r₄ a₄.
                    with_alloc op b.out_prog a₄.heap
                      (λ p.
                        points p s₁.ptr
                        + points p s₂.ptr
                        + points p s₃.ptr
                        + points p s₄.ptr
                        + count p others)
                      (λ p. omega (arith, a₄.owned p))
                      (IsBacked-Keeps b.out_prog
                        (Keeps-trans a₁.kept (Keeps-trans a₂.kept (Keeps-trans a₃.kept a₄.kept)))
                        o.out_prog_backed)
                      λ s₅ h₅ r₅ a₅. (
                        record {
                          max_k = k;
                          max_extra_in = n_extra;
                          max_out = n_out;
                          max_t = t;
                          inter_work = s₁;
                          inter_prog = s₂;
                          inter_sym = s₃;
                          out_work = s₄;
                          out_prog = s₅;
                        },
                        h₅,
                        rw (r₁, r₂, r₃, r₄, r₅),
                        record {
                          heap = a₅.heap;
                          owned = λ p. omega (arith, a₅.owned p);
                          work_backed =
                              IsBacked-Keeps s₁
                                (Keeps-trans a₂.kept
                                  (Keeps-trans a₃.kept (Keeps-trans a₄.kept a₅.kept)))
                                a₁.backed;
                          prog_backed =
                              IsBacked-Keeps s₂ (Keeps-trans a₃.kept (Keeps-trans a₄.kept a₅.kept))
                                a₂.backed;
                          sym_backed = IsBacked-Keeps s₃ (Keeps-trans a₄.kept a₅.kept) a₃.backed;
                          out_work_backed = IsBacked-Keeps s₄ a₅.kept a₄.backed;
                          out_prog_backed = a₅.backed;
                        },
                        record {
                          work = a₁.grows;
                          prog = a₂.grows;
                          sym_mem = a₃.grows;
                          out_work = a₄.grows;
                          out_prog = a₅.grows;
                        },
                        record {
                          work = a₁.enough;
                          prog = a₂.enough;
                          sym_mem = a₃.enough;
                          out_work = a₄.enough;
                          out_prog = a₅.enough;
                        },
                      )

-- Freeing the blocks leaves just the others in use.
pub free_mem_lem :
    {others : List ℕ} {b : RqMemBlocks} {h : Blocks}
    → Owns others b h
    → (h' : Blocks) × (free_mem b h ≡ ok h')
      × IsHeap h'
      × ((p : ℕ) → count p h'.live ≡ count p others)
unfolding free_mem
free_mem_lem {others} {b} {h} o =
    let o₂ = λ (p : ℕ). points p b.inter_prog.ptr in
    let o₃ = λ (p : ℕ). points p b.inter_sym.ptr in
    let o₄ = λ (p : ℕ). points p b.out_work.ptr in
    let o₅ = λ (p : ℕ). points p b.out_prog.ptr in
    let (h₁, r₁, v₁, l₁) =
      xfree-IsHeap o.heap b.inter_work.ptr (λ p. o₂ p + (o₃ p + (o₄ p + (o₅ p + count p others))))
        (λ p. omega (arith, o.owned p)) in
    let (h₂, r₂, v₂, l₂) =
      xfree-IsHeap v₁ b.inter_prog.ptr (λ p. o₃ p + (o₄ p + (o₅ p + count p others))) l₁ in
    let (h₃, r₃, v₃, l₃) =
      xfree-IsHeap v₂ b.inter_sym.ptr (λ p. o₄ p + (o₅ p + count p others)) l₂ in
    let (h₄, r₄, v₄, l₄) = xfree-IsHeap v₃ b.out_work.ptr (λ p. o₅ p + count p others) l₃ in
    let (h₅, r₅, v₅, l₅) = xfree-IsHeap v₄ b.out_prog.ptr (λ p. count p others) l₄ in
    (h₅, rw (r₁, r₂, r₃, r₄, r₅), v₅, l₅)
