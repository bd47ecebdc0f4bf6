-- ===== src/MemBlocks/Heap.antt =====
-- Counting the blocks in use, under `malloc` and `free`.
use rq_route_demo.Base.{
  ℕ, ◌+◌, ◌≤◌, ◌<◌, ◌≡◌, refl, subst, Bool-cases, inl, inr, ◌∙◌, arith, true, List, [], ◌∷◌, mem,
  Option, none, some, ok, ◌==◌, if◌then◌else◌,
}
use rq_route_demo.MemBlocks.{Blocks, remove, malloc, free, xfree}

-- how often `p` stands in the list
abbrev pub count : ℕ → List ℕ → ℕ
count p [] = 0
count p (q ∷ qs) = (if p == q then 1 else 0) + count p qs

-- A heap: no block is in use twice, and the numbers to come are free.
pub record IsHeap (h : Blocks) : Type 0 where
  pub single : (p : ℕ) → count p h.live ≤ 1
  pub fresh : (p : ℕ) → h.next ≤ p → count p h.live ≡ 0

-- 1 for the block that the pointer leads to
abbrev pub points : ℕ → Option ℕ → ℕ
points p none = 0
points p (some q) = if p == q then 1 else 0

count-remove :
    (p q : ℕ) (qs : List ℕ)
    → 1 ≤ count p qs
    → count q (remove p qs) + (if q == p then 1 else 0) ≡ count q qs
count-remove p q [] h = absurd (omega arith)
count-remove p q (x ∷ qs) h = ground (arith, count-remove p q qs)

pub mem-count : (p : ℕ) (qs : List ℕ) → 1 ≤ count p qs → mem p qs ≡ true
mem-count p [] h = absurd (omega arith)
mem-count p (x ∷ qs) h = ground (arith, mem-count p qs)

-- A new block: in use once, and all others as before.
pub malloc-IsHeap :
    (n : ℕ) {h : Blocks} (v : IsHeap h)
    → IsHeap (malloc n h).1
      × ((p : ℕ) → count p (malloc n h).1.live ≡ points p (some (malloc n h).0) + count p h.live)
unfolding malloc
malloc-IsHeap n {h} v = (
  record {
    single = λ p. ground (arith, v.single p, v.fresh p);
    fresh = λ p le. ground (arith, v.fresh p);
  },
  λ p. refl,
)

-- No number is given again, and the blocks allocated keep their sizes.
pub record Keeps (h h' : Blocks) : Type 0 where
  pub later : h.next ≤ h'.next
  pub same : (p : ℕ) → p < h.next → h'.size p ≡ h.size p

pub Keeps-trans : {h h₁ h₂ : Blocks} → Keeps h h₁ → Keeps h₁ h₂ → Keeps h h₂
Keeps-trans a b = record {
  later = omega (arith, a.later, b.later);
  same = λ p lt. b.same p (omega (arith, a.later)) ∙ a.same p lt;
}

-- A new block has the size asked for.
pub malloc-Keeps :
    (n : ℕ) (h : Blocks)
    → Keeps h (malloc n h).1
      × ((malloc n h).0 < (malloc n h).1.next)
      × ((malloc n h).1.size (malloc n h).0 ≡ n)
unfolding malloc
malloc-Keeps n h =
    (record { later = omega arith; same = λ p lt. ground arith }, omega arith, ground arith)

pub xfree-Keeps : (ptr : Option ℕ) {h h' : Blocks} → xfree ptr h ≡ ok h' → Keeps h h'
unfolding xfree free
xfree-Keeps none {h} {h'} e =
    let same : h ≡ h' = ground arith in
    subst (Keeps h) same (record { later = omega arith; same = λ p lt. refl })
xfree-Keeps (some q) {h} {h'} e = elim (Bool-cases (mem q h.live)) [
  | inr unknown ↦ absurd (ground (arith, unknown, e))
  | inl there ↦
      let same : record h { live = remove q h.live } ≡ h' = ground (arith, there, e) in
      subst (Keeps h) same (record { later = omega arith; same = λ p lt. refl })
]

pub free-Keeps : (q : ℕ) {h h' : Blocks} → free q h ≡ ok h' → Keeps h h'
unfolding xfree
free-Keeps q e = xfree-Keeps (some q) e

-- A pointer that is null or leads to a block in use is released: that block is in use no more.
pub xfree-IsHeap :
    {h : Blocks} (v : IsHeap h) (ptr : Option ℕ) (rest : ℕ → ℕ)
    → ((p : ℕ) → count p h.live ≡ points p ptr + rest p)
    → (h' : Blocks) × (xfree ptr h ≡ ok h') × IsHeap h' × ((p : ℕ) → count p h'.live ≡ rest p)
unfolding xfree
xfree-IsHeap {h} v none rest owned = (h, refl, v, λ p. owned p ∙ omega arith)
xfree-IsHeap {h} v (some q) rest owned =
    let there : 1 ≤ count q h.live = ground (arith, owned q) in
    (
      record h { live = remove q h.live },
      rw (mem-count q h.live there),
      record {
        single = λ p. omega (arith, count-remove q p h.live there, v.single p);
        fresh = λ p le. omega (arith, count-remove q p h.live there, v.fresh p le);
      },
      λ p. omega (arith, count-remove q p h.live there, owned p),
    )

-- A pointer that leads to a block in use is released by `free`.
pub free-IsHeap :
    {h : Blocks} (v : IsHeap h) (q : ℕ) (rest : ℕ → ℕ)
    → ((p : ℕ) → count p h.live ≡ points p (some q) + rest p)
    → (h' : Blocks) × (free q h ≡ ok h') × IsHeap h' × ((p : ℕ) → count p h'.live ≡ rest p)
unfolding xfree
free-IsHeap v q rest owned = xfree-IsHeap v (some q) rest owned
