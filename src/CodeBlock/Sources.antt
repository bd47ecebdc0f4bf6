-- ===== src/CodeBlock/Sources.antt =====
-- The count of source symbols that `codeblockstate_add_sym` keeps, and which symbols are there.
use rq_route_demo.Base.{
  ℕ, zero, suc, ◌+◌, ◌≤◌, ◌<◌, ◌≡◌, refl, arith, true, false, List, [], ◌∷◌, mem, ◌==◌,
  if◌then◌else◌, length, Bool-cases, inl, inr,
}
use rq_route_demo.CodeBlock.Received.{count_source, distinct}

-- how often `x` stands in the list
abbrev occurrences : ℕ → List ℕ → ℕ
occurrences x [] = 0
occurrences x (y ∷ ys) = if x == y then suc (occurrences x ys) else occurrences x ys

occurrences-absent : (x : ℕ) (l : List ℕ) → mem x l ≡ false → occurrences x l ≡ 0
occurrences-absent x [] h = refl
occurrences-absent x (y ∷ ys) h = ground (arith, occurrences-absent x ys)

occurrences-le-one : (x : ℕ) (l : List ℕ) → distinct l ≡ true → occurrences x l ≤ 1
occurrences-le-one x [] d = omega arith
occurrences-le-one x (y ∷ ys) d = ground (arith, occurrences-le-one x ys, occurrences-absent x ys)

count_source-suc :
    (k : ℕ) (l : List ℕ) → count_source (suc k) l ≡ count_source k l + occurrences k l
count_source-suc k [] = omega arith
count_source-suc k (x ∷ xs) = ground (arith, count_source-suc k xs)

count_source-zero : (l : List ℕ) → count_source 0 l ≡ 0
count_source-zero [] = refl
count_source-zero (x ∷ xs) = ground (arith, count_source-zero xs)

-- No more source symbols are held than the block has.
pub count_source-le : (k : ℕ) (l : List ℕ) → distinct l ≡ true → count_source k l ≤ k
count_source-le zero l d = omega (arith, count_source-zero l)
count_source-le (suc k) l d =
    omega (arith, count_source-suc k l, count_source-le k l d, occurrences-le-one k l d)

-- Distinct symbols, `k` of them source symbols: each source symbol is among them.
pub all_sources :
    (k : ℕ) (l : List ℕ) (i : ℕ) → distinct l ≡ true → k ≤ count_source k l → i < k → mem i l ≡ true
all_sources zero l i d full h = absurd (omega arith)
all_sources (suc k) l i d full h = elim (Bool-cases (i == k)) [
  | inl last ↦ ground (arith, occurrences-absent i l, count_source-suc k l, count_source-le k l d)
  | inr before ↦
      all_sources k l i d (omega (arith, count_source-suc k l, occurrences-le-one k l d))
        (ground arith)
]

pub count_source-le-length : (k : ℕ) (l : List ℕ) → count_source k l ≤ length l
count_source-le-length k [] = omega arith
count_source-le-length k (x ∷ xs) = ground (arith, count_source-le-length k xs)

occurrences-present : (x : ℕ) (l : List ℕ) → mem x l ≡ true → 1 ≤ occurrences x l
occurrences-present x [] h = cc
occurrences-present x (y ∷ ys) h = ground (arith, occurrences-present x ys)

-- When every source symbol is there, all are counted.
pub all_counted : (k : ℕ) (l : List ℕ) → ((i : ℕ) → i < k → mem i l ≡ true) → k ≤ count_source k l
all_counted zero l h = omega arith
all_counted (suc k) l h = omega (
  arith,
  count_source-suc k l,
  all_counted k l (λ i lt. h i (omega arith)),
  occurrences-present k l (h k (omega arith)),
)
