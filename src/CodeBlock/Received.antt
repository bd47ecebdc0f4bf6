-- ===== src/CodeBlock/Received.antt =====
-- The abstract view of a code block: the symbols received, in order of arrival, and what it means to
-- receive one more.
use rq_route_demo.Base.{
  ℕ, suc, ◌+◌, ◌-◌, ◌*◌, ◌≤◌, ◌≡◌, refl, ap, subst, arith, Bool, true, false, List, [], ◌∷◌, ◌++◌,
  length, replicate, take, slice, blit, slice-blit_before, slice-blit_self, length-append,
  length-replicate, mem, leb, ltb, if◌then◌else◌, not, ◌&&◌, mem-append,
}
use rq_route_demo.CodeBlock.{CodeBlockState}

-- A symbol: its identifier and its bytes.
abbrev pub Symbol : Type 0
Symbol = ℕ × List ℕ

abbrev pub ids : List Symbol → List ℕ
ids [] = []
ids ((id, bytes) ∷ l) = id ∷ ids l

-- `payload` filled up with zeros to `t` bytes
abbrev pub pad : ℕ → List ℕ → List ℕ
pad t payload = payload ++ replicate (t - length payload) 0

-- Receiving a symbol: it goes to the end, unless it is there already or there is no room for it.
unfoldable pub receive : ℕ → ℕ → List Symbol → ℕ → List ℕ → List Symbol
receive max t l id payload =
    if leb max (length l) then l else if mem id (ids l) then l else l ++ (id, pad t payload) ∷ []

-- How many of the symbols are source symbols, those below `k`.
abbrev pub count_source : ℕ → List ℕ → ℕ
count_source k [] = 0
count_source k (x ∷ xs) = if ltb x k then suc (count_source k xs) else count_source k xs

abbrev pub distinct : List ℕ → Bool
distinct [] = true
distinct (x ∷ xs) = not (mem x xs) && distinct xs

abbrev pub entries : ℕ → List ℕ → ℕ → List ℕ → List Symbol
entries t buf i [] = []
entries t buf i (e ∷ es) = (e, slice buf (t * i) t) ∷ entries t buf (i + 1) es

abbrev pub used : CodeBlockState → List ℕ
used s = take s.n_esi s.esi

-- The symbols that a code block holds.
abbrev pub received : CodeBlockState → List Symbol
received s = entries s.t s.syms_buf 0 (used s)

pub count_source-append :
    (k : ℕ) (xs : List ℕ) (y : ℕ)
    → count_source k (xs ++ y ∷ [])
      ≡ (if ltb y k then suc (count_source k xs) else count_source k xs)
count_source-append k [] y = refl
count_source-append k (x ∷ xs) y = ground (arith, count_source-append k xs y)

pub distinct-append :
    (xs : List ℕ) (y : ℕ) → distinct xs ≡ true → mem y xs ≡ false → distinct (xs ++ y ∷ []) ≡ true
distinct-append [] y d m = refl
distinct-append (x ∷ xs) y d m = ground (arith, distinct-append xs y, mem-append x xs (y ∷ []))

pub ids-entries : (t : ℕ) (buf : List ℕ) (i : ℕ) (es : List ℕ) → ids (entries t buf i es) ≡ es
ids-entries t buf i [] = refl
ids-entries t buf i (e ∷ es) = ap (λ l. e ∷ l) (ids-entries t buf (i + 1) es)

pub length-entries :
    (t : ℕ) (buf : List ℕ) (i : ℕ) (es : List ℕ) → length (entries t buf i es) ≡ length es
length-entries t buf i [] = refl
length-entries t buf i (e ∷ es) = ap suc (length-entries t buf (i + 1) es)

pub entries-append :
    (t : ℕ) (buf : List ℕ) (i : ℕ) (es : List ℕ) (e n : ℕ)
    → n ≡ i + length es
    → entries t buf i (es ++ e ∷ []) ≡ entries t buf i es ++ (e, slice buf (t * n) t) ∷ []
entries-append t buf i [] e n h = let same : n ≡ i = omega arith in rw same
entries-append t buf i (x ∷ es) e n h =
    ap (λ l. (x, slice buf (t * i) t) ∷ l) (entries-append t buf (i + 1) es e n (omega arith))

-- A write behind them leaves the symbols.
pub entries-blit :
    (t : ℕ) (buf : List ℕ) (off : ℕ) (src : List ℕ) (i : ℕ) (es : List ℕ)
    → t * (i + length es) ≤ off
    → entries t (blit buf off src) i es ≡ entries t buf i es
entries-blit t buf off src i [] h = refl
entries-blit t buf off src i (x ∷ es) h = rw (
  slice-blit_before buf off src (t * i) t (omega arith),
  entries-blit t buf off src (i + 1) es (omega arith),
)

pub length-pad : (t : ℕ) (payload : List ℕ) → length payload ≤ t → length (pad t payload) ≡ t
length-pad t payload h = omega (
  arith,
  length-append payload (replicate (t - length payload) 0),
  length-replicate {A = ℕ} (t - length payload) 0,
)

-- A symbol written behind the symbols held is one more symbol held.
pub entries-blit-append :
    (t : ℕ) (buf : List ℕ) (es : List ℕ) (id n : ℕ) (bytes : List ℕ)
    → n ≡ length es
    → length bytes ≡ t
    → t * n + t ≤ length buf
    → entries t (blit buf (t * n) bytes) 0 (es ++ id ∷ []) ≡ entries t buf 0 es ++ (id, bytes) ∷ []
entries-blit-append t buf es id n bytes hn ht fits =
    let self : slice (blit buf (t * n) bytes) (t * n) t ≡ bytes =
      subst (λ m. slice (blit buf (t * n) bytes) (t * n) m ≡ bytes) ht
        (slice-blit_self buf (t * n) bytes (omega arith)) in
    let all : 0 + length es ≡ n = omega arith in
    let before : t * (0 + length es) ≤ t * n = rw all (omega arith) in
    rw (
      entries-append t (blit buf (t * n) bytes) 0 es id n (omega arith),
      entries-blit t buf (t * n) bytes 0 es before,
      self,
    )
