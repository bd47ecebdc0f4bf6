-- ===== src/Transfer/Symbols.antt =====
-- The symbols of a block after any number of packets of one file, in any order.
use rq_route_demo.Base.{
  ℕ, ◌+◌, ◌*◌, ◌≤◌, ◌<◌, ◌≡◌, refl, ap, arith, true, false, List, [], ◌∷◌, ◌++◌, mem, mem-append,
  length, length-append, leb, Bool-cases, inl, inr, slice,
}
use rq_route_demo.CodeBlock.Received.{
  Symbol, ids, receive, pad, distinct, distinct-append, count_source, count_source-append,
}
use rq_route_demo.CodeBlock.Sources.{count_source-le}
use rq_route_demo.CodeBlock.Data.Recover.{IsPartOf}

-- The symbols held of a file `src` of `k` symbols, when at most `r` repair symbols came.
pub record Gathers (k : ℕ) (src : List ℕ) (r : ℕ) (l : List Symbol) : Type 0 where
  pub parts : IsPartOf src k 1024 l
  pub no_repeat : distinct (ids l) ≡ true
  pub few : length l ≤ count_source k (ids l) + r

-- Symbols that are held stay.
abbrev pub Keeps : List Symbol → List Symbol → Type 0
Keeps l l' = (i : ℕ) → mem i (ids l) ≡ true → mem i (ids l') ≡ true

ids-append :
    (l : List Symbol) (id : ℕ) (bytes : List ℕ) → ids (l ++ (id, bytes) ∷ []) ≡ ids l ++ id ∷ []
ids-append [] id bytes = refl
ids-append ((x, b) ∷ l) id bytes = ap (λ t. x ∷ t) (ids-append l id bytes)

IsPartOf-append :
    (src : List ℕ) (k : ℕ) (l : List Symbol) (id : ℕ) (bytes : List ℕ)
    → IsPartOf src k 1024 l
    → (id < k → bytes ≡ slice src (id * 1024) 1024)
    → IsPartOf src k 1024 (l ++ (id, bytes) ∷ [])
IsPartOf-append src k [] id bytes p e = (e, tt)
IsPartOf-append src k ((x, b) ∷ l) id bytes p e = (p.0, IsPartOf-append src k l id bytes p.1 e)

-- A source symbol that is not there leaves the count below its maximum.
count_source-lt :
    (k id : ℕ) (l : List ℕ) → distinct l ≡ true → mem id l ≡ false → id < k → count_source k l < k
count_source-lt k id l d m h = ground (arith, count_source-le k (id ∷ l))

module _ (k : ℕ) (src : List ℕ) (r : ℕ) (l : List Symbol) (g : Gathers k src r l) (id : ℕ)
    (payload : List ℕ) where
  new : List Symbol
  new = l ++ (id, pad 1024 payload) ∷ []

  new-Keeps : Keeps l new
  unfolding new
  new-Keeps i h =
      rw (ids-append l id (pad 1024 payload)) (ground (arith, mem-append i (ids l) (id ∷ [])))

  new-mem : mem id (ids new) ≡ true
  unfolding new
  new-mem =
      rw (ids-append l id (pad 1024 payload)) (ground (arith, mem-append id (ids l) (id ∷ [])))

  new-Gathers :
      (r' : ℕ)
      → mem id (ids l) ≡ false
      → (id < k → pad 1024 payload ≡ slice src (id * 1024) 1024)
      → (id < k → r ≤ r')
      → (k ≤ id → r + 1 ≤ r')
      → Gathers k src r' new
  unfolding new
  new-Gathers r' absent bytes le lt =
      let same = ids-append l id (pad 1024 payload) in
      record {
        parts = IsPartOf-append src k l id (pad 1024 payload) g.parts bytes;
        no_repeat = rw same (distinct-append (ids l) id g.no_repeat absent);
        few = rw same (
            ground (
              arith,
              g.few,
              count_source-append k (ids l) id,
              length-append l ((id, pad 1024 payload) ∷ []),
              le,
              lt,
            ));
      }

  receive_known : mem id (ids l) ≡ true → receive (k + 30) 1024 l id payload ≡ l
  unfolding receive
  receive_known h = ground arith

  receive_full : k + 30 ≤ length l → receive (k + 30) 1024 l id payload ≡ l
  unfolding receive
  receive_full h = ground arith

  receive_new :
      mem id (ids l) ≡ false → length l < k + 30 → receive (k + 30) 1024 l id payload ≡ new
  unfolding receive new
  receive_new h lt = ground arith

  weaker : (r' : ℕ) → r ≤ r' → Gathers k src r' l
  weaker r' h = record { parts = g.parts; no_repeat = g.no_repeat; few = omega (arith, g.few) }

  -- A source symbol is held from now on.
  pub receive_source :
      id < k
      → r ≤ 30
      → pad 1024 payload ≡ slice src (id * 1024) 1024
      → Gathers k src r (receive (k + 30) 1024 l id payload)
        × Keeps l (receive (k + 30) 1024 l id payload)
        × (mem id (ids (receive (k + 30) 1024 l id payload)) ≡ true)
  receive_source lt few bytes = elim (Bool-cases (mem id (ids l))) [
    | inl known ↦ rw (receive_known known) (g, (λ i h. h), known)
    | inr absent ↦
        let room : length l < k + 30 =
          omega (arith, g.few, count_source-lt k id (ids l) g.no_repeat absent lt) in
        rw (receive_new absent room) (
          new-Gathers r absent (λ h. bytes) (λ h. omega arith) (λ h. absurd (omega arith)),
          new-Keeps,
          new-mem,
        )
  ]

  -- A repair symbol may be held, and drops none.
  pub receive_repair :
      k ≤ id
      → Gathers k src (r + 1) (receive (k + 30) 1024 l id payload)
        × Keeps l (receive (k + 30) 1024 l id payload)
  receive_repair ge = elim (Bool-cases (mem id (ids l))) [
    | inl known ↦ rw (receive_known known) (weaker (r + 1) (omega arith), λ i h. h)
    | inr absent ↦ elim (Bool-cases (leb (k + 30) (length l))) [
      | inl full ↦ rw (receive_full (ground arith)) (weaker (r + 1) (omega arith), λ i h. h)
      | inr room ↦ rw (receive_new absent (ground arith)) (
        new-Gathers (r + 1) absent (λ h. absurd (omega arith)) (λ h. absurd (omega arith))
            (λ h. omega arith),
        new-Keeps,
      )
    ]
  ]
