-- ===== src/HashTable/Index.antt =====
-- The hash table of `codeblockstate_add_sym` as an index of the symbols received so far.
use rq_route_demo.Base.{
  ℕ, zero, suc, ◌*◌, ◌%◌, ◌<◌, ◌≡◌, refl, ◌∙◌, ◌⊎◌, inl, inr, arith, true, false, Run, ok, Option,
  none, some, List, [], ◌∷◌, ◌++◌, length, get_elem?, set, replicate, length-set, length-append,
  length-replicate, get_elem?-set_self, get_elem?-set_ne, lt_of_get_elem?, get_elem?-replicate,
  Bool-cases, mem, mem-append,
}
use rq_route_demo.HashTable.{Cells, Probe, duplicate, vacant, probe, h_mult}
use rq_route_demo.HashTable.Probing.{
  probe-vacant, probe-duplicate, probe-set_other, probe-set_new, distance, probe_ends,
}

-- the number of entries in use
abbrev pub occupied : Cells → ℕ
occupied [] = 0
occupied (none ∷ c) = occupied c
occupied (some x ∷ c) = suc (occupied c)

-- A table that is not full has a free entry.
occupied-room : (c : Cells) → occupied c < length c → (e : ℕ) × (get_elem? c e ≡ some none)
occupied-room [] h = absurd (omega arith)
occupied-room (none ∷ c) h = (0, refl)
occupied-room (some x ∷ c) h = let (e, free) = occupied-room c (omega arith) in (suc e, free)

occupied-set :
    (c : Cells) (i x : ℕ)
    → get_elem? c i ≡ some none
    → occupied (set c i (some x)) ≡ suc (occupied c)
occupied-set [] i x free = cc
occupied-set (none ∷ c) zero x free = refl
occupied-set (some y ∷ c) zero x free = ground arith
occupied-set (none ∷ c) (suc i) x free = occupied-set c i x free
occupied-set (some y ∷ c) (suc i) x free = omega (arith, occupied-set c i x free)

occupied-replicate : (n : ℕ) → occupied (replicate n none) ≡ 0
occupied-replicate zero = refl
occupied-replicate (suc n) = occupied-replicate n

-- the entry at which the search for `id` begins
abbrev pub home : ℕ → ℕ → ℕ
home size id = (id * h_mult) % size

abbrev pub search_for : ℕ → Cells → ℕ → Run Probe
search_for size c id = probe size c size id (home size id)

-- `cells`, of `size` entries, holds the symbols `ids` and no others, each where a search finds it.
pub record Indexes (size : ℕ) (cells : Cells) (ids : List ℕ) : Type 0 where
  pub sized : length cells ≡ size
  pub counted : occupied cells ≡ length ids
  pub found : (id : ℕ) → mem id ids ≡ true → search_for size cells id ≡ ok duplicate
  pub only : (id i : ℕ) → get_elem? cells i ≡ some (some id) → mem id ids ≡ true

-- A table filled with -1 indexes no symbols.
pub empty-Indexes : (n : ℕ) → Indexes n (replicate n none) []
empty-Indexes n = record {
  sized = length-replicate n none;
  counted = occupied-replicate n;
  found = λ id h. cc;
  only = λ id i h. absurd (not_stored id i h);
}
  where
    not_stored : (id i : ℕ) → get_elem? (replicate n none) i ≡ some (some id) → ⊥
    not_stored id i h = ground (
      arith,
      lt_of_get_elem? (replicate n none) i h,
      length-replicate {A = Option ℕ} n none,
      get_elem?-replicate {A = Option ℕ} n i none,
    )

-- What a search for `id` in an index of `ids` gives: it ends at the symbol's entry if the symbol is
-- there; if not, at an entry that makes the table an index of one more symbol when it is filled.
abbrev pub Searched : ℕ → Cells → List ℕ → ℕ → Type 0
Searched size c ids id =
    ((mem id ids ≡ true) × (search_for size c id ≡ ok duplicate))
    ⊎ ((mem id ids ≡ false)
        × ((i : ℕ) × (search_for size c id ≡ ok (vacant i))
            × (i < size)
            × Indexes size (set c i (some id)) (ids ++ id ∷ [])))

distance-lt : (size h e : ℕ) → h < size → e < size → distance size 0 h e < size
distance-lt size h e p q = ground arith

module _ {size : ℕ} {c : Cells} {ids : List ℕ} (v : Indexes size c ids)
    (room : length ids < size) where
  search_ends : (id : ℕ) → (r : Probe) × (search_for size c id ≡ ok r)
  search_ends id =
      let (e, free) = occupied-room c (omega (arith, v.sized, v.counted)) in
      let in_range : home size id < size = grind arith in
      probe_ends size id size c (home size id) e v.sized in_range free (
        distance-lt size (home size id) e in_range
          (omega (arith, lt_of_get_elem? c e free, v.sized)))

  extends :
      (id i : ℕ)
      → mem id ids ≡ false
      → search_for size c id ≡ ok (vacant i)
      → Indexes size (set c i (some id)) (ids ++ id ∷ [])
  extends id i absent e = record {
    sized = length-set c i (some id) ∙ v.sized;
    counted = omega (arith, occupied-set c i id free, length-append ids (id ∷ []), v.counted);
    found = found_again;
    only = only_these;
  }
    where
      free : get_elem? c i ≡ some none
      free = probe-vacant size id size c (home size id) i e

      found_again :
          (y : ℕ)
          → mem y (ids ++ id ∷ []) ≡ true
          → search_for size (set c i (some id)) y ≡ ok duplicate
      found_again y h = elim (Bool-cases (mem y ids)) [
        | inl old ↦ probe-set_other size y size c (home size y) i id free (v.found y old)
        | inr new ↦
            let same : y ≡ id = ground (arith, mem-append y ids (id ∷ [])) in
            rw same (probe-set_new size id size c (home size id) i e)
      ]

      only_these :
          (y j : ℕ)
          → get_elem? (set c i (some id)) j ≡ some (some y)
          → mem y (ids ++ id ∷ []) ≡ true
      only_these y j h = ground (
        arith,
        mem-append y ids (id ∷ []),
        v.only y j,
        lt_of_get_elem? c i free,
        get_elem?-set_self c i (some id),
        get_elem?-set_ne c i j (some id),
      )

  -- In a table that indexes `ids` and is not full, the search for any symbol ends: at its entry if the
  -- symbol is among `ids`, else at an entry that, once filled, makes the table an index of one more
  -- symbol.
  pub search_lem : (id : ℕ) → Searched size c ids id
  search_lem id = by_result (search_ends id).0 (search_ends id).1
    where
      by_result : (r : Probe) → search_for size c id ≡ ok r → Searched size c ids id
      by_result duplicate e =
          let (i, held) = probe-duplicate size id size c (home size id) e in
          inl (v.only id i held, e)
      by_result (vacant i) e =
          inr (
            absent,
            (i, e, omega (arith, lt_of_get_elem? c i free, v.sized), extends id i absent e),
          )
        where
          free : get_elem? c i ≡ some none
          free = probe-vacant size id size c (home size id) i e

          absent : mem id ids ≡ false
          absent = ground (arith, v.found id)
