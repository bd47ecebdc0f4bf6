-- ===== src/HashTable/Probing.antt =====
-- The search loop of `codeblockstate_add_sym`, on one table and on that with one more entry.
use rq_route_demo.Base.{
  ℕ, zero, suc, ◌+◌, ◌-◌, ◌<◌, ◌≡◌, refl, ap, ◌≢◌, ◌⊎◌, inl, inr, arith, ok, Option, none, some,
  length, get_elem?, set, get_elem?-set_self, get_elem?-set_ne, lt_of_get_elem?, get_elem?-some,
  Bool-cases, ◌==◌, if◌then◌else◌, leb,
}
use rq_route_demo.HashTable.{Cells, Probe, duplicate, vacant, next_slot, probe}

abbrev pub Stored : ℕ → Cells → Type 0
Stored id cells = (i : ℕ) × (get_elem? cells i ≡ some (some id))

Cell-cases :
    (o : Option (Option ℕ)) → (o ≡ none) ⊎ (o ≡ some none) ⊎ ((x : ℕ) × (o ≡ some (some x)))
Cell-cases none = inl refl
Cell-cases (some none) = inr (inl refl)
Cell-cases (some (some x)) = inr (inr (x, refl))

module _ (size id : ℕ) where
  pub probe-vacant :
      (f : ℕ) (c : Cells) (h i : ℕ)
      → probe f c size id h ≡ ok (vacant i)
      → get_elem? c i ≡ some none
  unfolding probe
  probe-vacant zero c h i e = cc
  probe-vacant (suc f) c h i e = ground (arith, probe-vacant f c (next_slot size h) i)

  pub probe-duplicate :
      (f : ℕ) (c : Cells) (h : ℕ) → probe f c size id h ≡ ok duplicate → Stored id c
  unfolding probe
  probe-duplicate zero c h e = cc
  probe-duplicate (suc f) c h e = elim (Cell-cases (get_elem? c h)) [
    | inl out ↦ ground arith
    | inr (inl free) ↦ ground arith
    | inr (inr (x, held)) ↦ elim (Bool-cases (x == id)) [
      | inl same ↦ (h, ground arith)
      | inr other ↦ probe-duplicate f c (next_slot size h) (ground arith)
    ]
  ]

  -- An entry that is found is still found when a free entry is filled.
  pub probe-set_other :
      (f : ℕ) (c : Cells) (h i x : ℕ)
      → get_elem? c i ≡ some none
      → probe f c size id h ≡ ok duplicate
      → probe f (set c i (some x)) size id h ≡ ok duplicate
  unfolding probe
  probe-set_other zero c h i x free e = cc
  probe-set_other (suc f) c h i x free e =
      ground (arith, get_elem?-set_ne c i h (some x), probe-set_other f c (next_slot size h) i x)

  -- A symbol is found once it is written where its search ended.
  pub probe-set_new :
      (f : ℕ) (c : Cells) (h i : ℕ)
      → probe f c size id h ≡ ok (vacant i)
      → probe f (set c i (some id)) size id h ≡ ok duplicate
  unfolding probe
  probe-set_new zero c h i e = cc
  probe-set_new (suc f) c h i e = ground (
    arith,
    probe-vacant (suc f) c h i,
    lt_of_get_elem? c i {a = none},
    get_elem?-set_self c i (some id),
    get_elem?-set_ne c i h (some id),
    probe-set_new f c (next_slot size h) i,
  )

  -- rounds from `h` to the free entry `e`
  abbrev pub distance : ℕ → ℕ → ℕ
  distance h e = if leb h e then e - h else e + size - h

  -- One round on, the free entry is one round nearer.
  distance-next_slot :
      (h e : ℕ)
      → h < size
      → e < size
      → h ≢ e
      → (next_slot size h < size) × (suc (distance (next_slot size h) e) ≡ distance h e)
  unfolding next_slot
  distance-next_slot h e lt in_range ne = ground arith

  -- The search loop ends with a result, if the fuel exceeds the number of rounds from the start `h` to
  -- some free entry `e`.
  pub probe_ends :
      (f : ℕ) (c : Cells) (h e : ℕ)
      → length c ≡ size
      → h < size
      → get_elem? c e ≡ some none
      → distance h e < f
      → (r : Probe) × (probe f c size id h ≡ ok r)
  unfolding probe
  probe_ends zero c h e len lt free near = absurd (omega arith)
  probe_ends (suc f) c h e len lt free near = elim (Cell-cases (get_elem? c h)) [
    | inl out ↦ absurd (ground (arith, get_elem?-some c h))
    | inr (inl here) ↦ (vacant h, ground arith)
    | inr (inr (x, held)) ↦ elim (Bool-cases (x == id)) [
      | inl same ↦ (duplicate, ground arith)
      | inr other ↦
          let ne : h ≢ e = λ q. ground (arith, ap (get_elem? c) q) in
          let in_range : e < size = omega (arith, lt_of_get_elem? c e free) in
          let step = distance-next_slot h e lt in_range ne in
          let (r, ends) =
            probe_ends f c (next_slot size h) e len step.0 free (omega (arith, step.1)) in
          (r, ground arith)
    ]
  ]
