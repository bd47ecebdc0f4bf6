-- ===== src/SegmentSet/Window.antt =====
-- The set against its contract: a map from the numbers of a window of four files to their states.
use rq_route_demo.Base.{
  ℕ, ◌+◌, ◌-◌, ◌%◌, ◌≤◌, ◌<◌, ◌≡◌, refl, ◌∙◌, ◌⊎◌, ◌↔◌, get_elem?-replicate, get_elem?-set, inl,
  inr, arith, Bool, true, false, ◌&&◌, get_elem?, set, Option, none, some, ok, leb, ltb, ◌==◌,
  if◌then◌else◌, length, length-set, get_elem?-some, Bool-cases,
}
use rq_route_demo.SegmentSet.{
  SegmentSet, ss_ok, ss_uninitialized, ss_below_min, ss_above_max, segstate_set_n, is_initialized,
  init, inc_min_file_nbr, slot, get, mark_initialized, put,
}

module _ {A : Type 0} where
  pub record IsValid (s : SegmentSet A) : Type 0 where
    pub first_in : s.first_index_in_array < segstate_set_n
    pub flags_sized : length s.states_initialized ≡ segstate_set_n
    pub states_sized : length s.states ≡ segstate_set_n

  abbrev pub InWindow : SegmentSet A → ℕ → Type 0
  InWindow s n = (s.min_file_nbr ≤ n) × (n < s.min_file_nbr + segstate_set_n)

  abbrev pub in_window : SegmentSet A → ℕ → Bool
  in_window s n = leb s.min_file_nbr n && ltb n (s.min_file_nbr + segstate_set_n)

  abbrev pub flag : SegmentSet A → ℕ → Bool
  flag s n = is_initialized (get_elem? s.states_initialized (slot s n))

  -- The state of file `n`, if it is in the window and was initialized.
  abbrev pub view : SegmentSet A → ℕ → Option A
  view s n = if in_window s n && flag s n then get_elem? s.states (slot s n) else none

  slot-lt : (s : SegmentSet A) (n : ℕ) → slot s n < 4
  slot-lt s n = omega arith

  -- Files of the window lie in different slots.
  slot-ne :
      (s : SegmentSet A) (m n : ℕ)
      → InWindow s m
      → InWindow s n
      → (m ≡ n → ⊥)
      → slot s m ≡ slot s n
      → ⊥
  slot-ne s m n hm hn ne e = omega arith

  pub init-IsValid : (zeroed : A) (n : ℕ) → IsValid (init zeroed n)
  unfolding init
  init-IsValid zeroed n = record { first_in = omega arith; flags_sized = refl; states_sized = refl }

  pub min-init : (zeroed : A) (n : ℕ) → (init zeroed n).min_file_nbr ≡ n
  unfolding init
  min-init zeroed n = refl

  -- A new set holds no file.
  pub view-init : (zeroed : A) (m n : ℕ) → view (init zeroed m) n ≡ none
  unfolding init
  view-init zeroed m n = ground (arith, get_elem?-replicate 4 ((n - m + 0) % 4) false (omega arith))

  slot-inc :
      {s : SegmentSet A}
      → IsValid s
      → (n : ℕ) → s.min_file_nbr < n
      → slot (inc_min_file_nbr s) n ≡ slot s n
  unfolding inc_min_file_nbr
  slot-inc {s} v n h = ground arith

  -- Of the files up to the one behind the window, only the first and the one behind it lie in the
  -- slot that the window starts at.
  slot-first :
      {s : SegmentSet A}
      → IsValid s
      → (n : ℕ) → s.min_file_nbr < n
      → n ≤ s.min_file_nbr + 4
      → (slot s n ≡ s.first_index_in_array) ↔ (n ≡ s.min_file_nbr + 4)
  slot-first {s} v n h k = ((λ e. omega arith), (λ e. omega arith))

  pub inc_min_file_nbr-IsValid : {s : SegmentSet A} → IsValid s → IsValid (inc_min_file_nbr s)
  unfolding inc_min_file_nbr
  inc_min_file_nbr-IsValid {s} v = record {
    first_in = ground arith;
    flags_sized = length-set s.states_initialized s.first_index_in_array false ∙ v.flags_sized;
    states_sized = v.states_sized;
  }

  pub min-inc_min_file_nbr :
      (s : SegmentSet A) → (inc_min_file_nbr s).min_file_nbr ≡ s.min_file_nbr + 1
  unfolding inc_min_file_nbr
  min-inc_min_file_nbr s = refl

  -- In a well-formed set, `segstateset_inc_min_file_nbr` drops the first file of the window, and shows
  -- every other file as before; the file that enters the window is not initialized.
  pub view-inc_min_file_nbr :
      {s : SegmentSet A} (v : IsValid s) (n : ℕ)
      → view (inc_min_file_nbr s) n ≡ (if n == s.min_file_nbr then none else view s n)
  unfolding inc_min_file_nbr
  view-inc_min_file_nbr {s} v n =
      elim (Bool-cases (ltb s.min_file_nbr n && leb n (s.min_file_nbr + 4))) [
        | inr outside ↦ ground arith
        | inl inside ↦
            let same : slot (inc_min_file_nbr s) n ≡ slot s n = slot-inc v n (ground arith) in
            let first = slot-first v n (ground arith) (ground arith) in
            rw (same, inc_min_file_nbr)
              (ground (
                arith,
                get_elem?-set s.states_initialized s.first_index_in_array (slot s n) false,
                first.0,
                first.1,
                v.first_in,
                v.flags_sized,
              ))
      ]

  -- The answers of `segstateset_get`: below the window, above it, in it and not initialized, in it with
  -- a state that the pointer leads to.
  abbrev pub Got : SegmentSet A → ℕ → Type 0
  Got s n =
      ((n < s.min_file_nbr) × (get s n ≡ (ss_below_min, none)))
      ⊎ ((s.min_file_nbr + 4 ≤ n) × (get s n ≡ (ss_above_max, none)))
      ⊎ (InWindow s n × (view s n ≡ none) × (get s n ≡ (ss_uninitialized, some (slot s n))))
      ⊎ (InWindow s n
          × ((a : A) × (view s n ≡ some a) × (get_elem? s.states (slot s n) ≡ some a))
          × (get s n ≡ (ss_ok, some (slot s n))))

  -- In a well-formed set, `segstateset_get` answers every file number by its place: below the window,
  -- above it, in it and not initialized, or in it with a pointer to its state.
  pub get_lem : {s : SegmentSet A} (v : IsValid s) (n : ℕ) → Got s n
  unfolding get
  get_lem {s} v n =
      let (a, held) = get_elem?-some s.states (slot s n) (omega (arith, v.states_sized)) in
      elim (Bool-cases (in_window s n)) [
        | inr outside ↦ ground arith
        | inl inside ↦ elim (Bool-cases (flag s n)) [
          | inl known ↦ inr (inr (inr ((ground arith), (a, ground arith, held), ground arith)))
          | inr unknown ↦ inr (inr (inl (ground arith, ground arith, ground arith)))
        ]
      ]

  -- A file of the window is marked: the rest stays.
  pub mark_initialized_lem :
      {s : SegmentSet A} (v : IsValid s) (n : ℕ)
      → InWindow s n
      → view s n ≡ none
      → (s' : SegmentSet A) × (mark_initialized s n ≡ ok (ss_ok, s'))
        × IsValid s'
        × (s'.min_file_nbr ≡ s.min_file_nbr)
        × ((m : ℕ) → slot s' m ≡ slot s m)
        × ((m : ℕ) → view s' m ≡ (if m == n then get_elem? s.states (slot s n) else view s m))
  unfolding mark_initialized
  mark_initialized_lem {s} v n h free =
      let known = get_elem?-some s.states (slot s n) (omega (arith, v.states_sized)) in
      (
        record s { states_initialized = set s.states_initialized (slot s n) true },
        ground (arith, known.1),
        record {
          first_in = v.first_in;
          flags_sized = length-set s.states_initialized (slot s n) true ∙ v.flags_sized;
          states_sized = v.states_sized;
        },
        refl,
        (λ m. refl),
        λ m. ground (
          arith,
          get_elem?-set s.states_initialized (slot s n) (slot s m) true,
          v.flags_sized,
          slot-ne s m n,
        ),
      )

  -- A write through the pointer that `segstateset_get` gave.
  pub put_lem :
      {s : SegmentSet A} (v : IsValid s) (n : ℕ) (a : A)
      → InWindow s n
      → IsValid (put s (slot s n) a)
        × ((m : ℕ)
            → view (put s (slot s n) a) m ≡ (if m == n && flag s n then some a else view s m))
  unfolding put
  put_lem {s} v n a h = (
    record {
      first_in = v.first_in;
      flags_sized = v.flags_sized;
      states_sized = length-set s.states (slot s n) a ∙ v.states_sized;
    },
    λ m.
        ground
          (arith, get_elem?-set s.states (slot s n) (slot s m) a, v.states_sized, slot-ne s m n),
  )
