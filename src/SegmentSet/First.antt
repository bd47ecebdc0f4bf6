-- ===== src/SegmentSet/First.antt =====
-- The number of the first file of the window, which only `segstateset_inc_min_file_nbr` changes.
use rq_route_demo.Base.{
  ℕ, ◌≡◌, refl, Bool, true, false, Whenever, Whenever-bind, Option, none, some, if◌then◌else◌, not,
  assert,
}
use rq_route_demo.SegmentSet.{
  SegmentSet, FileState, Status, put, get_internal_index, initialize, is_ok, is_outside,
  mark_initialized, mark_readytowrite, ss_ok,
}

module _ {A : Type 0} where
  pub min-put : (s : SegmentSet A) (idx : ℕ) (a : A) → (put s idx a).min_file_nbr ≡ s.min_file_nbr
  unfolding put
  min-put s idx a = refl

  pub min-mark_initialized :
      (s : SegmentSet A) (n : ℕ)
      → Whenever (λ r. r.1.min_file_nbr ≡ s.min_file_nbr) (mark_initialized s n)
  unfolding mark_initialized
  min-mark_initialized s n =
      let (status, idx) = get_internal_index s n in
      Whenever-bind (λ r. r.1.min_file_nbr ≡ s.min_file_nbr) (assert (not (is_ok status))) _
        (λ u. marked (is_outside status) status idx)
    where
      marked :
          (outside : Bool) (status : Status) (idx : Option ℕ)
          → (if◌then◌else◌ {A = Status × SegmentSet A} outside
              (status, s)
              (ss_ok, initialize s idx)).1.min_file_nbr
            ≡ s.min_file_nbr
      marked true status idx = refl
      marked false status none = refl
      marked false status (some i) = refl

  pub min-mark_readytowrite :
      ⦃file : FileState A⦄ (s : SegmentSet A) (n : ℕ)
      → (mark_readytowrite s n).min_file_nbr ≡ s.min_file_nbr
  unfolding mark_readytowrite
  min-mark_readytowrite s n = refl
