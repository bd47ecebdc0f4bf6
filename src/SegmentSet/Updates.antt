-- ===== src/SegmentSet/Updates.antt =====
-- The operations that change states in place, as one kind of update of the window.
use rq_route_demo.Base.{
  ℕ, ◌≡◌, refl, ◌∙◌, arith, true, false, get_elem?, get_elem?-set_self, get_elem?-some, Option,
  none, some, ok, ◌==◌, if◌then◌else◌,
}
use rq_route_demo.SegmentSet.{
  SegmentSet, FileState, ss_ok, slot, put, mark_initialized, mark_readytowrite,
}
use rq_route_demo.SegmentSet.Window.{IsValid, InWindow, view, flag, put_lem, mark_initialized_lem}
use rq_route_demo.SegmentSet.Marks.{map_marked, mark_readytowrite-IsValid, view-mark_readytowrite}

module _ {A : Type 0} where
  -- The same window in the same place, with other states: those that `new` says.
  pub record Updated (s s' : SegmentSet A) (new : ℕ → Option A) : Type 0 where
    pub valid : IsValid s'
    pub same_min : s'.min_file_nbr ≡ s.min_file_nbr
    pub same_slot : (m : ℕ) → slot s' m ≡ slot s m
    pub seen : (m : ℕ) → view s' m ≡ new m

  -- A file that is seen lies in the window, and its pointer leads to its state.
  pub view-some :
      (s : SegmentSet A) (n : ℕ) {a : A}
      → view s n ≡ some a
      → InWindow s n × (flag s n ≡ true) × (get_elem? s.states (slot s n) ≡ some a)
  view-some s n e = ground arith

  pub put-Updated :
      {s : SegmentSet A} (v : IsValid s) (n : ℕ) (a b : A)
      → view s n ≡ some b
      → Updated s (put s (slot s n) a) (λ m. if m == n then some a else view s m)
  unfolding put
  put-Updated {s} v n a b e =
      let here = view-some s n e in
      let (valid, seen) = put_lem v n a here.0 in
      record {
        valid = valid;
        same_min = refl;
        same_slot = λ m. refl;
        seen = λ m. seen m ∙ ground (arith, here.1);
      }

  -- In a well-formed set, for a file of the window that is not initialized: a write of its state through
  -- the pointer and `segstateset_mark_initialized` succeed, show that file with this state and all
  -- others as before, and keep the set well-formed.
  pub initialize-Updated :
      {s : SegmentSet A} (v : IsValid s) (n : ℕ) (a : A)
      → InWindow s n
      → view s n ≡ none
      → (s' : SegmentSet A) × (mark_initialized (put s (slot s n) a) n ≡ ok (ss_ok, s'))
        × Updated s s' (λ m. if m == n then some a else view s m)
  unfolding put
  initialize-Updated {s} v n a h e =
      let (valid, kept) = put_lem v n a h in
      let (b, held) = get_elem?-some s.states (slot s n) (omega (arith, v.states_sized)) in
      let unknown : flag s n ≡ false = ground (arith, held) in
      let unseen : view (put s (slot s n) a) n ≡ none = kept n ∙ ground (arith, unknown) in
      let (s', runs, valid', same_min, same_slot, seen) = mark_initialized_lem valid n h unseen in
      let written = get_elem?-set_self s.states (slot s n) a (omega (arith, v.states_sized)) in
      (
        s',
        runs,
        record {
          valid = valid';
          same_min = same_min;
          same_slot = same_slot;
          seen = λ m. seen m ∙ ground (arith, kept m, unknown, written);
        },
      )

  pub mark-Updated :
      ⦃file : FileState A⦄ {s : SegmentSet A} (v : IsValid s) (n : ℕ)
      → Updated s (mark_readytowrite s n) (λ m. map_marked n (view s m))
  unfolding mark_readytowrite
  mark-Updated {s} v n = record {
    valid = mark_readytowrite-IsValid n v;
    same_min = refl;
    same_slot = λ m. refl;
    seen = view-mark_readytowrite s n;
  }
