-- ===== src/SegmentSet/Marks.antt =====
-- `segstateset_mark_readytowrite` in the window.
use rq_route_demo.Base.{
  ℕ, zero, suc, ◌≡◌, refl, ap, sym, ◌∙◌, arith, Bool, true, false, ◌&&◌, List, [], ◌∷◌, get_elem?,
  Option, none, some, ltb, if◌then◌else◌, length,
}
use rq_route_demo.SegmentSet.{
  SegmentSet, FileState, is_initialized, slot, mark_one, mark_loop, mark_readytowrite,
}
use rq_route_demo.SegmentSet.Window.{IsValid, view}

module _ {A : Type 0} ⦃file : FileState A⦄ where
  -- The state of a file once the files below `n` are marked.
  abbrev pub marked : ℕ → A → A
  marked n a = if file.is_receiving a && ltb (file.file_nbr a) n then file.ready_for_write a else a

  abbrev pub map_marked : ℕ → Option A → Option A
  map_marked n none = none
  map_marked n (some a) = some (marked n a)

  abbrev marked_at : ℕ → Bool → Option A → Option A
  marked_at n true o = map_marked n o
  marked_at n false o = o

  marked_at-none : (n : ℕ) (b : Bool) → marked_at n b none ≡ none
  marked_at-none n true = refl
  marked_at-none n false = refl

  get_elem?-mark_loop :
      (n : ℕ) (bs : List Bool) (as' : List A) (i : ℕ)
      → get_elem? (mark_loop n bs as') i
        ≡ marked_at n (is_initialized (get_elem? bs i)) (get_elem? as' i)
  unfolding mark_loop mark_one
  get_elem?-mark_loop n [] as' i = refl
  get_elem?-mark_loop n (b ∷ bs) [] i =
      sym (marked_at-none n (is_initialized (get_elem? (b ∷ bs) i)))
  get_elem?-mark_loop n (true ∷ bs) (a ∷ as') zero = refl
  get_elem?-mark_loop n (false ∷ bs) (a ∷ as') zero = refl
  get_elem?-mark_loop n (b ∷ bs) (a ∷ as') (suc i) = get_elem?-mark_loop n bs as' i

  length-mark_loop :
      (n : ℕ) (bs : List Bool) (as' : List A) → length (mark_loop n bs as') ≡ length as'
  unfolding mark_loop
  length-mark_loop n [] as' = refl
  length-mark_loop n (b ∷ bs) [] = refl
  length-mark_loop n (b ∷ bs) (a ∷ as') = ap suc (length-mark_loop n bs as')

  pub mark_readytowrite-IsValid :
      {s : SegmentSet A} (n : ℕ) → IsValid s → IsValid (mark_readytowrite s n)
  unfolding mark_readytowrite
  mark_readytowrite-IsValid {s} n v = record {
    first_in = v.first_in;
    flags_sized = v.flags_sized;
    states_sized = length-mark_loop n s.states_initialized s.states ∙ v.states_sized;
  }

  -- `segstateset_mark_readytowrite` marks each file that the window shows, is receiving and has a number
  -- below `n`, and changes what the window shows of no other file.
  pub view-mark_readytowrite :
      (s : SegmentSet A) (n m : ℕ) → view (mark_readytowrite s n) m ≡ map_marked n (view s m)
  unfolding mark_readytowrite
  view-mark_readytowrite s n m =
      ground (arith, get_elem?-mark_loop n s.states_initialized s.states (slot s m))
