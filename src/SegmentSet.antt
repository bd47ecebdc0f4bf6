-- ===== src/SegmentSet.antt =====
-- receiver/segstateset.h and receiver/segstateset.c: the states of the files in a window of four, in
-- an array that is used as a ring. A pointer into `states` is an index. The type `A` of a file's state
-- is any; what the set asks of it is the record `FileState`.
pub mod First
pub mod Window
pub mod Marks
pub mod Updates
use rq_route_demo.Base.{
  ℕ, ◌+◌, ◌-◌, ◌%◌, Bool, true, false, ◌&&◌, not, List, [], ◌∷◌, get_elem?, set, replicate, Option,
  none, some, Run, ok, ◌>>=◌, ◌>>◌, assert, leb, ltb, ◌==◌, if◌then◌else◌,
}

-- `SEGSTATE_SET_N`, the number of files processed at a time.
abbrev pub segstate_set_n : ℕ
segstate_set_n = 4

-- `segstate_status`
pub data Status : Type 0 where
  ss_ok ss_uninitialized ss_below_min ss_above_max : Status

-- What `segstateset_mark_readytowrite` needs of segstate.c: `segstate_get_mode(S) == RECEIVING`,
-- `S->file_nbr` and `segstate_ready_for_write`.
pub record FileState (A : Type 0) : Type 0 where
  pub is_receiving : A → Bool
  pub file_nbr : A → ℕ
  pub ready_for_write : A → A

-- `segstateset`
pub record SegmentSet (A : Type 0) : Type 0 where
  pub min_file_nbr : ℕ
  pub first_index_in_array : ℕ
  pub states_initialized : List Bool
  pub states : List A

-- `states_initialized[i]`
abbrev pub is_initialized : Option Bool → Bool
is_initialized none = false
is_initialized (some b) = b

-- `status == SS_OK` is `status != 1, 2, 3`.
abbrev pub is_ok : Status → Bool
is_ok ss_ok = true
is_ok _ = false

-- `status >= 2`
abbrev pub is_outside : Status → Bool
is_outside ss_ok = false
is_outside ss_uninitialized = false
is_outside _ = true

module _ {A : Type 0} where
  -- `segstateset_init`; the initializer fills `states` with zeros.
  pub init : A → ℕ → SegmentSet A
  init zeroed min_file_nbr = record {
    min_file_nbr = min_file_nbr;
    first_index_in_array = 0;
    states_initialized = replicate segstate_set_n false;
    states = replicate segstate_set_n zeroed;
  }

  -- `segstateset_get_min_file_nbr`
  abbrev pub get_min_file_nbr : SegmentSet A → ℕ
  get_min_file_nbr s = s.min_file_nbr

  -- `segstateset_inc_min_file_nbr`
  pub inc_min_file_nbr : SegmentSet A → SegmentSet A
  inc_min_file_nbr s = record s {
    states_initialized = set s.states_initialized s.first_index_in_array false;
    first_index_in_array =
        if s.first_index_in_array + 1 == segstate_set_n then 0 else s.first_index_in_array + 1;
    min_file_nbr = s.min_file_nbr + 1;
  }

  -- `(file_nbr - S->min_file_nbr + S->first_index_in_array) % SEGSTATE_SET_N`
  abbrev pub slot : SegmentSet A → ℕ → ℕ
  slot s file_nbr = (file_nbr - s.min_file_nbr + s.first_index_in_array) % segstate_set_n

  -- `get_internal_index`, with `none` where `*idx` is not written
  pub get_internal_index : SegmentSet A → ℕ → Status × Option ℕ
  get_internal_index s file_nbr =
      if ltb file_nbr s.min_file_nbr
      then (ss_below_min, none)
      else if leb (s.min_file_nbr + segstate_set_n) file_nbr
      then (ss_above_max, none)
      else if is_initialized (get_elem? s.states_initialized (slot s file_nbr))
      then (ss_ok, some (slot s file_nbr))
      else (ss_uninitialized, some (slot s file_nbr))

  -- `segstateset_get`, with what it stores in `*p_ret`
  pub get : SegmentSet A → ℕ → Status × Option ℕ
  unfolding get_internal_index
  get s file_nbr =
      let (status, idx) = get_internal_index s file_nbr in
      (status, if is_outside status then none else idx)

  -- `S->states_initialized[idx] = 1`
  abbrev pub initialize : SegmentSet A → Option ℕ → SegmentSet A
  initialize s none = s
  initialize s (some idx) = record s { states_initialized = set s.states_initialized idx true }

  -- `segstateset_mark_initialized`
  pub mark_initialized : SegmentSet A → ℕ → Run (Status × SegmentSet A)
  unfolding get_internal_index
  mark_initialized s file_nbr =
      let (status, idx) = get_internal_index s file_nbr in
      do
        assert (not (is_ok status))
        ok (if is_outside status then (status, s) else (ss_ok, initialize s idx))

  -- A write through a pointer into `states`.
  pub put : SegmentSet A → ℕ → A → SegmentSet A
  put s idx a = record s { states = set s.states idx a }

  module _ ⦃file : FileState A⦄ where
    -- one round of the loop of `segstateset_mark_readytowrite`
    pub mark_one : ℕ → Bool → A → A
    mark_one n initialized a =
        if initialized && (file.is_receiving a && ltb (file.file_nbr a) n)
        then file.ready_for_write a
        else a

    -- its loop over the array
    pub mark_loop : ℕ → List Bool → List A → List A
    mark_loop n (b ∷ bs) (a ∷ as') = mark_one n b a ∷ mark_loop n bs as'
    mark_loop n [] as' = as'
    mark_loop n (b ∷ bs) [] = []

    -- `segstateset_mark_readytowrite`
    pub mark_readytowrite : SegmentSet A → ℕ → SegmentSet A
    unfolding mark_loop
    mark_readytowrite s n = record s { states = mark_loop n s.states_initialized s.states }
