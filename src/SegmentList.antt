-- ===== src/SegmentList.antt =====
-- receiver/segment_list.h and receiver/segment_list.c: the names of the files to write, out of the
-- playlist. An entry of the array that was not written yet is `none`.
pub mod Load
pub mod Memory
use rq_route_demo.Base.{
  ℕ, zero, suc, ◌+◌, Bool, true, false, List, [], ◌∷◌, ◌++◌, length, replicate, set, Option, none,
  some, Run, ok, fault, no_fuel, out_of_bounds, ◌>>=◌, mul_int, ltb, ◌==◌, if◌then◌else◌,
}
use rq_route_demo.Playlist.{dummy_get_next_ent}

-- `segment_list`
pub record SegmentList : Type 0 where
  pub n_segments : ℕ
  pub segments : List (Option (List ℕ))

-- `maxlen_fn`
abbrev pub maxlen_fn : ℕ
maxlen_fn = 40

-- The room for a name in `fullpath`: its `l_directory + maxlen_fn + 2` bytes less those before it.
abbrev pub name_room : ℕ
name_room = maxlen_fn + 1

-- `fullpath` with a name behind the directory
abbrev pub full_path : List ℕ → List ℕ → List ℕ
full_path directory name = directory ++ b'/' ∷ name

-- The array made twice as large, once it is full.
pub grow : SegmentList → ℕ → Run (SegmentList × ℕ)
grow l arrsz =
    if l.n_segments == arrsz
    then (mul_int arrsz 2 >>= λ larger.
        ok (record l { segments = l.segments ++ replicate arrsz none }, larger))
    else ok (l, arrsz)

-- `L->segments[L->n_segments].file_name = strdup(fullpath)`, and the rest of the loop's body
pub add_segment : SegmentList → ℕ → List ℕ → Run (SegmentList × ℕ)
unfolding grow
add_segment l arrsz path =
    if ltb l.n_segments (length l.segments)
    then grow
        (record {
          n_segments = l.n_segments + 1;
          segments = set l.segments l.n_segments (some path);
        })
        arrsz
    else fault out_of_bounds

-- The loop over the entries.
pub read_entries : List ℕ → ℕ → List ℕ → SegmentList → ℕ → Run SegmentList
unfolding add_segment
read_entries directory zero stream l arrsz = fault no_fuel
read_entries directory (suc fuel) stream l arrsz = do
  (entry, rest, d) ← dummy_get_next_ent maxlen_fn name_room stream
  elim entry [
    | none ↦ ok l
    | some name ↦ add_segment l arrsz (full_path directory name) >>= λ r.
        read_entries directory fuel rest r.0 r.1
  ]

-- `segment_list_load`, for what `fopen` gives. Each entry takes a byte of the stream.
pub load : List ℕ → Option (List ℕ) → Run (Option SegmentList)
unfolding read_entries
load directory none = ok none
load directory (some stream) =
    read_entries directory (suc (length stream)) stream
      (record { n_segments = 0; segments = replicate 16 none }) 16
    >>= λ l. ok (some l)
