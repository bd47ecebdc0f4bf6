-- ===== src/SegmentList/Load.antt =====
-- The list of a playlist that was printed line by line.
use rq_route_demo.Base.{
  take-append_within, ℕ, zero, suc, ◌+◌, ◌*◌, ◌^◌, ◌≤◌, ◌<◌, ◌≡◌, refl, ap, sym, ◌∙◌, arith, true,
  List, [], ◌∷◌, ◌++◌, length, length-append, length-replicate, length-set, replicate, set, take,
  take-set, Option, none, some, ok, mul_int-ok, ltb, ◌==◌, Every, Bool-cases, inl, inr, append-nil,
  append_assoc,
}
use rq_route_demo.Playlist.{dummy_get_next_ent}
use rq_route_demo.Playlist.Lines.{IsLine, print, names, entry_of, dummy_get_next_ent-print}
use rq_route_demo.Playlist.Names.{first_name-cases}
use rq_route_demo.SegmentList.{
  SegmentList, maxlen_fn, full_path, grow, add_segment, read_entries, load,
}

-- The paths that the list holds.
abbrev pub paths : List ℕ → List (List ℕ) → List (Option (List ℕ))
paths directory [] = []
paths directory (n ∷ ns) = some (full_path directory n) ∷ paths directory ns

-- The array has `arrsz` entries, more than are in use, and at most sixteen more than twice as many.
pub record Fills (l : SegmentList) (arrsz : ℕ) : Type 0 where
  pub sized : length l.segments ≡ arrsz
  pub room : l.n_segments < arrsz
  pub tight : arrsz ≤ 2 * l.n_segments + 16

-- One more entry.
add_segment_lem :
    (l : SegmentList) (arrsz : ℕ) (path : List ℕ)
    → Fills l arrsz
    → l.n_segments < 2 ^ 28
    → (l' : SegmentList) × (arrsz' : ℕ) × (add_segment l arrsz path ≡ ok (l', arrsz'))
      × Fills l' arrsz'
      × (l'.n_segments ≡ l.n_segments + 1)
      × (take l'.n_segments l'.segments ≡ take l.n_segments l.segments ++ some path ∷ [])
unfolding add_segment grow
add_segment_lem l arrsz path v small =
    let here : ltb l.n_segments (length l.segments) ≡ true = ground (arith, v.sized, v.room) in
    let n = l.n_segments in
    let next : n + 1 ≡ suc n = omega arith in
    let written = set l.segments n (some path) in
    let size = length-set l.segments n (some path) in
    let held : take (n + 1) written ≡ take n l.segments ++ some path ∷ [] =
      rw next (take-set l.segments n (some path) (omega (arith, v.sized, v.room))) in
    elim (Bool-cases (n + 1 == arrsz)) [
      | inr space ↦ (
        record { n_segments = n + 1; segments = written },
        arrsz,
        rw (here, space),
        record {
          sized = size ∙ v.sized;
          room = ground (arith, v.room);
          tight = omega (arith, v.tight);
        },
        refl,
        held,
      )
      | inl full ↦ (
        record { n_segments = n + 1; segments = written ++ replicate arrsz none },
        arrsz * 2,
        rw (here, full, mul_int-ok arrsz 2 (ground (arith, v.tight))),
        record {
          sized =
              length-append written (replicate arrsz none)
              ∙ omega (arith, size, v.sized, length-replicate {A = Option (List ℕ)} arrsz none);
          room = omega (arith, v.room);
          tight = ground arith;
        },
        refl,
        take-append_within written (replicate arrsz none) (n + 1)
              (omega (arith, size, v.sized, v.room))
            ∙ held,
      )
    ]

-- What the loop adds to the list: the entries `ns`.
record Adds (directory : List ℕ) (ns : List (List ℕ)) (l l' : SegmentList) : Type 0 where
  counted : l'.n_segments ≡ l.n_segments + length ns
  within : l'.n_segments ≤ length l'.segments
  held : take l'.n_segments l'.segments ≡ take l.n_segments l.segments ++ paths directory ns

read_entries_lem :
    (directory : List ℕ) (fuel : ℕ) (ls : List (List ℕ)) (l : SegmentList) (arrsz : ℕ)
    → Every (IsLine 40) ls
    → Fills l arrsz
    → length (print ls) < fuel
    → l.n_segments + length ls < 2 ^ 28
    → (l' : SegmentList) × (read_entries directory fuel (print ls) l arrsz ≡ ok l')
      × Adds directory (names ls) l l'
unfolding read_entries
read_entries_lem directory zero ls l arrsz lines v enough few = absurd (omega arith)
read_entries_lem directory (suc fuel) ls l arrsz lines v enough few =
    elim (first_name-cases 40 ls lines) [
      | inl (nothing, no_names) ↦
          let entry : dummy_get_next_ent 40 41 (print ls) ≡ ok (none, [], tt) =
            dummy_get_next_ent-print 40 41 ls lines ∙ ap (λ o. ok (entry_of o tt)) nothing in
          (
            l,
            rw entry,
            record {
              counted = rw no_names (omega arith);
              within = omega (arith, v.room, v.sized);
              held = rw no_names (sym (append-nil (take l.n_segments l.segments)));
            },
          )
      | inr s ↦
          let entry : dummy_get_next_ent 40 41 (print ls) ≡ ok (some s.name, print s.rest, tt) =
            dummy_get_next_ent-print 40 41 ls lines ∙ ap (λ o. ok (entry_of o tt)) s.first in
          let (l₁, size, added, w, one_more, held) =
            add_segment_lem l arrsz (full_path directory s.name) v (omega arith) in
          let (l', rest, a) =
            read_entries_lem directory fuel s.rest l₁ size s.lines w (omega (arith, s.shorter))
              (omega (arith, s.fewer, one_more)) in
          (
            l',
            rw (entry, added) rest,
            record {
              counted = rw s.others (omega (arith, a.counted, one_more));
              within = a.within;
              held = rw s.others (
                  a.held
                  ∙ ap (λ t. t ++ paths directory (names s.rest)) held
                  ∙ append_assoc (take l.n_segments l.segments)
                      (some (full_path directory s.name) ∷ []) (paths directory (names s.rest)));
            },
          )
    ]

-- For a playlist of fewer than 2 ^ 28 lines, each of at most 38 bytes, without NUL and ended by a
-- newline: `segment_list_load` returns, and the list holds exactly the paths of the lines that are no
-- comments, in order, within the array.
pub load-print :
    (directory : List ℕ) (ls : List (List ℕ))
    → Every (IsLine maxlen_fn) ls
    → length ls < 2 ^ 28
    → (l : SegmentList) × (load directory (some (print ls)) ≡ ok (some l))
      × (l.n_segments ≡ length (names ls))
      × (l.n_segments ≤ length l.segments)
      × (take l.n_segments l.segments ≡ paths directory (names ls))
unfolding load
load-print directory ls lines few =
    let (l, runs, a) =
      read_entries_lem directory (suc (length (print ls))) ls
        (record { n_segments = 0; segments = replicate 16 none }) 16 lines
        (record { sized = refl; room = omega arith; tight = omega arith }) (omega arith)
        (omega arith) in
    (l, rw runs, a.counted ∙ omega arith, a.within, a.held)
