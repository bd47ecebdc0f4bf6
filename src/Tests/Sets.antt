-- ===== src/Tests/Sets.antt =====
-- Inputs for the theorems on the window of files.
use rq_route_demo.Base.{◌≡◌, ◌==◌, if◌then◌else◌, none, some, ok, arith}
use rq_route_demo.SegmentSet
use rq_route_demo.SegmentSet.{
  SegmentSet, ss_ok, inc_min_file_nbr, mark_initialized, mark_readytowrite, put, slot,
}
use rq_route_demo.SegmentSet.Window.{
  IsValid, InWindow, Got, view, init-IsValid, min-init, view-init, get_lem, view-inc_min_file_nbr,
}
use rq_route_demo.SegmentSet.Updates.{Updated, initialize-Updated}
use rq_route_demo.SegmentSet.Marks.{map_marked, view-mark_readytowrite}
use rq_route_demo.Segment.{SegState}
use rq_route_demo.Receiver.{file_state}
use rq_route_demo.Tests.{three_bytes}

abbrev empty : SegmentSet SegState
empty = SegmentSet.init three_bytes 0

empty-IsValid : IsValid empty
empty-IsValid = init-IsValid three_bytes 0

in_first : InWindow empty 0
in_first = rw (min-init three_bytes 0) (omega arith, omega arith)

initialize-Updated_example :
    (s : SegmentSet SegState) × (mark_initialized (put empty (slot empty 0) three_bytes) 0
      ≡ ok (ss_ok, s))
    × Updated empty s (λ m. if m == 0 then some three_bytes else view empty m)
initialize-Updated_example =
    initialize-Updated empty-IsValid 0 three_bytes in_first (view-init three_bytes 0 0)

-- A window that shows file 0.
abbrev with_file : SegmentSet SegState
with_file = (initialize-Updated empty-IsValid 0 three_bytes in_first (view-init three_bytes 0 0)).0

with_file-Updated : Updated empty with_file (λ m. if m == 0 then some three_bytes else view empty m)
with_file-Updated =
    (initialize-Updated empty-IsValid 0 three_bytes in_first (view-init three_bytes 0 0)).2

get_lem_example : Got with_file 0
get_lem_example = get_lem with_file-Updated.valid 0

view-inc_min_file_nbr_example :
    view (inc_min_file_nbr with_file) 0
    ≡ (if 0 == with_file.min_file_nbr then none else view with_file 0)
view-inc_min_file_nbr_example = view-inc_min_file_nbr with_file-Updated.valid 0

view-mark_readytowrite_example :
    view (mark_readytowrite with_file 1) 0 ≡ map_marked 1 (view with_file 0)
view-mark_readytowrite_example = view-mark_readytowrite with_file 1 0
