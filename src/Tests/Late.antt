-- ===== src/Tests/Late.antt =====
-- A window that shows file 0, which is ready for output, and a packet of that file.
use rq_route_demo.Base.{◌≡◌, ◌==◌, if◌then◌else◌, [], ◌∷◌, none, some, fault, assert_failed, arith}
use rq_route_demo.SegmentSet
use rq_route_demo.SegmentSet.{SegmentSet}
use rq_route_demo.SegmentSet.Window.{InWindow, view, init-IsValid, min-init, view-init}
use rq_route_demo.SegmentSet.Updates.{Updated, initialize-Updated}
use rq_route_demo.Segment.{SegState, ready_to_write, RouteHeader}
use rq_route_demo.Receiver.{Receiver, recv_packet, start}
use rq_route_demo.Receiver.Late.{recv_packet-late}
use rq_route_demo.Tests.{zero_heap, idle, three_bytes}
use rq_route_demo.Tests.Loop.{arrival}

abbrev ready : SegState
ready = record three_bytes { mode = ready_to_write }

abbrev empty : SegmentSet SegState
empty = SegmentSet.init three_bytes 0

in_first : InWindow empty 0
in_first = rw (min-init three_bytes 0) (omega arith, omega arith)

abbrev window : SegmentSet SegState
window =
    (initialize-Updated (init-IsValid three_bytes 0) 0 ready in_first (view-init three_bytes 0 0)).0

window-Updated : Updated empty window (λ m. if m == 0 then some ready else view empty m)
window-Updated =
    (initialize-Updated (init-IsValid three_bytes 0) 0 ready in_first (view-init three_bytes 0 0)).2

abbrev receiver : Receiver (Unit {0})
receiver = record (start three_bytes tt none) { ss = window }

abbrev header : RouteHeader
header = record { ens_id = 0; toi = 0; payload_id = 0; tos = 3 }

recv_packet-late_example :
    recv_packet idle zero_heap 1 receiver arrival header (7 ∷ []) ≡ fault assert_failed
recv_packet-late_example =
    recv_packet-late idle zero_heap 1 receiver arrival header (7 ∷ []) {s = ready}
      window-Updated.valid (window-Updated.seen 0) (λ h. cc)
