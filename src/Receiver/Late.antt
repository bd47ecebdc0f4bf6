-- ===== src/Receiver/Late.antt =====
-- A packet of a file whose output has been marked or begun, as the loop handles it.
use rq_route_demo.Base.{ℕ, ◌≡◌, ◌≢◌, arith, List, some, fault, assert_failed}
use rq_route_demo.Memory.{Malloc}
use rq_route_demo.CodeBlock.Codec.{Codec}
use rq_route_demo.SegmentSet.Window.{IsValid, view}
use rq_route_demo.Segment.{SegState, receiving, RouteHeader}
use rq_route_demo.Segment.Packet.{add_packet_late}
use rq_route_demo.Receiver.{Receiver, Input, take_packet, recv_packet}
use rq_route_demo.Receiver.Steps.{get-view, deref-view}

module _ {C : Type 0} (rq : Codec C) (heap : Malloc) (n_segments : ℕ) where
  -- If the window shows the packet's file and that file no longer receives, receiving the packet
  -- fails an assertion, whatever the packet holds.
  pub recv_packet-late :
      (r : Receiver C) (input : Input) (header : RouteHeader) (payload : List ℕ) {s : SegState}
      → IsValid r.ss
      → view r.ss header.toi ≡ some s
      → s.mode ≢ receiving
      → recv_packet rq heap n_segments r input header payload ≡ fault assert_failed
  unfolding recv_packet take_packet
  recv_packet-late r input header payload {s} v e late =
      let g = get-view v header.toi e in
      ground (arith, g, deref-view r.ss header.toi e, add_packet_late s header payload late)
