-- ===== src/Tests/Files.antt =====
-- Inputs for the theorems on the state of a file.
use rq_route_demo.Base.{ℕ, ◌≡◌, refl, sym, [], ◌∷◌, ok, some, ℤ, pos, arith}
use rq_route_demo.Segment
use rq_route_demo.Segment.{
  SegState, Mode, receiving, writing, RouteHeader, Written, add_packet, prepare_output, write_more,
}
use rq_route_demo.Segment.State.{IsNew, init-IsNew}
use rq_route_demo.Segment.Packet.{Belongs, Received, add_packet_receives}
use rq_route_demo.Segment.Output.{IsWriting}
use rq_route_demo.Segment.Drain.{Accepts, drain, drain_lem}
use rq_route_demo.Tests.{zero_heap, idle, three_bytes}

init-IsNew_example : (s : SegState) × (Segment.init zero_heap 0 1500 ≡ ok s) × IsNew 0 1500 s
init-IsNew_example = init-IsNew zero_heap 0 1500 (omega arith) (omega arith)

abbrev new_file : SegState
new_file = (init-IsNew zero_heap 0 1500 (omega arith) (omega arith)).0

new_file-IsNew : IsNew 0 1500 new_file
new_file-IsNew = (init-IsNew zero_heap 0 1500 (omega arith) (omega arith)).2

abbrev header : RouteHeader
header = record { ens_id = 0; toi = 0; payload_id = 1024; tos = 1500 }

header-Belongs : Belongs new_file header (1 ∷ 2 ∷ [])
header-Belongs = record {
  same_file = sym new_file-IsNew.numbered;
  same_size = sym new_file-IsNew.sized;
  id_small = omega arith;
  one_symbol = omega arith;
}

add_packet_receives_example :
    (s : SegState) × (add_packet new_file header (1 ∷ 2 ∷ []) ≡ ok s)
    × Received new_file-IsNew.valid header (1 ∷ 2 ∷ []) s
add_packet_receives_example =
    add_packet_receives new_file-IsNew.valid header (1 ∷ 2 ∷ []) new_file-IsNew.receives
      header-Belongs

-- The first three of the bytes loaded are the file.
abbrev pub being_written : SegState
being_written = record three_bytes {
  mode = writing;
  out_fd = some 4;
  out_cb = some 0;
  out_cb_buf = 7 ∷ 8 ∷ 9 ∷ 0 ∷ [];
}

pub being_written-IsWriting : IsWriting 3 0 (7 ∷ 8 ∷ 9 ∷ 0 ∷ []) being_written
being_written-IsWriting = record {
  some_left = omega arith;
  fits = omega arith;
  sized = refl;
  derived = refl;
  fd = 4;
  opened = refl;
  in_mode = refl;
  first_block = refl;
  at_offs = refl;
  holds = refl;
}

-- One byte at a time.
abbrev one_byte : ℕ → ℕ → ℤ
one_byte i count = pos 1

one_byte-Accepts : Accepts one_byte
one_byte-Accepts i count h = (1, refl, omega arith, omega arith)

drain_lem_example : drain idle 3 being_written one_byte tt ≡ ok (7 ∷ 8 ∷ 9 ∷ [])
drain_lem_example =
    drain_lem idle 3 being_written-IsWriting one_byte tt one_byte-Accepts (omega arith)
