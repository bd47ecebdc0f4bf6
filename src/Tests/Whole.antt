-- ===== src/Tests/Whole.antt =====
-- A file of three bytes that one packet carries.
use rq_route_demo.Base.{ℕ, ◌≡◌, refl, sym, ◌∙◌, ap, List, [], ◌∷◌, take, ok, ℤ, pos, arith}
use rq_route_demo.CodeBlock.Received.{receive, received, pad, used, ids, ids-entries}
use rq_route_demo.Segment.{SegState, RouteHeader, prepare_output}
use rq_route_demo.Segment.State.{IsNew, init-IsNew}
use rq_route_demo.Segment.Packet.{Belongs, Received, add_packet_receives}
use rq_route_demo.Segment.Drain.{Accepts, drain}
use rq_route_demo.Segment.Whole.{IsComplete, drain-prepare_output}
use rq_route_demo.Tests.{zero_heap, idle}

abbrev bytes : List ℕ
bytes = 7 ∷ 8 ∷ 9 ∷ []

abbrev new_file : SegState
new_file = (init-IsNew zero_heap 0 3 (omega arith) (omega arith)).0

new_file-IsNew : IsNew 0 3 new_file
new_file-IsNew = (init-IsNew zero_heap 0 3 (omega arith) (omega arith)).2

abbrev header : RouteHeader
header = record { ens_id = 0; toi = 0; payload_id = 0; tos = 3 }

header-Belongs : Belongs new_file header bytes
header-Belongs = record {
  same_file = sym new_file-IsNew.numbered;
  same_size = sym new_file-IsNew.sized;
  id_small = omega arith;
  one_symbol = omega arith;
}

abbrev full : SegState
full =
    (add_packet_receives new_file-IsNew.valid header bytes new_file-IsNew.receives header-Belongs).0

full-Received : Received new_file-IsNew.valid header bytes full
full-Received =
    (add_packet_receives new_file-IsNew.valid header bytes new_file-IsNew.receives header-Belongs).2

full-size : full.file_len ≡ 3
full-size = ap (λ s. s.file_len) full-Received.only_blocks ∙ new_file-IsNew.sized

full-holds : received full-Received.valid.block ≡ (0, pad 1024 bytes) ∷ []
unfolding receive
full-holds = full-Received.holds ∙ rw (new_file-IsNew.nothing_received, new_file-IsNew.sized) refl

full-used : used full-Received.valid.block ≡ 0 ∷ []
full-used =
    let b = full-Received.valid.block in
    sym (ids-entries b.t b.syms_buf 0 (used b)) ∙ ap ids full-holds

full-IsComplete : IsComplete full-Received.valid (pad 1024 bytes)
full-IsComplete = record {
  padded = rw full-size refl;
  all_counted =
      rw
        (full-Received.valid.block_valid.sources, full-used, full-Received.valid.block_k, full-size)
        (omega arith);
  parts = rw (full-holds, full-size) ((λ h. refl), tt);
}

abbrev one_byte : ℕ → ℕ → ℤ
one_byte i count = pos 1

one_byte-Accepts : Accepts one_byte
one_byte-Accepts i count h = (1, refl, omega arith, omega arith)

drain-prepare_output_example :
    (s : SegState) × (prepare_output idle zero_heap full 4 tt ≡ ok (s, tt))
    × (drain idle full.file_len s one_byte tt ≡ ok (take full.file_len (pad 1024 bytes)))
drain-prepare_output_example =
    drain-prepare_output idle zero_heap full-Received.valid (pad 1024 bytes) 4 one_byte tt
      full-IsComplete (ap (λ s. s.out_fd) full-Received.only_blocks ∙ new_file-IsNew.no_output)
      one_byte-Accepts
