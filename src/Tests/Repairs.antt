-- ===== src/Tests/Repairs.antt =====
-- A file of three bytes, of which only the repair packet arrives.
use rq_route_demo.Base.{
  ℕ, ◌<◌, ◌≤◌, ◌≡◌, ◌+◌, refl, ap, some, List, [], ◌∷◌, length, ok, true, arith, inl, inr, pos,
}
use rq_route_demo.CodeBlock.Erasure.{View}
use rq_route_demo.CodeBlock.Received.{ids, receive, received}
use rq_route_demo.Packet.{Packet}
use rq_route_demo.Sender.{xmit_file}
use rq_route_demo.Sender.Blocks.{Works}
use rq_route_demo.Sender.Encoded.{sources-compile, xmit_file-encodes}
use rq_route_demo.Sender.Packets.{packets, repair_packet}
use rq_route_demo.Sender.Padding.{padded}
use rq_route_demo.Transfer.Arrival.{arrive, IsPacket, deliver-arrive}
use rq_route_demo.Transfer.{deliver}
use rq_route_demo.Transfer.Receives.{Receives, Receives-new}
use rq_route_demo.Segment.{SegState}
use rq_route_demo.Segment.State.{init-IsNew}
use rq_route_demo.Transfer.Decoding.{xmit_file-Decodes}
use rq_route_demo.Transfer.RoundTrip.{Recovers}
use rq_route_demo.Tests.{zero_heap}
use rq_route_demo.Tests.Sending.{bytes, small_sizes, one_repair, one_byte, one_byte-Accepts}
use rq_route_demo.Tests.Repetition.{
  repeated, suffices, compiled, seen, repetition, repetition-ErasureCode, repetition-Runs,
}

pub repetition-Works : Works repetition small_sizes
repetition-Works = record {
  sizes_inter = λ k n. (0, refl);
  sizes_out = λ n. (0, refl);
  inter_init = λ c k n. (0, refl);
  inter_add_ids = λ c id n. (0, refl);
  inter_compile = λ c k. (0, sources-compile repetition repetition-ErasureCode repetition-Runs k c);
  inter_execute = λ c t syms. (0, refl);
  out_init = λ c k. (0, refl);
  out_add_ids = λ c id n. (0, refl);
  out_compile = λ c. (0, refl);
  out_execute = λ c t out. (0, refl);
  out_sized = repetition-Runs.out_sized;
}

-- A decoder that was given nothing.
abbrev pub fresh : View
fresh = record {
  given = (0, []);
  program = (0, []);
  block = (0, 0, []);
  out_given = (0, []);
  out_program = (0, []);
}

xmit_file-encodes_example :
    (made : List ℕ) × (c' : View) × (xmit_file repetition zero_heap small_sizes one_repair 5
        (record { opened = some bytes; seeks = true; tells = true; reopened = some bytes })
        fresh
      ≡ ok (true, packets 1 5 bytes made, c'))
    × ((j : ℕ) → j < 1 → (repair_packet 5 3 made j).1 ≡ repeated 1 1024 (padded bytes) (1 + j))
xmit_file-encodes_example =
    xmit_file-encodes repetition repetition-ErasureCode repetition-Runs zero_heap small_sizes
      repetition-Works one_repair 5 bytes fresh (omega arith) (omega arith) (omega arith)

-- The symbols that the repair packet is cut from.
abbrev made : List ℕ
made =
    (xmit_file-encodes repetition repetition-ErasureCode repetition-Runs zero_heap small_sizes
      repetition-Works one_repair 5 bytes fresh (omega arith) (omega arith) (omega arith)).0

abbrev arrived : List Packet
arrived = repair_packet 5 3 made 0 ∷ []

enough : 1 ≤ length (arrive 1 [] arrived)
unfolding arrive receive
enough = omega arith

decodable :
    (m : View)
    → (seen m).given ≡ (1, ids (arrive 1 [] arrived))
    → (repetition.inter_compile m).0 ≡ pos 0
unfolding arrive receive
decodable m given = ap (λ b. (compiled m b).0) (ap suffices given)

xmit_file-Decodes_example : Recovers repetition zero_heap 5 bytes 4 one_byte fresh arrived
xmit_file-Decodes_example =
    xmit_file-Decodes repetition repetition-ErasureCode repetition-Runs zero_heap small_sizes
      repetition-Works one_repair 5 bytes fresh arrived 4 one_byte fresh (omega arith) (omega arith)
      (omega arith)
      (xmit_file-encodes repetition repetition-ErasureCode repetition-Runs zero_heap small_sizes
        repetition-Works one_repair 5 bytes fresh (omega arith) (omega arith) (omega arith)).2
      (inr (inl refl), tt) enough decodable one_byte-Accepts

-- The state of the file as it is set up.
abbrev new_file : SegState
new_file = (init-IsNew zero_heap 5 3 (omega arith) (omega arith)).0

abbrev new_file-Receives : Receives 5 bytes new_file
new_file-Receives =
    (Receives-new 5 bytes (init-IsNew zero_heap 5 3 (omega arith) (omega arith)).2).0

abbrev lone : Packet
lone = (record { ens_id = 1; toi = 5; payload_id = 2048; tos = 3 }, 1 ∷ 2 ∷ [])

lone-IsPacket : IsPacket 5 bytes lone
lone-IsPacket = record {
  same_file = refl;
  same_size = refl;
  id_small = omega arith;
  one_symbol = omega arith;
}

deliver-arrive_example :
    (s' : SegState) × (deliver new_file (lone ∷ lone ∷ []) ≡ ok s')
    × (v' : Receives 5 bytes s') × (received v'.valid.block
        ≡ arrive 1 (received new_file-Receives.valid.block) (lone ∷ lone ∷ []))
deliver-arrive_example =
    deliver-arrive 5 bytes (lone ∷ lone ∷ []) new_file-Receives (lone-IsPacket, (lone-IsPacket, tt))
