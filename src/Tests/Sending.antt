-- ===== src/Tests/Sending.antt =====
-- A file of three bytes, sent with one repair packet that never arrives.
use rq_route_demo.Base.{
  ℕ, ◌<◌, ◌≡◌, refl, some, List, [], ◌∷◌, ok, true, arith, Has, inl, ℤ, pos, zero, suc,
}
use rq_route_demo.CodeBlock.Codec.{CodecSizes}
use rq_route_demo.Packet.{Packet}
use rq_route_demo.Sender.{xmit_file}
use rq_route_demo.Sender.Packets.{packets, source_packet}
use rq_route_demo.Sender.Blocks.{Works}
use rq_route_demo.Sender.Transmit.{xmit_file-sends}
use rq_route_demo.Transfer.RoundTrip.{Recovers, xmit_file-Recovers}
use rq_route_demo.Segment.Drain.{Accepts}
use rq_route_demo.Tests.{zero_heap, idle}

abbrev pub bytes : List ℕ
bytes = 7 ∷ 8 ∷ 9 ∷ []

abbrev pub small_sizes : CodecSizes
small_sizes = record { inter = λ k n. (pos 0, 8, 8, 4); out = λ n. (pos 0, 8, 8) }

pub idle-Works : Works idle small_sizes
idle-Works = record {
  sizes_inter = λ k n. (0, refl);
  sizes_out = λ n. (0, refl);
  inter_init = λ c k n. (0, refl);
  inter_add_ids = λ c id n. (0, refl);
  inter_compile = λ c k. (0, refl);
  inter_execute = λ c t syms. (0, refl);
  out_init = λ c k. (0, refl);
  out_add_ids = λ c id n. (0, refl);
  out_compile = λ c. (0, refl);
  out_execute = λ c t out. (0, refl);
  out_sized = λ c t out. refl;
}

abbrev pub one_repair : ℕ → ℤ
one_repair k = pos 1

-- The symbols that the repair packet is cut from.
abbrev repairs : List ℕ
repairs =
    (xmit_file-sends idle zero_heap small_sizes idle-Works one_repair 5 bytes tt (omega arith)
      (omega arith) (omega arith)).0

xmit_file-sends_example :
    (symbols : List ℕ) × (c' : Unit {0}) × (xmit_file idle zero_heap small_sizes one_repair 5
        (record { opened = some bytes; seeks = true; tells = true; reopened = some bytes })
        tt
      ≡ ok (true, packets 1 5 bytes symbols, c'))
xmit_file-sends_example =
    xmit_file-sends idle zero_heap small_sizes idle-Works one_repair 5 bytes tt (omega arith)
      (omega arith) (omega arith)

-- The source packet arrives twice.
abbrev arrived : List Packet
arrived = source_packet 5 bytes 0 ∷ source_packet 5 bytes 0 ∷ []

abbrev pub one_byte : ℕ → ℕ → ℤ
one_byte i count = pos 1

pub one_byte-Accepts : Accepts one_byte
one_byte-Accepts i count h = (1, refl, omega arith, omega arith)

arrived-all : (j : ℕ) → j < 1 → Has (source_packet 5 bytes j) arrived
arrived-all zero h = inl refl
arrived-all (suc j) h = absurd (omega arith)

xmit_file-Recovers_example : Recovers idle zero_heap 5 bytes 4 one_byte tt arrived
xmit_file-Recovers_example =
    xmit_file-Recovers idle zero_heap small_sizes idle-Works one_repair 5 bytes tt arrived 4
      one_byte tt (omega arith) (omega arith) (omega arith)
      (xmit_file-sends idle zero_heap small_sizes idle-Works one_repair 5 bytes tt (omega arith)
        (omega arith) (omega arith)).2
      (inl refl, (inl refl, tt)) arrived-all (omega arith) one_byte-Accepts
