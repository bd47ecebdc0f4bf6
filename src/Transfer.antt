-- ===== src/Transfer.antt =====
-- A file on its way: the packets of sender/sender.c in receiver/segstate.c.
pub mod Symbols
pub mod Receives
pub mod Deliver
pub mod Arrival
pub mod RoundTrip
pub mod Decoding
use rq_route_demo.Base.{ℕ, ◌+◌, List, [], ◌∷◌, Run, ok, ◌>>=◌, ◌==◌, if◌then◌else◌}
use rq_route_demo.Packet.{Packet}
use rq_route_demo.Segment.{SegState, add_packet}

-- The calls of `segstate_add_packet` for packets that arrive one after the other.
pub deliver : SegState → List Packet → Run SegState
deliver s [] = ok s
deliver s ((header, payload) ∷ packets) = do s' ← add_packet s header payload; deliver s' packets

-- How many of the packets are not source packets.
abbrev pub repair_count : List Packet → ℕ
repair_count [] = 0
repair_count ((header, payload) ∷ packets) =
    (if header.ens_id == 0 then 0 else 1) + repair_count packets
