-- ===== src/Packet.antt =====
-- utils/packet_header.h: the header of a packet.
use rq_route_demo.Base.{ℕ, List}

-- `route_header`; `ens_id` and `toi` have 16 bits, `payload_id` and `tos` have 32.
pub record RouteHeader : Type 0 where
  pub ens_id : ℕ
  pub toi : ℕ
  pub payload_id : ℕ
  pub tos : ℕ

-- `ROUTE_ENS_ID_SOURCE`
abbrev pub route_ens_id_source : ℕ
route_ens_id_source = 0

-- `ROUTE_ENS_ID_REPAIR`
abbrev pub route_ens_id_repair : ℕ
route_ens_id_repair = 1

-- A packet: its header and its payload.
abbrev pub Packet : Type 0
Packet = RouteHeader × List ℕ
