-- ===== src/Transfer/Receives.antt =====
-- The state of one file while it receives its packets.
use rq_route_demo.Base.{ℕ, ◌+◌, ◌^◌, ◌≤◌, ◌<◌, ◌≡◌, ap, sym, ◌∙◌, List, [], length, none, ok}
use rq_route_demo.Packet.{RouteHeader}
use rq_route_demo.Params.Exact.{symbols}
use rq_route_demo.CodeBlock.Received.{receive, received}
use rq_route_demo.Segment.{SegState, receiving, add_packet}
use rq_route_demo.Segment.State.{IsValid, IsNew}
use rq_route_demo.Segment.Packet.{Belongs, carried, add_packet_receives}
use rq_route_demo.Sender.{low_16}

module _ (file_nbr : ℕ) (file : List ℕ) where
  -- The state of the file while it receives.
  pub record Receives (s : SegState) : Type 0 where
    pub valid : IsValid s
    pub in_mode : s.mode ≡ receiving
    pub numbered : s.file_nbr ≡ low_16 file_nbr
    pub sized : s.file_len ≡ length file
    pub closed : s.out_fd ≡ none

  pub take_one :
      {s : SegState} (v : Receives s) (header : RouteHeader) (payload : List ℕ)
      → header.toi ≡ low_16 file_nbr
      → header.tos ≡ length file
      → header.payload_id < 2 ^ 32
      → length payload ≤ 1024
      → (s' : SegState) × (add_packet s header payload ≡ ok s')
        × (v' : Receives s') × (received v'.valid.block
            ≡ receive
                (symbols (length file) + 30)
                1024
                (received v.valid.block)
                (carried (symbols (length file)) header)
                payload)
  take_one {s} v header payload toi tos id_small one_symbol =
      let belongs : Belongs s header payload = record {
        same_file = toi ∙ sym v.numbered;
        same_size = tos ∙ sym v.sized;
        id_small = id_small;
        one_symbol = one_symbol;
      } in
      let (s', runs, r) = add_packet_receives v.valid header payload v.in_mode belongs in
      (
        s',
        runs,
        record {
          valid = r.valid;
          in_mode = ap (λ t. t.mode) r.only_blocks ∙ v.in_mode;
          numbered = ap (λ t. t.file_nbr) r.only_blocks ∙ v.numbered;
          sized = ap (λ t. t.file_len) r.only_blocks ∙ v.sized;
          closed = ap (λ t. t.out_fd) r.only_blocks ∙ v.closed;
        },
        r.holds
            ∙ ap
                (λ f.
                  receive (symbols f + 30) 1024 (received v.valid.block)
                    (carried (symbols f) header) payload)
                v.sized,
      )

  -- A new file receives, and holds no symbols.
  pub Receives-new :
      {s : SegState}
      → IsNew (low_16 file_nbr) (length file) s
      → (v : Receives s) × (received v.valid.block ≡ [])
  Receives-new w = (
    record {
      valid = w.valid;
      in_mode = w.receives;
      numbered = w.numbered;
      sized = w.sized;
      closed = w.no_output;
    },
    w.nothing_received,
  )
