-- ===== src/Segment/Packet.antt =====
-- `segstate_add_packet`: receiving a packet of a file.
use rq_route_demo.Base.{
  ℕ, ◌+◌, ◌*◌, ◌/◌, ◌^◌, ◌≤◌, ◌<◌, ◌≡◌, ◌≢◌, refl, ap, ap₂, ◌∙◌, arith, List, [], ◌∷◌, ok, fault,
  assert_failed, if◌then◌else◌, ◌==◌, length,
}
use rq_route_demo.Params.Exact.{symbols}
use rq_route_demo.CodeBlock
use rq_route_demo.CodeBlock.{CodeBlockState}
use rq_route_demo.CodeBlock.Received.{received, receive}
use rq_route_demo.CodeBlock.Add.{add_sym_refines}
use rq_route_demo.Segment.{
  SegState, RouteHeader, receiving, add_packet, symbol_id, div_uint, add_to_first,
}
use rq_route_demo.Segment.State.{IsValid}

-- The symbol that a packet carries: source packets count from 0, repair packets from `K_large`.
abbrev pub carried : ℕ → RouteHeader → ℕ
carried k header =
    if header.ens_id == 0 then header.payload_id / 1024 else k + header.payload_id / 1024

-- A packet that belongs to file `s`: what `segstate_add_packet` asserts, and the ranges of its fields.
pub record Belongs (s : SegState) (header : RouteHeader) (payload : List ℕ) : Type 0 where
  pub same_file : header.toi ≡ s.file_nbr
  pub same_size : header.tos ≡ s.file_len
  pub id_small : header.payload_id < 2 ^ 32
  pub one_symbol : length payload ≤ 1024

-- What changes: one code block, which has received the packet's symbol.
pub record Received {s : SegState} (v : IsValid s) (header : RouteHeader) (payload : List ℕ)
    (s' : SegState) : Type 0 where
  pub valid : IsValid s'
  pub holds :
      received valid.block
      ≡ receive
          (symbols s.file_len + 30)
          1024
          (received v.block)
          (carried (symbols s.file_len) header)
          payload
  pub only_blocks : s' ≡ record s { cbstates = valid.block ∷ [] }

symbol_id-carried :
    {s : SegState} (v : IsValid s) (header : RouteHeader)
    → symbol_id s header ≡ ok (carried (symbols s.file_len) header)
unfolding symbol_id div_uint
symbol_id-carried {s} v header =
    let size : s.params.t ≡ 1024 = ap (λ p. p.t) v.derived in
    let k : s.params.k_large ≡ symbols s.file_len = ap (λ p. p.k_large) v.derived in ground arith

add_to_first-one :
    (blocks : List CodeBlockState) (block added : CodeBlockState) (id : ℕ) (payload : List ℕ)
    → blocks ≡ block ∷ []
    → CodeBlock.add_sym block id payload ≡ ok added
    → add_to_first blocks id payload ≡ ok (added ∷ [])
unfolding add_to_first
add_to_first-one blocks block added id payload one runs = rw (one, add_to_first, runs)

-- The product with the hash multiplier fits in an `int`, whatever the header says.
carried_small :
    (k : ℕ) (header : RouteHeader)
    → k ≤ 50000
    → header.payload_id < 2 ^ 32
    → carried k header * 29 < 2 ^ 31
carried_small k header h p = ground arith

-- A packet that belongs to a valid file in mode RECEIVING is taken in without a fault: only the code
-- blocks change, the state stays valid, and the symbols of its block become those of `receive` for
-- the symbol that the packet carries.
pub add_packet_receives :
    {s : SegState} (v : IsValid s) (header : RouteHeader) (payload : List ℕ)
    → s.mode ≡ receiving
    → Belongs s header payload
    → (s' : SegState) × (add_packet s header payload ≡ ok s') × Received v header payload s'
unfolding add_packet
add_packet_receives {s} v header payload m b =
    let id = carried (symbols s.file_len) header in
    let (block, runs, added) =
      add_sym_refines v.block_valid id payload (omega (arith, v.block_t))
        (carried_small (symbols s.file_len) header (omega (arith, v.fits)) b.id_small) in
    let one : s.params.n_cb ≡ 1 = ap (λ p. p.n_cb) v.derived in
    let first = add_to_first-one s.cbstates v.block block id payload v.one_block runs in
    (
      record s { cbstates = block ∷ [] },
      ground (arith, one, symbol_id-carried v header, first),
      record {
        valid = record {
          some_bytes = v.some_bytes;
          fits = v.fits;
          derived = v.derived;
          block = block;
          one_block = refl;
          block_valid = added.valid;
          block_k = added.k_kept ∙ v.block_k;
          block_t = added.t_kept ∙ v.block_t;
        };
        holds =
            added.holds
            ∙ ap₂ (λ max t. receive max t (received v.block) id payload)
                (omega (arith, v.block_valid.capacity, v.block_k)) v.block_t;
        only_blocks = refl;
      },
    )

-- A packet that comes after the file was marked for output ends the program.
pub add_packet_late :
    (s : SegState) (header : RouteHeader) (payload : List ℕ)
    → s.mode ≢ receiving
    → add_packet s header payload ≡ fault assert_failed
unfolding add_packet
add_packet_late s header payload m = ground arith
