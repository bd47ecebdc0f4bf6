-- ===== src/Sender.antt =====
-- sender/sender.c: `xmit_file`, which sends a file as packets. Files are lists of bytes, and the
-- packets that `udp_sendmsg` gets are the result, in order. A number of repair symbols that is not
-- positive is 0. The RaptorQ library is the record of CodeBlock/Codec and the sizes that it asks for.
pub mod Packets
pub mod Padding
pub mod Blocks
pub mod Transmit
pub mod Encoded
pub mod Segments
pub mod Main
use rq_route_demo.Base.{
  ℕ, zero, suc, ◌+◌, ◌-◌, ◌*◌, ◌^◌, ◌%◌, Bool, true, false, ◌||◌, ◌&&◌, List, [], ◌∷◌, ◌++◌, length,
  take, drop, replicate, Option, none, some, Run, ok, fault, null_pointer, ◌>>=◌, ◌>>◌, assert,
  mul_int, leb, ltb, ◌==◌, if◌then◌else◌, memcpy, read_bytes, ℤ, pos, negsuc, pos_part,
}
use rq_route_demo.Memory.{Malloc}
use rq_route_demo.Packet.{RouteHeader, Packet, route_ens_id_source, route_ens_id_repair}
use rq_route_demo.Clock.{Doubles}
use rq_route_demo.Params.{CodingParams, param_deriv}
use rq_route_demo.CodeBlock.Codec.{Codec, CodecSizes}
use rq_route_demo.Segment.{int_of_size, sub_size}

-- What the system answers to the calls on the file: `fopen`, `fseek` and `ftell` of `get_file_size`, and the
-- later `fopen` of `xmit_file`, each with the file's bytes.
pub record FileAnswers : Type 0 where
  pub opened : Option (List ℕ)
  pub seeks : Bool
  pub tells : Bool
  pub reopened : Option (List ℕ)

-- `get_file_size`
pub get_file_size : FileAnswers → ℤ
get_file_size f = elim f.opened [
  | none ↦ negsuc 0
  | some bytes ↦ if f.seeks && f.tells then int_of_size (length bytes) else negsuc 0
]

-- `nExtra` for code blocks of `k` symbols, from the overhead.
abbrev pub n_extra : {D : Type 0} → Doubles D → D → ℕ → ℤ
n_extra double overhead k = double.ceil (double.mul (double.of_int (pos k)) overhead)

-- `payload_maxsz`: what the header of 12 bytes leaves of a packet of 2048.
abbrev pub payload_maxsz : ℕ
payload_maxsz = 2048 - 12

abbrev pub low_16 : ℕ → ℕ
low_16 n = n % 2 ^ 16

-- The header of a packet for the symbol at offset `offs` of its kind.
abbrev pub header_at : ℕ → ℕ → ℕ → ℕ → RouteHeader
header_at ens_id file_nbr fsiz offs = record {
  ens_id = ens_id;
  toi = low_16 file_nbr;
  payload_id = offs;
  tos = fsiz;
}

-- Whether to go on, and the packets sent.
abbrev pub Sent : Type 0
Sent = Bool × List Packet

-- One packet whose payload is `size` bytes of `src` from `offs`, then those of `rest`.
pub send_symbol : RouteHeader → List ℕ → ℕ → ℕ → Run Sent → Run Sent
send_symbol header src offs size rest = if ltb payload_maxsz size then ok (false, []) else do
  payload ← read_bytes src offs size
  (fine, later) ← rest
  ok (fine, (header, payload) ∷ later)

-- `payload_size` of the source symbol at `offs`
abbrev pub payload_size : ℕ → ℕ → ℕ → ℕ
payload_size t sz_read offs = if ltb (sub_size sz_read offs) t then sub_size sz_read offs else t

-- The loop that transmits the source symbols `j`, `j + 1`, ..., with `n` of them left.
pub send_sources : ℕ → ℕ → ℕ → List ℕ → ℕ → ℕ → ℕ → Run Sent
unfolding send_symbol
send_sources file_nbr fsiz t src sz_read zero j = ok (true, [])
send_sources file_nbr fsiz t src sz_read (suc n) j =
    let rest = send_sources file_nbr fsiz t src sz_read n (j + 1) in
    do
      offs ← mul_int j t
      send_symbol (header_at route_ens_id_source file_nbr fsiz offs) src offs
          (payload_size t sz_read offs) rest

-- The loop that sends the repair symbols.
pub send_repairs : ℕ → ℕ → ℕ → List ℕ → ℕ → ℕ → Run Sent
unfolding send_symbol
send_repairs file_nbr fsiz t src zero j = ok (true, [])
send_repairs file_nbr fsiz t src (suc n) j =
    let rest = send_repairs file_nbr fsiz t src n (j + 1) in
    do
      offs ← mul_int j t
      send_symbol (header_at route_ens_id_repair file_nbr fsiz offs) src offs t rest

-- `fread` of `want` bytes into the source block, and the padding of what is missing.
pub read_block : CodingParams → ℕ → ℕ → List ℕ → List ℕ → Run (List ℕ)
read_block p cb k src got = do
  want ← mul_int p.t k
  filled ← memcpy src 0 got
  if ltb (length got) want
      then (do
        assert (cb + 1 == p.n_cb)
        most ← mul_int p.t (k - 1)
        assert (ltb most (length got))
        memcpy filled (length got) (replicate (want - length got) 0))
      else ok filled

module _ {C : Type 0} (rq : Codec C) (heap : Malloc) where
  -- What `xmit_file` leaves: its result, the packets sent, and the encoder's memory.
  abbrev pub Xmit : Type 0
  Xmit = Bool × List Packet × C

  -- `RUN_NOFAIL(x)`: a negative code ends `xmit_file` with `false`.
  abbrev pub nofail : ℤ × C → (C → Run Xmit) → Run Xmit
  nofail (pos rc, c) rest = rest c
  nofail (negsuc rc, c) rest = ok (false, [], c)

  -- Packets sent, and what follows them if nothing ended the function.
  abbrev pub then_send : Run Sent → C → Run Xmit → Run Xmit
  then_send sent c rest = sent >>= λ s. elim s.0 [
    | false ↦ ok (false, s.1, c)
    | true ↦ rest >>= λ r. ok (r.0, s.1 ++ r.1, r.2)
  ]

  -- The programs of a code block, generated for the first large and the first small one.
  pub generate : CodingParams → ℕ → ℕ → ℕ → C → (C → Run Xmit) → Run Xmit
  generate p n_extra cb k c rest =
      if cb == 0 || cb == p.n_large
      then (nofail (rq.inter_init c k 0) λ c₁. nofail (rq.inter_add_ids c₁ 0 k) λ c₂.
          nofail (rq.inter_compile c₂) λ c₃.
            nofail (rq.out_init c₃ k)
              λ c₄. nofail (rq.out_add_ids c₄ k n_extra) λ c₅. nofail (rq.out_compile c₅) rest)
      else rest c

  -- The repair symbols of a code block. `RqOutExecute` writes them over the source block.
  pub xmit_repairs :
      CodingParams → ℕ → ℕ → ℕ → ℕ → ℕ → List ℕ → C → (List ℕ → C → Run Xmit) → Run Xmit
  unfolding generate
  xmit_repairs p n_extra file_nbr fsiz cb k src c rest =
      if n_extra == 0
      then rest src c
      else generate p n_extra cb k c λ c₁. nofail (rq.inter_execute c₁ p.t src) λ c₂.
        let (rc, repairs, c₃) = rq.out_execute c₂ p.t src in
        nofail (rc, c₃)
          λ c₄. then_send (send_repairs file_nbr fsiz p.t repairs n_extra 0) c₄ (rest repairs c₄)

  -- One round of the loop over the code blocks: code block `cb` of `k` symbols, out of what is left of
  -- the file, then `later` for the blocks behind it.
  pub xmit_block :
      CodingParams → ℕ → ℕ → ℕ → ℕ → ℕ → List ℕ → List ℕ → C → (List ℕ → C → Run Xmit) → Run Xmit
  unfolding xmit_repairs
  xmit_block p n_extra file_nbr fsiz cb k file src c later = do
    block ← read_block p cb k src (take (p.t * k) file)
    then_send (send_sources file_nbr fsiz p.t block (length (take (p.t * k) file)) k 0) c
        (xmit_repairs p n_extra file_nbr fsiz cb k block c later)

  -- The loop over the code blocks, `n` of which are left, with what is left of the file.
  pub xmit_blocks : CodingParams → ℕ → ℕ → ℕ → ℕ → ℕ → List ℕ → List ℕ → C → Run Xmit
  unfolding xmit_block
  xmit_blocks p n_extra file_nbr fsiz zero cb file src c = ok (true, [], c)
  xmit_blocks p n_extra file_nbr fsiz (suc n) cb file src c =
      let k = p.k_large - (if leb p.n_large cb then 1 else 0) in
      xmit_block p n_extra file_nbr fsiz cb k file src c
        (xmit_blocks p n_extra file_nbr fsiz n (cb + 1) (drop (p.t * k) file))

  -- `xmit_file` with the parameters `p`, behind the calls that ask for the sizes of the codec's memory.
  pub xmit_params : CodingParams → ℕ → ℕ → ℕ → Option (List ℕ) → C → Run Xmit
  xmit_params p n_extra file_nbr fsiz none c = fault null_pointer
  xmit_params p n_extra file_nbr fsiz (some file) c = do
    src_block_size ← mul_int p.t (if ltb n_extra p.k_large then p.k_large else n_extra)
    xmit_blocks p n_extra file_nbr fsiz p.n_cb 0 file (heap.block src_block_size) c

  module _ (sizes : CodecSizes) where
    -- `xmit_file` for a file of `fsiz` bytes; `extra k` is `nExtra` for blocks of `k` symbols, which
    -- `n_extra` computes for `send_segments`.
    pub xmit_size : (ℕ → ℤ) → ℕ → ℕ → Option (List ℕ) → C → Run Xmit
    xmit_size extra file_nbr fsiz file c = do
      p ← param_deriv (pos fsiz)
      let n_extra = pos_part (extra p.k_large)
      if n_extra == 0
          then xmit_params p n_extra file_nbr fsiz file c
          else nofail ((sizes.inter p.k_large n_extra).0, c)
              λ c₁. nofail ((sizes.out n_extra).0, c₁) (xmit_params p n_extra file_nbr fsiz file)

    -- `xmit_file` once `get_file_size` has returned
    pub xmit_sized : (ℕ → ℤ) → ℕ → ℤ → Option (List ℕ) → C → Run Xmit
    unfolding xmit_size
    xmit_sized extra file_nbr (negsuc e) file c = ok (false, [], c)
    xmit_sized extra file_nbr (pos fsiz) file c =
        if fsiz == 0 then ok (false, [], c) else xmit_size extra file_nbr fsiz file c

    -- `xmit_file`
    pub xmit_file : (ℕ → ℤ) → ℕ → FileAnswers → C → Run Xmit
    unfolding xmit_sized
    xmit_file extra file_nbr f c = xmit_sized extra file_nbr (get_file_size f) f.reopened c
