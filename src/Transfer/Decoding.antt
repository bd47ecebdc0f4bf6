-- ===== src/Transfer/Decoding.antt =====
-- From `xmit_file` to the file that the receiver writes, out of source and repair packets: any of them,
-- as long as the symbols that arrive suffice to decode.
use rq_route_demo.Base.{
  ℕ, zero, suc, length-take, drop, ◌/◌, ◌+◌, ◌-◌, ◌*◌, ◌^◌, ◌≤◌, ◌<◌, ◌≡◌, refl, ap, ap₂, subst,
  sym, ◌∙◌, arith, true, List, [], append-nil, length, length-slice, take, take-append, replicate,
  slice, Every, Has, Every-append, Every-Has, Every-imp, some, ok, ℤ, pos, pos_part,
}
use rq_route_demo.Memory.{Malloc}
use rq_route_demo.Packet.{Packet}
use rq_route_demo.Params.Exact.{symbols, max_file}
use rq_route_demo.CodeBlock.Add.{length-used}
use rq_route_demo.CodeBlock.Codec.{Codec, CodecSizes}
use rq_route_demo.CodeBlock.Erasure.{ids_from, AreSymbols, ErasureCode, Runs, ids_from-get}
use rq_route_demo.CodeBlock.Data.Reconstruct.{AreOf}
use rq_route_demo.CodeBlock.Received.{ids, received, used, pad, length-entries}
use rq_route_demo.Segment.State.{init-IsNew}
use rq_route_demo.Segment.Drain.{Accepts, drain}
use rq_route_demo.Segment.Whole.{IsEnough, drain-decoded}
use rq_route_demo.Segment.Packet.{carried}
use rq_route_demo.Sender.{low_16, xmit_file}
use rq_route_demo.Sender.Blocks.{Works, Encoded}
use rq_route_demo.Sender.Encoded.{Encoded-AreSymbols}
use rq_route_demo.Sender.Packets.{
  source_packet, source_packets, repair_packet, repair_packets, packets,
}
use rq_route_demo.Sender.Padding.{padded, pad-slice, length-padded}
use rq_route_demo.Sender.Transmit.{xmit_file-Encoded}
use rq_route_demo.Transfer.Receives.{Receives-new}
use rq_route_demo.Transfer.Arrival.{arrive, arrive-AreOf, IsPacket, deliver-arrive}
use rq_route_demo.Transfer.RoundTrip.{Recovers}

-- A packet of the file that carries the symbol it should.
abbrev Carries : (ℕ → List ℕ) → ℕ → List ℕ → Packet → Type 0
Carries symbol file_nbr file p =
    IsPacket file_nbr file p × (pad 1024 p.1 ≡ symbol (carried (symbols (length file)) p.0))

module _ {C : Type 0} (rq : Codec C) (code : ErasureCode rq) (file_nbr : ℕ) (file : List ℕ)
    (small : length file ≤ max_file) where
  abbrev symbol_of : ℕ → List ℕ
  symbol_of = code.symbol (symbols (length file)) 1024 (padded file)

  source_packet-Carries :
      (j : ℕ)
      → j < symbols (length file)
      → Carries symbol_of file_nbr file (source_packet file_nbr file j)
  source_packet-Carries j lt =
      let k = symbols (length file) in
      let j_th : j * 1024 / 1024 ≡ j = omega arith in
      (
        record {
          same_file = refl;
          same_size = refl;
          id_small = omega arith;
          one_symbol = omega (arith, length-take 1024 (drop (j * 1024) file));
        },
        pad-slice file (j * 1024) 1024 (k * 1024 - length file) (omega arith)
            ∙ sym (code.systematic k 1024 (padded file) j (length-padded file) lt)
            ∙ ap symbol_of (sym j_th),
      )

  source_packets-Carries :
      (n j : ℕ)
      → j + n ≤ symbols (length file)
      → Every (Carries symbol_of file_nbr file) (source_packets file_nbr file n j)
  source_packets-Carries zero j h = tt
  source_packets-Carries (suc n) j h =
      (source_packet-Carries j (omega arith), source_packets-Carries n (j + 1) (omega arith))

  module _ (e : ℕ) (repairs : List ℕ)
      (are : AreSymbols symbol_of 1024 (ids_from (symbols (length file)) e) repairs)
      (few : e * 1024 < 2 ^ 31) (sized : e * 1024 ≤ length repairs) where
    repair_packet-Carries :
        (j : ℕ)
        → j < e
        → Carries symbol_of file_nbr file (repair_packet file_nbr (length file) repairs j)
    repair_packet-Carries j lt =
        let k = symbols (length file) in
        let j_th : j * 1024 / 1024 ≡ j = omega arith in
        let whole : length (slice repairs (j * 1024) 1024) ≡ 1024 =
          length-slice repairs (j * 1024) 1024 (omega arith) in
        (
          record {
            same_file = refl;
            same_size = refl;
            id_small = omega arith;
            one_symbol = omega (arith, whole);
          },
          rw whole (append-nil (slice repairs (j * 1024) 1024))
              ∙ are j (k + j) (ids_from-get e k j lt)
              ∙ ap (λ i. symbol_of (k + i)) (sym j_th),
        )

    repair_packets-Carries :
        (n j : ℕ)
        → j + n ≤ e
        → Every
            (Carries symbol_of file_nbr file)
            (repair_packets file_nbr (length file) repairs n j)
    repair_packets-Carries zero j h = tt
    repair_packets-Carries (suc n) j h =
        (repair_packet-Carries j (omega arith), repair_packets-Carries n (j + 1) (omega arith))

  module _ (runs : Runs rq) where
    packets-Carries :
        {e : ℕ} {c : C} (repairs : List ℕ)
        → 0 < length file
        → e * 1024 < 2 ^ 31
        → (0 < e → Encoded rq c e file repairs)
        → Every (Carries symbol_of file_nbr file) (packets e file_nbr file repairs)
    packets-Carries {e = zero} repairs some_bytes few encoded =
        Every-append (Carries symbol_of file_nbr file)
          (source_packets file_nbr file (symbols (length file)) 0) []
          (source_packets-Carries (symbols (length file)) 0 (omega arith)) tt
    packets-Carries {e = suc e} {c = c} repairs some_bytes few encoded =
        let q = encoded (omega arith) in
        let are : AreSymbols symbol_of 1024 (ids_from (symbols (length file)) (suc e)) repairs =
          Encoded-AreSymbols rq code runs file repairs some_bytes q in
        let as_block = ap length q.made ∙ runs.out_sized _ 1024 q.block in
        let sized : suc e * 1024 ≤ length repairs = omega (arith, as_block, q.room) in
        Every-append (Carries symbol_of file_nbr file)
          (source_packets file_nbr file (symbols (length file)) 0)
          (repair_packets file_nbr (length file) repairs (suc e) 0)
          (source_packets-Carries (symbols (length file)) 0 (omega arith))
          (repair_packets-Carries (suc e) repairs are few sized (suc e) 0 (omega arith))

    -- Packets of the file that arrive, and suffice to decode.
    deliver-decodes :
        (heap : Malloc) (fd : ℕ) (sinks : ℕ → ℕ → ℤ) (c : C) (ps : List Packet)
        → 0 < length file
        → Accepts sinks
        → Every (Carries symbol_of file_nbr file) ps
        → symbols (length file) ≤ length (arrive (symbols (length file)) [] ps)
        → ((m : C)
            → (code.view m).given
              ≡ (symbols (length file), ids (arrive (symbols (length file)) [] ps))
            → (rq.inter_compile m).0 ≡ pos 0)
        → Recovers rq heap file_nbr file fd sinks c ps
    deliver-decodes heap fd sinks c ps some_bytes accepts carry enough suffices =
        let k = symbols (length file) in
        let (s, made, w) = init-IsNew heap (low_16 file_nbr) (length file) some_bytes small in
        let (v, empty) = Receives-new file_nbr file w in
        let (s', taken, v', held) = deliver-arrive file_nbr file ps v (
          Every-imp (Carries symbol_of file_nbr file) (IsPacket file_nbr file) ps (λ p h. h.0)
            carry) in
        let b = v'.valid.block in
        let all : received v'.valid.block ≡ arrive k [] ps = held ∙ ap (λ l. arrive k l ps) empty in
        let size : k ≡ symbols s'.file_len = ap symbols (sym v'.sized) in
        let whole : IsEnough rq heap code v'.valid (padded file) = record {
          padded = length-padded file ∙ ap (λ n. n * 1024) size;
          enough = omega (
            arith,
            enough,
            size,
            ap length all,
            length-entries b.t b.syms_buf 0 (used b),
            length-used v'.valid.block_valid,
          );
          are =
              subst (λ n. AreOf (code.symbol n 1024 (padded file)) (received b)) size
                (subst (AreOf symbol_of) (sym all) (
                  arrive-AreOf symbol_of k ps [] tt (
                    Every-imp (Carries symbol_of file_nbr file)
                      (λ p. pad 1024 p.1 ≡ symbol_of (carried k p.0)) ps (λ p h. h.1) carry)));
        } in
        let (s₁, c', prepared, written) =
          drain-decoded rq heap code runs v'.valid (padded file) fd sinks c whole
            (λ m g. suffices m (g ∙ ap₂ (λ n l. (n, ids l)) (sym size) all)) v'.closed accepts in
        record {
          new = s;
          sets_up = made;
          got = s';
          takes = taken;
          loaded = s₁;
          mem = c';
          prepares = prepared;
          writes =
              subst (λ n. drain rq n s₁ sinks c' ≡ ok (take n (padded file))) v'.sized written
              ∙ ap ok (take-append file (replicate (k * 1024 - length file) 0));
        }

module _ {C : Type 0} (rq : Codec C) (code : ErasureCode rq) (runs : Runs rq) (heap : Malloc)
    (sizes : CodecSizes) (w : Works rq sizes) where
  -- The round trip through the erasure code. For a file of 1 to 51200000 bytes that `xmit_file` sent
  -- without an error, while no call of the library failed and the repair symbols asked for fit in an `int`
  -- of bytes: a receiver that gets packets out of those sent, source and repair packets in any order,
  -- repeated or lost, writes exactly the file, if at least as many symbols arrived as the file has
  -- source symbols, their identifiers suffice to decode, and each `write` takes at least one byte.
  pub xmit_file-Decodes :
      (extra : ℕ → ℤ) (file_nbr : ℕ) (file : List ℕ) (c : C) {sent : List Packet} {c' : C}
      (ps : List Packet) (fd : ℕ) (sinks : ℕ → ℕ → ℤ) (d : C)
      → 0 < length file
      → length file ≤ max_file
      → pos_part (extra (symbols (length file))) * 1024 < 2 ^ 31
      → xmit_file rq heap sizes extra file_nbr
          (record { opened = some file; seeks = true; tells = true; reopened = some file })
          c
        ≡ ok (true, sent, c')
      → Every (λ p. Has p sent) ps
      → symbols (length file) ≤ length (arrive (symbols (length file)) [] ps)
      → ((m : C)
          → (code.view m).given
            ≡ (symbols (length file), ids (arrive (symbols (length file)) [] ps))
          → (rq.inter_compile m).0 ≡ pos 0)
      → Accepts sinks
      → Recovers rq heap file_nbr file fd sinks d ps
  xmit_file-Decodes extra file_nbr file c {sent} {c'} ps fd sinks d some_bytes small few runs_ok
        of_sent enough suffices accepts =
      let (repairs, c₁, sends, encoded) =
        xmit_file-Encoded rq heap sizes w extra file_nbr file c some_bytes small few in
      let same : sent ≡ packets (pos_part (extra (symbols (length file)))) file_nbr file repairs =
        cc in
      let Of : Packet → Type 0 =
        Carries (code.symbol (symbols (length file)) 1024 (padded file)) file_nbr file in
      let carry : Every Of sent =
        subst (Every Of) (sym same)
          (packets-Carries rq code file_nbr file small runs repairs some_bytes few encoded) in
      deliver-decodes rq code file_nbr file small runs heap fd sinks d ps some_bytes accepts
        (Every-imp (λ p. Has p sent) Of ps (λ p h. Every-Has Of p sent carry h) of_sent) enough
        suffices
