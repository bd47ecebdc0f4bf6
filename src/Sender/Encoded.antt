-- ===== src/Sender/Encoded.antt =====
-- What the repair symbols of `xmit_file` are, when the RaptorQ library is a systematic erasure code.
use rq_route_demo.Base.{
  ℕ, ◌+◌, ◌*◌, ◌≤◌, ◌<◌, ◌≡◌, ap, sym, subst, ◌∙◌, arith, List, ◌++◌, length, take, slice, some, ℤ,
  pos, pos_part, ok, true, ◌^◌,
}
use rq_route_demo.Params.Exact.{symbols, max_file}
use rq_route_demo.CodeBlock.Codec.{Codec, CodecSizes}
use rq_route_demo.CodeBlock.Erasure.{
  ids_from, AreSymbols, ErasureCode, Runs, length-ids_from, get-ids_from, ids_from-get,
}
use rq_route_demo.Sender.Blocks.{Works, sources_given, generated, Encoded}
use rq_route_demo.Sender.Transmit.{xmit_file-Encoded}
use rq_route_demo.Sender.{xmit_file}
use rq_route_demo.Memory.{Malloc}
use rq_route_demo.Sender.Packets.{packets, repair_packet, slice-take}
use rq_route_demo.Sender.Padding.{padded, length-padded}

module _ {C : Type 0} (rq : Codec C) (code : ErasureCode rq) (runs : Runs rq) where
  sources_given-given :
      (k : ℕ) (c : C) → (code.view (sources_given rq k c)).given ≡ (k, ids_from 0 k)
  sources_given-given k c =
      let c₁ = (rq.inter_init c k 0).1 in
      ap (λ v. v.given) (code.add_law c₁ 0 k (runs.inter_add_ids c₁ 0 k))
      ∙ ap (λ v. (v.given.0, v.given.1 ++ ids_from 0 k))
          (code.init_law c k 0 (runs.inter_init c k 0))

  -- `RqInterCompile` returns 0 for all source symbols.
  pub sources-compile : (k : ℕ) (c : C) → (rq.inter_compile (sources_given rq k c)).0 ≡ pos 0
  sources-compile k c = code.sources_suffice (sources_given rq k c) k (sources_given-given k c)

  generated-programs :
      (k e : ℕ) (c : C)
      → ((code.view (generated rq k e c)).program ≡ (k, ids_from 0 k))
        × ((code.view (generated rq k e c)).out_program ≡ (k, ids_from k e))
  generated-programs k e c =
      let c₂ = sources_given rq k c in
      let c₃ = (rq.inter_compile c₂).1 in
      let c₄ = (rq.out_init c₃ k).1 in
      let c₅ = (rq.out_add_ids c₄ k e).1 in
      let law₃ = code.compile_law c₂ (sources-compile k c) in
      let law₄ = code.out_init_law c₃ k (runs.out_init c₃ k) in
      let law₅ = code.out_add_law c₄ k e (runs.out_add_ids c₄ k e) in
      let law₆ = code.out_compile_law c₅ (runs.out_compile c₅) in
      (
        ap (λ v. v.program) law₆
            ∙ ap (λ v. v.program) law₅
            ∙ ap (λ v. v.program) law₄
            ∙ ap (λ v. v.program) law₃
            ∙ sources_given-given k c,
        ap (λ v. v.out_program) law₆
            ∙ ap (λ v. v.out_given) law₅
            ∙ ap (λ v. (v.out_given.0, v.out_given.1 ++ ids_from k e)) law₄,
      )

  -- The symbols that the encoder makes of `src` at the beginning of a block of memory.
  pub encodes :
      (k t e : ℕ) (c : C) (block src : List ℕ)
      → 0 < k
      → length src ≡ k * t
      → take (k * t) block ≡ src
      → e * t ≤ length block
      → AreSymbols
          (code.symbol k t src)
          t
          (ids_from k e)
          (rq.out_execute (rq.inter_execute (generated rq k e c) t block).1 t block).1
  encodes k t e c block src some_symbols sized begins room =
      let c₁ = generated rq k e c in
      let c₂ = (rq.inter_execute c₁ t block).1 in
      let (program, out_program) = generated-programs k e c in
      let in_place : AreSymbols (code.symbol k t src) t (ids_from 0 k) block =
        λ i id h. let (is, lt) = get-ids_from k 0 i id h in source_at i id lt is in
      let law =
        code.execute_law c₁ t block k (ids_from 0 k) src program some_symbols sized in_place
          (runs.inter_execute c₁ t block) in
      code.out_execute_law c₂ t block k (ids_from k e) src
        (ap (λ v. v.out_program) law ∙ out_program) (ap (λ v. v.block) law)
        (rw (length-ids_from k e) room) (runs.out_execute c₂ t block)
    where
      source_at : (i id : ℕ) → i < k → id ≡ 0 + i → slice block (i * t) t ≡ code.symbol k t src id
      source_at i id lt is =
          let same : id ≡ i = omega arith in
          let inside : i * t + t ≤ k * t = grind arith in
          rw same (
            sym (slice-take block (k * t) (i * t) t inside)
            ∙ ap (λ l. slice l (i * t) t) begins
            ∙ sym (code.systematic k t src i sized lt))

  -- The repair symbols of `xmit_file` are those of the file, filled up with zeros, with the identifiers
  -- behind its source symbols.
  pub Encoded-AreSymbols :
      {c : C} {e : ℕ} (file repairs : List ℕ)
      → 0 < length file
      → Encoded rq c e file repairs
      → AreSymbols
          (code.symbol (symbols (length file)) 1024 (padded file))
          1024
          (ids_from (symbols (length file)) e)
          repairs
  Encoded-AreSymbols {c} {e} file repairs some_bytes q =
      let k = symbols (length file) in
      subst (AreSymbols (code.symbol k 1024 (padded file)) 1024 (ids_from k e)) (sym q.made) (
        encodes k 1024 e c q.block (padded file) (omega arith) (length-padded file) q.begins q.room)

module _ {C : Type 0} (rq : Codec C) (code : ErasureCode rq) (runs : Runs rq) (heap : Malloc)
    (sizes : CodecSizes) (w : Works rq sizes) where
  -- For a file of 1 to 51200000 bytes that is read without an error, when no call of the library fails, the
  -- library is a systematic erasure code, and the repair symbols asked for fit in an `int` of bytes:
  -- `xmit_file` returns true, and has sent the source packets of the file in order, then that many
  -- repair packets, and repair packet `j` carries the symbol that the code assigns to the identifier `j`
  -- behind those of the source symbols, for the file filled up with zeros to whole symbols.
  pub xmit_file-encodes :
      (extra : ℕ → ℤ) (file_nbr : ℕ) (file : List ℕ) (c : C)
      → 0 < length file
      → length file ≤ max_file
      → pos_part (extra (symbols (length file))) * 1024 < 2 ^ 31
      → (repairs : List ℕ) × (c' : C) × (xmit_file rq heap sizes extra file_nbr
            (record { opened = some file; seeks = true; tells = true; reopened = some file })
            c
          ≡ ok (true, packets (pos_part (extra (symbols (length file)))) file_nbr file repairs, c'))
        × ((j : ℕ)
            → j < pos_part (extra (symbols (length file)))
            → (repair_packet file_nbr (length file) repairs j).1
              ≡ code.symbol (symbols (length file)) 1024 (padded file) (symbols (length file) + j))
  xmit_file-encodes extra file_nbr file c some_bytes small few =
      let e = pos_part (extra (symbols (length file))) in
      let (repairs, c', sent, encoded) =
        xmit_file-Encoded rq heap sizes w extra file_nbr file c some_bytes small few in
      (
        repairs,
        c',
        sent,
        λ j lt.
            Encoded-AreSymbols rq code runs file repairs some_bytes (encoded (omega arith)) j
              (symbols (length file) + j) (ids_from-get e (symbols (length file)) j lt),
      )
