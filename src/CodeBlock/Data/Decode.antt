-- ===== src/CodeBlock/Data/Decode.antt =====
-- What `codeblockstate_get_data` returns when it decodes.
use rq_route_demo.Base.{
  ℕ, ◌*◌, ◌≤◌, ◌<◌, ◌≡◌, Bool-cases, ◌∙◌, arith, true, false, List, [], ◌∷◌, leb, length, replicate,
  take, inl, inr, ok, blit, length-blit, length-replicate, pos, >>=-ok,
}
use rq_route_demo.CodeBlock.{CodeBlockState}
use rq_route_demo.CodeBlock.Codec.{Codec}
use rq_route_demo.CodeBlock.Erasure.{ErasureCode, Runs}
use rq_route_demo.CodeBlock.Received.{Symbol, received, used}
use rq_route_demo.CodeBlock.Invariant.{IsValid}
use rq_route_demo.CodeBlock.Data.{copy_source_syms, decode, get_data}
use rq_route_demo.CodeBlock.Data.Recover.{IsPartOf, Recovered, copies_zeroed, get_data_complete}
use rq_route_demo.CodeBlock.Data.Reconstruct.{
  AreOf, decode_given, decode_lem, after_compile-insufficient,
}

module _ {C : Type 0} (rq : Codec C) (code : ErasureCode rq) (runs : Runs rq) {s : CodeBlockState}
    (v : IsValid s) (out : List ℕ) (c : C) (room : s.k * s.t ≤ length out) where
  -- On a well-formed block with as many symbols as it has source symbols or more, each the symbol that
  -- the code assigns to its identifier for the source block `src`, and an output with room: when no
  -- call of the library fails and the identifiers held suffice to decode, if not all are source
  -- symbols, `codeblockstate_get_data` returns true and the output begins with `src`.
  pub get_data_decodes :
      (src : List ℕ)
      → 0 < s.k
      → s.k ≤ s.n_esi
      → length src ≡ s.k * s.t
      → AreOf (code.symbol s.k s.t src) (received s)
      → ((m : C) → (code.view m).given ≡ (s.k, used s) → (rq.inter_compile m).0 ≡ pos 0)
      → (out' : List ℕ) × (c' : C) × (get_data rq s out c ≡ ok (true, out', c'))
        × (take (s.k * s.t) out' ≡ src)
  unfolding get_data
  get_data_decodes src some_symbols enough sized are suffices =
      elim (Bool-cases (leb s.k s.n_src_esi)) [
        | inl all ↦
            let (out', runs', is) =
              get_data_complete rq v out c room src (ground arith) sized (parts (received s) are) in
            (out', c, runs', is)
        | inr some_missing ↦
            let zeroed = blit out 0 (replicate (s.k * s.t) 0) in
            let n_zeros = length-replicate {A = ℕ} (s.k * s.t) 0 in
            let n_zeroed = length-blit out 0 (replicate (s.k * s.t) 0) in
            let (out', c', decodes, kept, is) =
              decode_lem rq code runs s zeroed c src some_symbols sized (omega (arith, n_zeroed))
                are suffices in
            (out', c', ground (arith, n_zeros, decodes), is)
      ]
    where
      parts : (l : List Symbol) → AreOf (code.symbol s.k s.t src) l → IsPartOf src s.k s.t l
      parts [] h = tt
      parts ((id, bytes) ∷ l) (h, hs) =
          ((λ lt. h ∙ code.systematic s.k s.t src id sized lt), parts l hs)

  -- On a well-formed block with as many symbols as it has source symbols or more, not all of them
  -- source symbols, and an output with room: when no call of the library fails but that
  -- `RqInterCompile` finds the identifiers insufficient, `codeblockstate_get_data` returns false, and
  -- leaves each source symbol that was received in its place and zeros for the others.
  pub get_data_insufficient :
      s.k ≤ s.n_esi
      → s.n_src_esi < s.k
      → ((m : C) → (code.view m).given ≡ (s.k, used s) → (rq.inter_compile m).0 ≡ rq.insuff_ids)
      → (out' : List ℕ) × (c' : C) × (get_data rq s out c ≡ ok (false, out', c'))
        × Recovered s out out'
  unfolding get_data
  get_data_insufficient enough some_missing fails =
      let zeroed = blit out 0 (replicate (s.k * s.t) 0) in
      let n_zeros = length-replicate {A = ℕ} (s.k * s.t) 0 in
      let (out', copies, r) = copies_zeroed rq v out c room in
      let (m, decodes, given) = decode_given rq code runs s zeroed c in
      let stops =
        after_compile-insufficient rq code runs s zeroed (rq.inter_compile m) (fails m given)
        ∙ >>=-ok (copy_source_syms s zeroed) _ out' copies in
      let ends : decode rq s zeroed c ≡ ok (false, out', (rq.inter_compile m).1) =
        decodes ∙ stops in
      (out', (rq.inter_compile m).1, ground (arith, n_zeros, ends), r)
