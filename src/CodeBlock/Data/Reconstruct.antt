-- ===== src/CodeBlock/Data/Reconstruct.antt =====
-- The branch of `codeblockstate_get_data` that decodes, call by call.
use rq_route_demo.Base.{
  ℕ, zero, suc, ◌+◌, ◌-◌, ◌*◌, ◌≤◌, ◌<◌, ◌≡◌, ◌≢◌, refl, ap, subst, sym, ◌∙◌, arith, true, false,
  List, [], ◌∷◌, ◌++◌, append-nil, append_assoc, length, get_elem?, some, take, ok, Run, slice,
  take_of_slices, take_all, ℤ, pos, negsuc, eqb_ℤ, ◌>>=◌, Every,
}
use rq_route_demo.CodeBlock.{CodeBlockState}
use rq_route_demo.CodeBlock.Codec.{Codec}
use rq_route_demo.CodeBlock.Erasure.{
  IsCode, ids_from, AreSymbols, ErasureCode, Runs, ids_from-get, length-ids_from,
}
use rq_route_demo.CodeBlock.Received.{Symbol, received, used, entries}
use rq_route_demo.CodeBlock.Data.{
  copy_source_syms, Outcome, run_nofail, add_ids, reconstruct, after_compile, decode,
}

-- Each symbol held is the one that the code assigns to its identifier.
abbrev pub AreOf : (ℕ → List ℕ) → List Symbol → Type 0
AreOf symbol l = Every (λ s. s.1 ≡ symbol s.0) l

-- The symbols held stand in the buffer in the order of their identifiers.
entries-AreSymbols :
    (symbol : ℕ → List ℕ) (t : ℕ) (buf : List ℕ) (j : ℕ) (es : List ℕ)
    → AreOf symbol (entries t buf j es)
    → (i id : ℕ) → get_elem? es i ≡ some id
    → slice buf ((j + i) * t) t ≡ symbol id
entries-AreSymbols symbol t buf j [] h i id e = cc
entries-AreSymbols symbol t buf j (x ∷ es) (h, hs) zero id e =
    let place : (j + 0) * t ≡ t * j = omega arith in
    let same : x ≡ id = cc in rw place (h ∙ ap symbol same)
entries-AreSymbols symbol t buf j (x ∷ es) (h, hs) (suc i) id e =
    let place : j + suc i ≡ j + 1 + i = omega arith in
    rw place (entries-AreSymbols symbol t buf (j + 1) es hs i id e)

-- The symbols of a source block, written one after the other.
pub AreSymbols-source :
    (symbol : ℕ → List ℕ) (t k : ℕ) (out src : List ℕ)
    → AreSymbols symbol t (ids_from 0 k) out
    → ((id : ℕ) → id < k → symbol id ≡ slice src (id * t) t)
    → length src ≡ k * t
    → take (k * t) out ≡ src
AreSymbols-source symbol t k out src are of_src sized =
    take_of_slices out src k t
      (λ i lt. are i i (ids_from-get k 0 i lt ∙ ap some (omega arith)) ∙ of_src i lt)
    ∙ take_all src (k * t) (omega arith)

module _ {C : Type 0} (rq : Codec C) where
  run_nofail-IsCode :
      (r : ℤ × C) (data_out : List ℕ) (rest : C → Run (Outcome rq))
      → IsCode r.0
      → run_nofail rq r data_out rest ≡ rest r.1
  run_nofail-IsCode (rc, c) data_out rest (n, e) = rw e

  module _ (code : ErasureCode rq) (runs : Runs rq) where
    -- The identifiers of the symbols received are given one by one.
    add_ids_lem :
        (es : List ℕ) (c : C) (data_out : List ℕ) (rest : C → Run (Outcome rq)) (k : ℕ)
        (before : List ℕ)
        → (code.view c).given ≡ (k, before)
        → (c' : C) × (add_ids rq es c data_out rest ≡ rest c')
          × ((code.view c').given ≡ (k, before ++ es))
    unfolding add_ids
    add_ids_lem [] c data_out rest k before g =
        (c, refl, g ∙ ap (λ l. (k, l)) (sym (append-nil before)))
    add_ids_lem (e ∷ es) c data_out rest k before g =
        let c₁ = (rq.inter_add_ids c e 1).1 in
        let law = code.add_law c e 1 (runs.inter_add_ids c e 1) in
        let one : (code.view c₁).given ≡ (k, before ++ e ∷ []) =
          ap (λ v. v.given) law ∙ ap (λ s. (s.0, s.1 ++ e ∷ [])) g in
        let (c', adds, all) = add_ids_lem es c₁ data_out rest k (before ++ e ∷ []) one in
        (
          c',
          run_nofail-IsCode (rq.inter_add_ids c e 1) data_out _ (runs.inter_add_ids c e 1) ∙ adds,
          all ∙ ap (λ l. (k, l)) (append_assoc before (e ∷ []) es),
        )

    -- From the intermediate symbols to the source block.
    reconstruct_lem :
        (s : CodeBlockState) (data_out : List ℕ) (c : C) (src : List ℕ)
        → (code.view c).block ≡ (s.k, s.t, src)
        → length src ≡ s.k * s.t
        → s.k * s.t ≤ length data_out
        → (out' : List ℕ) × (c' : C) × (reconstruct rq s data_out c ≡ ok (true, out', c'))
          × (length out' ≡ length data_out)
          × (take (s.k * s.t) out' ≡ src)
    unfolding reconstruct
    reconstruct_lem s data_out c src block sized room =
        let c₁ = (rq.out_init c s.k).1 in
        let c₂ = (rq.out_add_ids c₁ 0 s.k).1 in
        let c₃ = (rq.out_compile c₂).1 in
        let (rc, out', c₄) = rq.out_execute c₃ s.t data_out in
        let law₁ = code.out_init_law c s.k (runs.out_init c s.k) in
        let law₂ = code.out_add_law c₁ 0 s.k (runs.out_add_ids c₁ 0 s.k) in
        let law₃ = code.out_compile_law c₂ (runs.out_compile c₂) in
        let given : (code.view c₂).out_given ≡ (s.k, ids_from 0 s.k) =
          ap (λ v. v.out_given) law₂
          ∙ ap (λ v. (v.out_given.0, v.out_given.1 ++ ids_from 0 s.k)) law₁ in
        let program : (code.view c₃).out_program ≡ (s.k, ids_from 0 s.k) =
          ap (λ v. v.out_program) law₃ ∙ given in
        let block₃ : (code.view c₃).block ≡ (s.k, s.t, src) =
          ap (λ v. v.block) law₃ ∙ ap (λ v. v.block) law₂ ∙ ap (λ v. v.block) law₁ ∙ block in
        let are =
          code.out_execute_law c₃ s.t data_out s.k (ids_from 0 s.k) src program block₃
            (rw (length-ids_from 0 s.k) room) (runs.out_execute c₃ s.t data_out) in
        (
          out',
          c₄,
          run_nofail-IsCode (rq.out_init c s.k) data_out _ (runs.out_init c s.k)
              ∙ run_nofail-IsCode (rq.out_add_ids c₁ 0 s.k) data_out _ (runs.out_add_ids c₁ 0 s.k)
              ∙ run_nofail-IsCode (rq.out_compile c₂) data_out _ (runs.out_compile c₂)
              ∙ run_nofail-IsCode (rc, c₄) out' (λ c₅. ok (true, out', c₅))
                  (runs.out_execute c₃ s.t data_out),
          runs.out_sized c₃ s.t data_out,
          AreSymbols-source (code.symbol s.k s.t src) s.t s.k out' src are
              (λ id lt. code.systematic s.k s.t src id sized lt) sized,
        )

    -- `RqInterCompile` returned 0.
    after_compile-done :
        (s : CodeBlockState) (data_out : List ℕ) (r : ℤ × C)
        → r.0 ≡ pos 0
        → after_compile rq s data_out r
          ≡ run_nofail rq (rq.inter_execute r.1 s.t s.syms_buf) data_out (reconstruct rq s data_out)
    unfolding after_compile
    after_compile-done s data_out (rc, c) e =
        let success : eqb_ℤ (pos 0) rq.insuff_ids ≡ false =
          not_insuff rq.insuff_ids code.not_success in
        rw (e, success) refl
      where
        not_insuff : (z : ℤ) → z ≢ pos 0 → eqb_ℤ (pos 0) z ≡ false
        not_insuff (pos zero) h = absurd (h refl)
        not_insuff (pos (suc n)) h = ground arith
        not_insuff (negsuc n) h = ground arith

    -- `RqInterCompile` found the identifiers insufficient.
    pub after_compile-insufficient :
        (s : CodeBlockState) (data_out : List ℕ) (r : ℤ × C)
        → r.0 ≡ rq.insuff_ids
        → after_compile rq s data_out r
          ≡ (copy_source_syms s data_out >>= λ copied. ok (false, copied, r.1))
    unfolding after_compile
    after_compile-insufficient s data_out (rc, c) e = rw (e, same rq.insuff_ids) refl
      where
        same : (z : ℤ) → eqb_ℤ z z ≡ true
        same (pos n) = ground arith
        same (negsuc n) = ground arith

    after_compile_lem :
        (s : CodeBlockState) (data_out : List ℕ) (c : C) (src : List ℕ)
        → 0 < s.k
        → length src ≡ s.k * s.t
        → s.k * s.t ≤ length data_out
        → AreOf (code.symbol s.k s.t src) (received s)
        → (code.view c).given ≡ (s.k, used s)
        → (rq.inter_compile c).0 ≡ pos 0
        → (out' : List ℕ) × (c' : C) × (after_compile rq s data_out (rq.inter_compile c)
            ≡ ok (true, out', c'))
          × (length out' ≡ length data_out)
          × (take (s.k * s.t) out' ≡ src)
    after_compile_lem s data_out c src some_symbols sized room are given done =
        let c₁ = (rq.inter_compile c).1 in
        let c₂ = (rq.inter_execute c₁ s.t s.syms_buf).1 in
        let program : (code.view c₁).program ≡ (s.k, used s) =
          ap (λ v. v.program) (code.compile_law c done) ∙ given in
        let symbols : AreSymbols (code.symbol s.k s.t src) s.t (used s) s.syms_buf = λ i id e.
          subst (λ m. slice s.syms_buf (m * s.t) s.t ≡ code.symbol s.k s.t src id) (omega arith)
            (entries-AreSymbols (code.symbol s.k s.t src) s.t s.syms_buf 0 (used s) are i id e) in
        let block : (code.view c₂).block ≡ (s.k, s.t, src) =
          ap (λ v. v.block)
            (code.execute_law c₁ s.t s.syms_buf s.k (used s) src program some_symbols sized symbols
              (runs.inter_execute c₁ s.t s.syms_buf)) in
        let (out', c', ends, kept, is) = reconstruct_lem s data_out c₂ src block sized room in
        (
          out',
          c',
          after_compile-done s data_out (rq.inter_compile c) done
              ∙ run_nofail-IsCode (rq.inter_execute c₁ s.t s.syms_buf) data_out _
                  (runs.inter_execute c₁ s.t s.syms_buf)
              ∙ ends,
          kept,
          is,
        )

    -- The branch that decodes, up to `RqInterCompile`: the identifiers of the symbols held are given.
    pub decode_given :
        (s : CodeBlockState) (data_out : List ℕ) (c : C)
        → (m : C) × (decode rq s data_out c ≡ after_compile rq s data_out (rq.inter_compile m))
          × ((code.view m).given ≡ (s.k, used s))
    unfolding decode
    decode_given s data_out c =
        let n = s.n_esi - s.k in
        let c₁ = (rq.include_case c s.k n s.k s.t).1 in
        let c₂ = (rq.inter_init c₁ s.k n).1 in
        let given : (code.view c₂).given ≡ (s.k, []) =
          ap (λ v. v.given) (code.init_law c₁ s.k n (runs.inter_init c₁ s.k n)) in
        let (m, adds, all) =
          add_ids_lem (used s) c₂ data_out (λ c₃. after_compile rq s data_out (rq.inter_compile c₃))
            s.k [] given in
        (
          m,
          run_nofail-IsCode (rq.include_case c s.k n s.k s.t) data_out _
                (runs.include_case c s.k n s.k s.t)
              ∙ run_nofail-IsCode (rq.inter_init c₁ s.k n) data_out _ (runs.inter_init c₁ s.k n)
              ∙ adds,
          all,
        )

    -- The branch that decodes, for symbols that are those of a source block, when their identifiers
    -- suffice.
    pub decode_lem :
        (s : CodeBlockState) (data_out : List ℕ) (c : C) (src : List ℕ)
        → 0 < s.k
        → length src ≡ s.k * s.t
        → s.k * s.t ≤ length data_out
        → AreOf (code.symbol s.k s.t src) (received s)
        → ((m : C) → (code.view m).given ≡ (s.k, used s) → (rq.inter_compile m).0 ≡ pos 0)
        → (out' : List ℕ) × (c' : C) × (decode rq s data_out c ≡ ok (true, out', c'))
          × (length out' ≡ length data_out)
          × (take (s.k * s.t) out' ≡ src)
    decode_lem s data_out c src some_symbols sized room are suffices =
        let (m, decodes, given) = decode_given s data_out c in
        let (out', c', ends, kept, is) =
          after_compile_lem s data_out m src some_symbols sized room are given (suffices m given) in
        (out', c', decodes ∙ ends, kept, is)
