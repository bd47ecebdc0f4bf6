-- ===== src/Segment/Whole.antt =====
-- A file from its packets to its bytes: `segstate_prepare_output`, then `segstate_write_more` until it
-- returns false, when all source symbols were received.
use rq_route_demo.Base.{
  ℕ, zero, suc, [], ◌∷◌, ◌-◌, ◌*◌, ◌≤◌, ◌≡◌, refl, ap, ap₂, sym, subst, subst₂, pos, Bool, ◌∙◌,
  arith, List, length, take, slice, ok, none, ℤ,
}
use rq_route_demo.Memory.{Malloc}
use rq_route_demo.Params.Exact.{symbols}
use rq_route_demo.CodeBlock.Codec.{Codec}
use rq_route_demo.CodeBlock.Received.{received, ids, used, ids-entries}
use rq_route_demo.CodeBlock.Erasure.{ErasureCode, Runs, Symbols}
use rq_route_demo.CodeBlock.Data.{get_data}
use rq_route_demo.CodeBlock.Data.Reconstruct.{AreOf}
use rq_route_demo.CodeBlock.Data.Decode.{get_data_decodes}
use rq_route_demo.CodeBlock.Data.Recover.{IsPartOf, get_data_complete}
use rq_route_demo.Segment.{SegState, prepare_output}
use rq_route_demo.Segment.State.{IsValid}
use rq_route_demo.Segment.Drain.{Accepts, drain, drain_lem, prepare_output-IsWriting}

-- All symbols of the file `src`, padded to whole symbols, are in its code block.
pub record IsComplete {s : SegState} (v : IsValid s) (src : List ℕ) : Type 0 where
  pub padded : length src ≡ symbols s.file_len * 1024
  pub all_counted : symbols s.file_len ≤ v.block.n_src_esi
  pub parts : IsPartOf src (symbols s.file_len) 1024 (received v.block)

-- The first bytes of a list are those of its first part.
take-take : (xs : List ℕ) (n f : ℕ) → f ≤ n → take f xs ≡ take f (take n xs)
take-take xs n zero h = refl
take-take [] zero (suc f) h = refl
take-take [] (suc n) (suc f) h = refl
take-take (x ∷ xs) zero (suc f) h = absurd (omega arith)
take-take (x ∷ xs) (suc n) (suc f) h = ap (λ l. x ∷ l) (take-take xs n f (omega arith))

module _ {C : Type 0} (rq : Codec C) (heap : Malloc) where
  -- A file whose block `codeblockstate_get_data` gives is written, without the padding.
  drain_data :
      {s : SegState} (v : IsValid s) (src : List ℕ) (fd : ℕ) (sinks : ℕ → ℕ → ℤ) (c : C)
      {result : Bool} {buf : List ℕ} {c' : C}
      → s.out_fd ≡ none
      → Accepts sinks
      → get_data rq v.block (heap.block (1024 * symbols s.file_len)) c ≡ ok (result, buf, c')
      → take (symbols s.file_len * 1024) buf ≡ src
      → (s' : SegState) × (prepare_output rq heap s fd c ≡ ok (s', c'))
        × (drain rq s.file_len s' sinks c' ≡ ok (take s.file_len src))
  drain_data {s} v src fd sinks c {result} {buf} {c'} closed accepts got same =
      let (s', prepared, w) = prepare_output-IsWriting rq heap v fd c closed got in
      (
        s',
        prepared,
        drain_lem rq s.file_len w sinks c' accepts (omega arith)
            ∙ ap ok (
                rest_is_all s.file_len buf
                ∙ take-take buf (symbols s.file_len * 1024) s.file_len (omega arith)
                ∙ ap (take s.file_len) same),
      )
    where
      rest_is_all : (f : ℕ) (buf : List ℕ) → slice buf 0 (f - 0) ≡ take f buf
      rest_is_all f buf = ap (λ k. take k buf) (omega arith)

  -- The bytes of the source block of a valid file.
  block_bytes : {s : SegState} (v : IsValid s) → v.block.k * v.block.t ≡ symbols s.file_len * 1024
  block_bytes v = rw (v.block_k, v.block_t) refl

  -- A file all of whose source symbols were received is written: the output is prepared without a
  -- fault, and as many calls of `segstate_write_more` as the file has bytes write the file, without
  -- the padding, however the calls of `write` divide it, if each takes at least one byte.
  pub drain-prepare_output :
      {s : SegState} (v : IsValid s) (src : List ℕ) (fd : ℕ) (sinks : ℕ → ℕ → ℤ) (c : C)
      → IsComplete v src
      → s.out_fd ≡ none
      → Accepts sinks
      → (s' : SegState) × (prepare_output rq heap s fd c ≡ ok (s', c))
        × (drain rq s.file_len s' sinks c ≡ ok (take s.file_len src))
  drain-prepare_output {s} v src fd sinks c whole closed accepts =
      let n = symbols s.file_len in
      let bytes = block_bytes v in
      let (buf, copied, same) =
        get_data_complete rq v.block_valid (heap.block (1024 * n)) c
          (rw bytes (omega (arith, heap.length-block (1024 * n)))) src
          (rw v.block_k whole.all_counted) (whole.padded ∙ sym bytes)
          (subst₂ (λ k t. IsPartOf src k t (received v.block)) (sym v.block_k) (sym v.block_t)
            whole.parts) in
      drain_data v src fd sinks c closed accepts copied (subst (λ m. take m buf ≡ src) bytes same)

  -- As many symbols of the file `src`, padded to whole symbols, are in its code block as that has source
  -- symbols or more.
  pub record IsEnough (code : ErasureCode rq) {s : SegState} (v : IsValid s) (src : List ℕ)
      : Type 0 where
    pub padded : length src ≡ symbols s.file_len * 1024
    pub enough : symbols s.file_len ≤ v.block.n_esi
    pub are : AreOf (code.symbol (symbols s.file_len) 1024 src) (received v.block)

  -- A file of which that many symbols were received, of any kind, is written in the same way, when no
  -- call of the library fails and the identifiers held suffice to decode.
  pub drain-decoded :
      (code : ErasureCode rq) (runs : Runs rq) {s : SegState} (v : IsValid s) (src : List ℕ)
      (fd : ℕ) (sinks : ℕ → ℕ → ℤ) (c : C)
      → IsEnough code v src
      → ((m : C)
          → (code.view m).given ≡ (symbols s.file_len, ids (received v.block))
          → (rq.inter_compile m).0 ≡ pos 0)
      → s.out_fd ≡ none
      → Accepts sinks
      → (s' : SegState) × (c' : C) × (prepare_output rq heap s fd c ≡ ok (s', c'))
        × (drain rq s.file_len s' sinks c' ≡ ok (take s.file_len src))
  drain-decoded code runs {s} v src fd sinks c whole suffices closed accepts =
      let n = symbols s.file_len in
      let b = v.block in
      let bytes = block_bytes v in
      let given : Symbols = (n, ids (received b)) in
      let own : Symbols = (b.k, used b) in
      let held : given ≡ own =
        ap₂ (λ k l. (k, l)) (sym v.block_k) (ids-entries b.t b.syms_buf 0 (used b)) in
      let (buf, c', decoded, same) =
        get_data_decodes rq code runs v.block_valid (heap.block (1024 * n)) c
          (rw bytes (omega (arith, heap.length-block (1024 * n)))) src
          (omega (arith, v.block_k, v.some_bytes)) (rw v.block_k whole.enough)
          (whole.padded ∙ sym bytes)
          (subst₂ (λ k t. AreOf (code.symbol k t src) (received b)) (sym v.block_k) (sym v.block_t)
            whole.are)
          (λ m g. suffices m (g ∙ sym held)) in
      let (s', prepared, written) =
        drain_data v src fd sinks c closed accepts decoded
          (subst (λ m. take m buf ≡ src) bytes same) in
      (s', c', prepared, written)
