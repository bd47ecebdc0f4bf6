-- ===== src/CodeBlock/Data/Recover.antt =====
-- What `codeblockstate_get_data` returns when it does not attempt to decode: either all source symbols
-- are there, or fewer symbols than the block has source symbols.
use rq_route_demo.Base.{
  ℕ, ◌+◌, ◌*◌, ◌≤◌, ◌<◌, ◌≡◌, ap, ◌∙◌, arith, true, List, [], ◌∷◌, mem, leb, length, replicate,
  take, inl, ok, slice, blit, length-blit, length-replicate, slice-blit_after, slice-blit_within,
  slice-replicate, take_of_slices, take_all, ◌⊎◌,
}
use rq_route_demo.CodeBlock.{CodeBlockState}
use rq_route_demo.CodeBlock.Codec.{Codec}
use rq_route_demo.CodeBlock.Received.{Symbol, received, used, ids, ids-entries}
use rq_route_demo.CodeBlock.Invariant.{IsValid}
use rq_route_demo.CodeBlock.Data.{copy_source_syms, get_data}
use rq_route_demo.CodeBlock.Data.Copy.{copy_loop-Copies, symbol_or, mul-lt}
use rq_route_demo.CodeBlock.Sources.{all_sources}
use rq_route_demo.CodeBlock.Add.{length-used}

-- Every source symbol received is the part of `src` that it stands for.
abbrev pub IsPartOf : List ℕ → ℕ → ℕ → List Symbol → Type 0
IsPartOf src k t [] = Unit {0}
IsPartOf src k t ((id, bytes) ∷ l) = (id < k → bytes ≡ slice src (id * t) t) × IsPartOf src k t l

symbol_or-IsPartOf :
    (src : List ℕ) (k t i : ℕ) (l : List Symbol) (missing : List ℕ)
    → IsPartOf src k t l
    → i < k
    → mem i (ids l) ≡ true
    → symbol_or i l missing ≡ slice src (i * t) t
symbol_or-IsPartOf src k t i [] missing p h m = cc
symbol_or-IsPartOf src k t i ((id, bytes) ∷ l) missing p h m =
    ground (arith, p.0, symbol_or-IsPartOf src k t i l missing p.1 h)

-- The output of `codeblockstate_get_data`: source symbol `i` at its place if it was received, zeros
-- there if not, and nothing written behind the block.
pub record Recovered (s : CodeBlockState) (out out' : List ℕ) : Type 0 where
  pub sized : length out' ≡ length out
  pub symbols :
      (i : ℕ) → i < s.k → slice out' (i * s.t) s.t ≡ symbol_or i (received s) (replicate s.t 0)
  pub rest : (n : ℕ) → slice out' (s.k * s.t) n ≡ slice out (s.k * s.t) n

module _ {C : Type 0} (rq : Codec C) {s : CodeBlockState} (v : IsValid s) (out : List ℕ) (c : C)
    (room : s.k * s.t ≤ length out) where
  abbrev pub zeros : List ℕ
  zeros = replicate (s.k * s.t) 0

  pub copies_zeroed :
      (out' : List ℕ) × (copy_source_syms s (blit out 0 zeros) ≡ ok out') × Recovered s out out'
  unfolding copy_source_syms
  copies_zeroed =
      let n_zeros : length zeros ≡ s.k * s.t = length-replicate {A = ℕ} (s.k * s.t) 0 in
      let sized = length-blit out 0 zeros in
      let (out', runs, p) =
        copy_loop-Copies s (used s) 0 (blit out 0 zeros) v.no_repeat held (omega arith) in
      (
        out',
        runs,
        record {
          sized = p.sized ∙ sized;
          symbols = λ i h. p.symbols i h ∙ ap (symbol_or i (received s)) (zeros_at i h);
          rest = λ n. p.rest n ∙ slice-blit_after out 0 zeros (s.k * s.t) n (omega arith);
        },
      )
    where
      held : s.t * (0 + length (used s)) ≤ length s.syms_buf
      held = rw (length-used v, v.buf_sized) (grind (arith, v.within))

      zeros_at : (i : ℕ) → i < s.k → slice (blit out 0 zeros) (i * s.t) s.t ≡ replicate s.t 0
      zeros_at i h =
          let n_zeros = length-replicate {A = ℕ} (s.k * s.t) 0 in
          slice-blit_within out zeros (i * s.t) s.t (omega arith)
            (omega (arith, mul-lt i s.k s.t h))
          ∙ slice-replicate (s.k * s.t) (i * s.t) s.t 0 (mul-lt i s.k s.t h)

  -- On a well-formed block and an output with room for it, when all source symbols were counted or
  -- fewer symbols are held than the block has source symbols: `codeblockstate_get_data` returns without
  -- a fault, says whether all source symbols were counted, and leaves in the output each source symbol
  -- that was received, zeros for the others, and what was there behind the block.
  pub get_data_copies :
      (s.k ≤ s.n_src_esi) ⊎ (s.n_esi < s.k)
      → (out' : List ℕ) × (get_data rq s out c ≡ ok (leb s.k s.n_src_esi, out', c))
        × Recovered s out out'
  unfolding get_data
  get_data_copies why =
      let (out', runs, r) = copies_zeroed in
      (out', ground (arith, length-replicate {A = ℕ} (s.k * s.t) 0, runs), r)

  -- On a well-formed block and an output with room for it, when all source symbols were counted and
  -- each one held is its part of `src`: `codeblockstate_get_data` returns true, and the output begins
  -- with `src`.
  pub get_data_complete :
      (src : List ℕ)
      → s.k ≤ s.n_src_esi
      → length src ≡ s.k * s.t
      → IsPartOf src s.k s.t (received s)
      → (out' : List ℕ) × (get_data rq s out c ≡ ok (true, out', c)) × (take (s.k * s.t) out' ≡ src)
  get_data_complete src full sized parts =
      let (out', runs, r) = get_data_copies (inl full) in
      let yes : leb s.k s.n_src_esi ≡ true = ground arith in
      (
        out',
        rw yes at runs,
        take_of_slices out' src s.k s.t (λ i h.
              r.symbols i h
              ∙ symbol_or-IsPartOf src s.k s.t i (received s) (replicate s.t 0) parts h (there i h))
            ∙ take_all src (s.k * s.t) (omega arith),
      )
    where
      there : (i : ℕ) → i < s.k → mem i (ids (received s)) ≡ true
      there i h =
          rw (ids-entries s.t s.syms_buf 0 (used s))
            (all_sources s.k (used s) i v.no_repeat (omega (arith, v.sources)) h)
