-- ===== src/CodeBlock/Data.antt =====
-- `codeblockstate_get_data`: the source block out of the symbols received.
pub mod Copy
pub mod Recover
pub mod Reconstruct
pub mod Decode
use rq_route_demo.Base.{
  ℕ, zero, suc, ◌+◌, ◌-◌, ◌*◌, Bool, true, false, ◌||◌, List, [], ◌∷◌, length, replicate, take, Run,
  ok, ◌>>=◌, ◌>>◌, assert, leb, ltb, if◌then◌else◌, memcpy, read_bytes, ℤ, pos, negsuc, eqb_ℤ,
}
use rq_route_demo.CodeBlock.{CodeBlockState}
use rq_route_demo.CodeBlock.Codec.{Codec}

-- The loop of `copy_source_syms` over `esi[i]`, ..., `esi[n_esi - 1]`.
pub copy_loop : CodeBlockState → List ℕ → ℕ → List ℕ → Run (List ℕ)
copy_loop s [] i data_out = ok data_out
copy_loop s (esi ∷ rest) i data_out = do
  copied ←
      (if leb s.k esi
        then ok data_out
        else (read_bytes s.syms_buf (i * s.t) s.t >>= memcpy data_out (esi * s.t)))
  copy_loop s rest (i + 1) copied

-- `copy_source_syms`
pub copy_source_syms : CodeBlockState → List ℕ → Run (List ℕ)
copy_source_syms s data_out = copy_loop s (take s.n_esi s.esi) 0 data_out

module _ {C : Type 0} (rq : Codec C) where
  -- What `codeblockstate_get_data` leaves: its result, `data_out` and the decoder's memory.
  abbrev pub Outcome : Type 0
  Outcome = Bool × List ℕ × C

  -- `RUN_NOFAIL(x)`: a negative return code ends `codeblockstate_get_data` with `false`.
  abbrev pub run_nofail : ℤ × C → List ℕ → (C → Run Outcome) → Run Outcome
  run_nofail (pos rc, c) data_out rest = rest c
  run_nofail (negsuc rc, c) data_out rest = ok (false, data_out, c)

  -- The loop that adds the identifiers of the symbols received, and what follows it.
  pub add_ids : List ℕ → C → List ℕ → (C → Run Outcome) → Run Outcome
  add_ids [] c data_out rest = rest c
  add_ids (esi ∷ more) c data_out rest =
      run_nofail (rq.inter_add_ids c esi 1) data_out λ c'. add_ids more c' data_out rest

  -- From `RqOutInit` on.
  pub reconstruct : CodeBlockState → List ℕ → C → Run Outcome
  reconstruct s data_out c = run_nofail (rq.out_init c s.k) data_out λ c₁.
      run_nofail (rq.out_add_ids c₁ 0 s.k) data_out λ c₂.
        run_nofail (rq.out_compile c₂) data_out λ c₃.
          let (rc, filled, c₄) = rq.out_execute c₃ s.t data_out in
          run_nofail (rc, c₄) filled λ c₅. ok (true, filled, c₅)

  -- From the call of `RqInterCompile` on, with what that call returned.
  pub after_compile : CodeBlockState → List ℕ → ℤ × C → Run Outcome
  unfolding reconstruct
  after_compile s data_out (rc, c) =
      if eqb_ℤ rc rq.insuff_ids
      then (copy_source_syms s data_out >>= λ copied. ok (false, copied, c))
      else if eqb_ℤ rc (pos 0)
      then run_nofail (rq.inter_execute c s.t s.syms_buf) data_out (reconstruct s data_out)
      else ok (false, data_out, c)

  -- The branch that attempts to decode. A negative code of `RqMemBlocksIncludeCase` ends it too.
  pub decode : CodeBlockState → List ℕ → C → Run Outcome
  unfolding after_compile add_ids
  decode s data_out c = run_nofail (rq.include_case c s.k (s.n_esi - s.k) s.k s.t) data_out λ c₁.
      run_nofail (rq.inter_init c₁ s.k (s.n_esi - s.k)) data_out λ c₂.
        add_ids (take s.n_esi s.esi) c₂ data_out
          λ c₃. after_compile s data_out (rq.inter_compile c₃)

  -- `codeblockstate_get_data`
  pub get_data : CodeBlockState → List ℕ → C → Run Outcome
  get_data s data_out c = do
    assert (leb (s.k * s.t) (length data_out))
    zeroed ← memcpy data_out 0 (replicate (s.k * s.t) 0)
    if leb s.k s.n_src_esi || ltb s.n_esi s.k
        then (copy_source_syms s zeroed >>= λ copied. ok (leb s.k s.n_src_esi, copied, c))
        else decode s zeroed c
