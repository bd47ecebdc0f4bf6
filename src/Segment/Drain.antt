-- ===== src/Segment/Drain.antt =====
-- The output of a whole file: a caller of `segstate_write_more` that goes on until it returns false.
use rq_route_demo.Base.{
  ℕ, zero, suc, ◌+◌, ◌-◌, ◌*◌, ◌≤◌, ◌<◌, ◌≡◌, refl, ap, sym, ◌∙◌, arith, Bool, true, false, List,
  ◌++◌, ok, Run, fault, no_fuel, ◌>>=◌, ltb, slice, slice-add, none, some, ℤ, pos, Bool-cases, inl,
  inr, mul_int-ok, mul_int,
}
use rq_route_demo.Memory.{Malloc}
use rq_route_demo.Params.Exact.{symbols}
use rq_route_demo.CodeBlock.Codec.{Codec}
use rq_route_demo.CodeBlock.Data.{get_data}
use rq_route_demo.Segment.{SegState, writing, prepare_output, load_cb_buf, write_more}
use rq_route_demo.Segment.State.{IsValid}
use rq_route_demo.Segment.Output.{IsWriting, write_more-part, write_more-last}

-- `write` on a descriptor that takes at least one of the bytes offered, and no more than those.
abbrev pub Accepts : (ℕ → ℕ → ℤ) → Type 0
Accepts sinks =
    (i count : ℕ) → 0 < count → (n : ℕ) × (sinks i count ≡ pos n) × (0 < n) × (n ≤ count)

module _ {C : Type 0} (rq : Codec C) where
  -- The calls of a caller that goes on until the result is false, and all bytes written.
  pub drain : ℕ → SegState → (ℕ → ℕ → ℤ) → C → Run (List ℕ)
  drain zero s sinks c = fault no_fuel
  drain (suc fuel) s sinks c = do
    w ← write_more rq s (sinks fuel) c
    let rest = drain fuel w.state sinks w.mem
    elim w.more [ true ↦ (rest >>= λ later. ok (w.bytes ++ later)) | false ↦ ok w.bytes ]

  -- While a file is being written from offset `offs`, and if each `write` takes at least one byte and no
  -- more than offered: calling `segstate_write_more` until it returns false writes exactly the rest of
  -- the file, within as many calls as bytes are left.
  pub drain_lem :
      (fuel : ℕ) {f offs : ℕ} {buf : List ℕ} {s : SegState}
      → IsWriting f offs buf s
      → (sinks : ℕ → ℕ → ℤ) (c : C) → Accepts sinks
      → f ≤ offs + fuel
      → drain fuel s sinks c ≡ ok (slice buf offs (f - offs))
  unfolding drain
  drain_lem zero {f} {offs} {buf} {s} w sinks c accepts enough = absurd (omega (arith, w.some_left))
  drain_lem (suc fuel) {f} {offs} {buf} {s} w sinks c accepts enough =
      let left : 0 < f - offs = omega (arith, w.some_left) in
      let (n, taken, some_taken, not_more) = accepts fuel (f - offs) left in
      elim (Bool-cases (ltb (offs + n) f)) [
        | inl part ↦
            let lt : offs + n < f = ground arith in
            rw
              (
                write_more-part rq w (sinks fuel) c n taken lt,
                drain_lem fuel (next w n lt) sinks c accepts (omega arith),
              )
              (ap ok
                (sym (slice-add buf offs n (f - (offs + n))) ∙ ap (slice buf offs) (omega arith)))
        | inr last ↦
            let e : offs + n ≡ f = ground arith in
            rw (write_more-last rq w (sinks fuel) c n taken e)
              (ap (λ k. ok (slice buf offs k)) (omega arith))
      ]
    where
      next :
          IsWriting f offs buf s
          → (n : ℕ) → offs + n < f
          → IsWriting f (offs + n) buf (record s { out_cb_buf_offs = offs + n })
      next w n lt = record {
        some_left = lt;
        fits = w.fits;
        sized = w.sized;
        derived = w.derived;
        fd = w.fd;
        opened = w.opened;
        in_mode = w.in_mode;
        first_block = w.first_block;
        at_offs = refl;
        holds = w.holds;
      }

  -- For a valid file without an output whose block `codeblockstate_get_data` returns a result for:
  -- `segstate_prepare_output` returns without a fault, and the file is being written from offset 0, out
  -- of the bytes that `codeblockstate_get_data` gave.
  pub prepare_output-IsWriting :
      (heap : Malloc) {s : SegState} (v : IsValid s) (fd : ℕ) (c : C) {result : Bool} {buf : List ℕ}
      {c' : C}
      → s.out_fd ≡ none
      → get_data rq v.block (heap.block (1024 * symbols s.file_len)) c ≡ ok (result, buf, c')
      → (s' : SegState) × (prepare_output rq heap s fd c ≡ ok (s', c'))
        × IsWriting s.file_len 0 buf s'
  unfolding prepare_output load_cb_buf
  prepare_output-IsWriting heap {s} v fd c {result} {buf} {c'} closed data_out =
      let n = 1024 * symbols s.file_len in
      let size : s.params.t ≡ 1024 = ap (λ p. p.t) v.derived in
      let k : s.params.k_large ≡ symbols s.file_len = ap (λ p. p.k_large) v.derived in
      let bytes : mul_int s.params.t s.params.k_large ≡ ok n =
        rw (size, k) (mul_int-ok 1024 (symbols s.file_len) (omega (arith, v.fits))) in
      (
        record s {
          mode = writing;
          out_fd = some fd;
          out_cb = some 0;
          out_cb_buf_sz = n;
          out_cb_buf = buf;
          out_cb_buf_offs = 0;
        },
        ground (arith, bytes, closed, v.one_block, data_out),
        record {
          some_left = v.some_bytes;
          fits = v.fits;
          sized = refl;
          derived = v.derived;
          fd = fd;
          opened = refl;
          in_mode = refl;
          first_block = refl;
          at_offs = refl;
          holds = refl;
        },
      )
