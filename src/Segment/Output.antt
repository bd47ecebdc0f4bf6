-- ===== src/Segment/Output.antt =====
-- The output of a file: what `segstate_write_more` writes, call by call.
use rq_route_demo.Base.{
  ℕ, ◌+◌, ◌-◌, ◌≤◌, ◌<◌, ◌≡◌, ap, ◌∙◌, arith, true, false, List, [], ok, slice, some, ℤ, pos,
  negsuc,
}
use rq_route_demo.Params.Exact.{symbols, max_file, single_block}
use rq_route_demo.CodeBlock.Codec.{Codec}
use rq_route_demo.Segment.{
  SegState, writing, write_more, write_block, after_write, cb_size, pad_bytes,
}

-- A file whose code block is loaded and of which `offs` bytes are written.
pub record IsWriting (file_len offs : ℕ) (buf : List ℕ) (s : SegState) : Type 0 where
  pub some_left : offs < file_len
  pub fits : file_len ≤ max_file
  pub sized : s.file_len ≡ file_len
  pub derived : s.params ≡ single_block file_len
  pub fd : ℕ
  pub opened : s.out_fd ≡ some fd
  pub in_mode : s.mode ≡ writing
  pub first_block : s.out_cb ≡ some 0
  pub at_offs : s.out_cb_buf_offs ≡ offs
  pub holds : s.out_cb_buf ≡ buf

-- Without the padding, the one code block is as long as the file.
cb_size-file :
    {f offs : ℕ} {buf : List ℕ} {s : SegState} → IsWriting f offs buf s → cb_size s 0 ≡ ok f
unfolding cb_size pad_bytes
cb_size-file {f} {offs} {buf} {s} w =
    let size : s.params.t ≡ 1024 = ap (λ p. p.t) w.derived in
    let k : s.params.k_large ≡ symbols f = ap (λ p. p.k_large) w.derived in
    let n : s.params.n_srcsym_tot ≡ symbols f = ap (λ p. p.n_srcsym_tot) w.derived in
    let one : s.params.n_cb ≡ 1 = ap (λ p. p.n_cb) w.derived in
    let large : s.params.n_large ≡ 1 = ap (λ p. p.n_large) w.derived in
    ground (arith, w.sized, w.some_left, w.fits)

module _ {C : Type 0} (rq : Codec C) where
  module _ {f offs : ℕ} {buf : List ℕ} {s : SegState} (w : IsWriting f offs buf s) (sink : ℕ → ℤ)
      (c : C) where
    write_more-block : write_more rq s sink c ≡ write_block rq s 0 sink c
    unfolding write_more
    write_more-block = ground (arith, w.opened, w.in_mode, w.first_block)

    one : s.params.n_cb ≡ 1
    one = ap (λ p. p.n_cb) w.derived

    -- While a file is being written: if `write` fails, `segstate_write_more` returns false, as it does
    -- for a finished file, with nothing written and the state as it was.
    pub write_more-error :
        (e : ℕ)
        → sink (f - offs) ≡ negsuc e
        → write_more rq s sink c ≡ ok (record { more = false; bytes = []; state = s; mem = c })
    unfolding write_block
    write_more-error e h =
        write_more-block ∙ ground (arith, one, cb_size-file w, w.at_offs, w.some_left, h)

    pub write_more-part :
        (n : ℕ)
        → sink (f - offs) ≡ pos n
        → offs + n < f
        → write_more rq s sink c
          ≡ ok (record {
            more = true;
            bytes = slice buf offs n;
            state = record s { out_cb_buf_offs = offs + n };
            mem = c;
          })
    unfolding write_block after_write
    write_more-part n h lt =
        write_more-block ∙ ground (arith, one, cb_size-file w, w.at_offs, w.some_left, w.holds, h)

    pub write_more-last :
        (n : ℕ)
        → sink (f - offs) ≡ pos n
        → offs + n ≡ f
        → write_more rq s sink c
          ≡ ok (record {
            more = false;
            bytes = slice buf offs n;
            state = record s { out_cb_buf_offs = 0; out_cb = some 1 };
            mem = c;
          })
    unfolding write_block after_write
    write_more-last n h e =
        write_more-block ∙ ground (arith, one, cb_size-file w, w.at_offs, w.some_left, w.holds, h)
