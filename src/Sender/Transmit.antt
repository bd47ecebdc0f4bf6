-- ===== src/Sender/Transmit.antt =====
-- What `xmit_file` sends for a file of one code block.
use rq_route_demo.Base.{
  ℕ, ◌-◌, ◌*◌, ◌^◌, ◌≤◌, ◌<◌, ◌≡◌, refl, ap, subst, ◌∙◌, arith, Bool, true, false, inl, inr, List,
  [], length, drop, ok, mul_int, mul_int-ok, ltb, ◌==◌, if◌then◌else◌, some, ℤ, pos, pos_part,
  Bool-cases, >>=-ok,
}
use rq_route_demo.Memory.{Malloc}
use rq_route_demo.Packet.{Packet}
use rq_route_demo.Params.{param_deriv}
use rq_route_demo.Params.Exact.{symbols, max_file, single_block, accepts}
use rq_route_demo.CodeBlock.Codec.{Codec, CodecSizes}
use rq_route_demo.Segment.{int_of_size}
use rq_route_demo.Sender.{
  get_file_size, xmit_block, xmit_blocks, xmit_params, xmit_size, xmit_sized, xmit_file,
}
use rq_route_demo.Sender.Packets.{packets}
use rq_route_demo.Sender.Blocks.{Works, Encoded, nofail-IsCode, xmit_block-sends}

module _ {C : Type 0} (rq : Codec C) (heap : Malloc) (sizes : CodecSizes) (w : Works rq sizes) where
  xmit_blocks-sends :
      (e file_nbr : ℕ) (file src : List ℕ) (c : C)
      → 0 < length file
      → length file ≤ max_file
      → 1024 * symbols (length file) ≤ length src
      → e * 1024 ≤ length src
      → length src < 2 ^ 31
      → (repairs : List ℕ) × (c' : C) × (xmit_blocks rq heap
            (single_block (length file))
            e
            file_nbr
            (length file)
            1
            0
            file
            src
            c
          ≡ ok (true, packets e file_nbr file repairs, c'))
        × (0 < e → Encoded rq c e file repairs)
  unfolding xmit_blocks
  xmit_blocks-sends e file_nbr file src c some_bytes small room room_e fits =
      let f = length file in
      let p = single_block f in
      let all : symbols f ≡ symbols f - 0 = omega arith in
      subst
        (λ k.
          (repairs : List ℕ) × (c' : C) × (xmit_block rq heap p e file_nbr f 0 k file src c
              (xmit_blocks rq heap p e file_nbr f 0 1 (drop (1024 * k) file))
            ≡ ok (true, packets e file_nbr file repairs, c'))
          × (0 < e → Encoded rq c e file repairs))
        all
        (xmit_block-sends rq heap sizes w e file_nbr file src c _ some_bytes small room room_e fits
          (λ b c₁. refl))

  -- The block of memory that `xmit_params` allocates is large enough for both kinds of symbols.
  xmit_params-sends :
      (e file_nbr : ℕ) (file : List ℕ) (c : C)
      → 0 < length file
      → length file ≤ max_file
      → e * 1024 < 2 ^ 31
      → (repairs : List ℕ) × (c' : C) × (xmit_params rq heap
            (single_block (length file))
            e
            file_nbr
            (length file)
            (some file)
            c
          ≡ ok (true, packets e file_nbr file repairs, c'))
        × (0 < e → Encoded rq c e file repairs)
  unfolding xmit_params
  xmit_params-sends e file_nbr file c some_bytes small few =
      let f = length file in
      let k = symbols f in
      let most : ℕ = if ltb e k then k else e in
      let len = heap.length-block (1024 * most) in
      let (over_k, over_e, size) = most_symbols e k few (omega arith) in
      let (repairs, c', sent, encoded) =
        xmit_blocks-sends e file_nbr file (heap.block (1024 * most)) c some_bytes small
          (omega arith) (omega arith) (omega arith) in
      (
        repairs,
        c',
        >>=-ok (mul_int 1024 most) _ (1024 * most) (mul_int-ok 1024 most size) ∙ sent,
        encoded,
      )
    where
      most_symbols :
          (e k : ℕ)
          → e * 1024 < 2 ^ 31
          → 1024 * k < 2 ^ 31
          → (k ≤ (if ltb e k then k else e))
            × (e ≤ (if ltb e k then k else e))
            × (1024 * (if ltb e k then k else e) < 2 ^ 31)
      most_symbols e k few small = (ground arith, ground arith, ground arith)

  xmit_size-sends :
      (extra : ℕ → ℤ) (file_nbr : ℕ) (file : List ℕ) (c : C) (r : Bool × List Packet × C)
      → 0 < length file
      → length file ≤ max_file
      → xmit_params rq heap
          (single_block (length file))
          (pos_part (extra (symbols (length file))))
          file_nbr
          (length file)
          (some file)
          c
        ≡ ok r
      → xmit_size rq heap sizes extra file_nbr (length file) (some file) c ≡ ok r
  unfolding xmit_size
  xmit_size-sends extra file_nbr file c r some_bytes small sent =
      let f = length file in
      let e = pos_part (extra (symbols f)) in
      >>=-ok (param_deriv (pos f)) _ (single_block f) (accepts f some_bytes small)
      ∙ elim (Bool-cases (e == 0)) [
        | inl no_extra ↦ rw no_extra sent
        | inr some_extra ↦ rw some_extra (
            nofail-IsCode rq heap sizes w ((sizes.inter (symbols f) e).0, c) _
              (w.sizes_inter (symbols f) e)
            ∙ nofail-IsCode rq heap sizes w ((sizes.out e).0, c) _ (w.sizes_out e)
            ∙ sent)
      ]

  -- The same, with what the repair symbols are.
  pub xmit_file-Encoded :
      (extra : ℕ → ℤ) (file_nbr : ℕ) (file : List ℕ) (c : C)
      → 0 < length file
      → length file ≤ max_file
      → pos_part (extra (symbols (length file))) * 1024 < 2 ^ 31
      → (repairs : List ℕ) × (c' : C) × (xmit_file rq heap sizes extra file_nbr
            (record { opened = some file; seeks = true; tells = true; reopened = some file })
            c
          ≡ ok (true, packets (pos_part (extra (symbols (length file)))) file_nbr file repairs, c'))
        × (0 < pos_part (extra (symbols (length file)))
            → Encoded rq c (pos_part (extra (symbols (length file)))) file repairs)
  unfolding xmit_file xmit_sized get_file_size
  xmit_file-Encoded extra file_nbr file c some_bytes small few =
      let f = length file in
      let e = pos_part (extra (symbols f)) in
      let size : int_of_size f ≡ pos f = ground arith in
      let not_empty : (f == 0) ≡ false = ground arith in
      let (repairs, c', sent, encoded) = xmit_params-sends e file_nbr file c some_bytes small few in
      let sized = xmit_size-sends extra file_nbr file c _ some_bytes small sent in
      (
        repairs,
        c',
        ap (λ z. xmit_sized rq heap sizes extra file_nbr z (some file) c) size
            ∙ ap
                (λ b.
                  if b
                  then ok (false, [], c)
                  else xmit_size rq heap sizes extra file_nbr f (some file) c)
                not_empty
            ∙ sized,
        encoded,
      )

  -- For a file of 1 to 51200000 bytes that is read without an error, when no call of the library fails and
  -- the repair symbols asked for fit in an `int` of bytes: `xmit_file` returns true, and has sent the
  -- source packets of the file in order, each with its part of the file, then that many repair packets.
  pub xmit_file-sends :
      (extra : ℕ → ℤ) (file_nbr : ℕ) (file : List ℕ) (c : C)
      → 0 < length file
      → length file ≤ max_file
      → pos_part (extra (symbols (length file))) * 1024 < 2 ^ 31
      → (repairs : List ℕ) × (c' : C) × (xmit_file rq heap sizes extra file_nbr
            (record { opened = some file; seeks = true; tells = true; reopened = some file })
            c
          ≡ ok (true, packets (pos_part (extra (symbols (length file)))) file_nbr file repairs, c'))
  xmit_file-sends extra file_nbr file c some_bytes small few =
      let (repairs, c', sent, encoded) =
        xmit_file-Encoded extra file_nbr file c some_bytes small few in
      (repairs, c', sent)
