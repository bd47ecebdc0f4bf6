-- ===== src/Sender/Blocks.antt =====
-- What `xmit_file` sends for one code block, out of a file that fits in it.
use rq_route_demo.Base.{
  ap, ap₂, subst, sym, refl, ◌+◌, slice, take-add, ℕ, zero, suc, ◌-◌, ◌*◌, ◌^◌, ◌≤◌, ◌<◌, ◌≡◌, ◌∙◌,
  arith, Bool, true, false, inl, inr, List, [], ◌++◌, length, take, replicate, blit, ok, Run,
  mul_int, mul_int-ok, ltb, ◌==◌, length-replicate, length-blit, slice-blit_self, slice-blit_before,
  take_all, append-nil, ℤ, Bool-cases,
}
use rq_route_demo.Memory.{Malloc}
use rq_route_demo.Packet.{Packet}
use rq_route_demo.Params.{CodingParams}
use rq_route_demo.Params.Exact.{symbols, max_file, single_block}
use rq_route_demo.CodeBlock.Codec.{Codec, CodecSizes}
use rq_route_demo.CodeBlock.Erasure.{IsCode}
use rq_route_demo.Sender.{
  read_block, nofail, generate, then_send, xmit_repairs, xmit_block, send_repairs,
}
use rq_route_demo.Sender.Packets.{packets, repair_packets, send_sources-sends, send_repairs-sends}
use rq_route_demo.Sender.Padding.{padded}

-- The memory after the identifiers of all source symbols were given.
abbrev pub sources_given : {C : Type 0} → Codec C → ℕ → C → C
sources_given rq k c = let c₁ = (rq.inter_init c k 0).1 in (rq.inter_add_ids c₁ 0 k).1

-- The memory with the programs of a code block.
abbrev pub generated : {C : Type 0} → Codec C → ℕ → ℕ → C → C
generated rq k e c =
    let c₃ = (rq.inter_compile (sources_given rq k c)).1 in
    let c₄ = (rq.out_init c₃ k).1 in let c₅ = (rq.out_add_ids c₄ k e).1 in (rq.out_compile c₅).1

-- A library none of whose calls fail, when it compiles for all source symbols, and that writes repair symbols within the block it is given.
pub record Works {C : Type 0} (rq : Codec C) (sizes : CodecSizes) : Type 0 where
  pub sizes_inter : (k n : ℕ) → IsCode (sizes.inter k n).0
  pub sizes_out : (n : ℕ) → IsCode (sizes.out n).0
  pub inter_init : (c : C) (k n : ℕ) → IsCode (rq.inter_init c k n).0
  pub inter_add_ids : (c : C) (id n : ℕ) → IsCode (rq.inter_add_ids c id n).0
  pub inter_compile : (c : C) (k : ℕ) → IsCode (rq.inter_compile (sources_given rq k c)).0
  pub inter_execute : (c : C) (t : ℕ) (syms : List ℕ) → IsCode (rq.inter_execute c t syms).0
  pub out_init : (c : C) (k : ℕ) → IsCode (rq.out_init c k).0
  pub out_add_ids : (c : C) (id n : ℕ) → IsCode (rq.out_add_ids c id n).0
  pub out_compile : (c : C) → IsCode (rq.out_compile c).0
  pub out_execute : (c : C) (t : ℕ) (out : List ℕ) → IsCode (rq.out_execute c t out).0
  pub out_sized : (c : C) (t : ℕ) (out : List ℕ) → length (rq.out_execute c t out).1 ≡ length out

-- The repair symbols of a file are those that the calls of the encoder give, out of a block of memory that
-- begins with the file, filled up to whole symbols.
pub record Encoded {C : Type 0} (rq : Codec C) (c : C) (e : ℕ) (file repairs : List ℕ)
    : Type 0 where
  pub block : List ℕ
  pub begins : take (symbols (length file) * 1024) block ≡ padded file
  pub room : e * 1024 ≤ length block
  pub made :
      repairs
      ≡ (rq.out_execute
          (rq.inter_execute (generated rq (symbols (length file)) e c) 1024 block).1
          1024
          block).1

-- The source block is filled with the file, and zeros up to whole symbols.
read_block-fills :
    (file src : List ℕ)
    → 0 < length file
    → length file ≤ max_file
    → 1024 * symbols (length file) ≤ length src
    → (block : List ℕ) × (read_block (single_block (length file)) 0 (symbols (length file)) src file
        ≡ ok block)
      × (length block ≡ length src)
      × (take (length file) block ≡ file)
      × (take (symbols (length file) * 1024) block ≡ padded file)
unfolding read_block
read_block-fills file src some_bytes small room =
    let f = length file in
    let n = 1024 * symbols f in
    let filled = blit src 0 file in
    let want : mul_int 1024 (symbols f) ≡ ok n = mul_int-ok 1024 (symbols f) (omega arith) in
    let most = mul_int-ok 1024 (symbols f - 1) (omega arith) in
    let zeros : List ℕ = replicate (n - f) 0 in
    let n_zeros = length-replicate {A = ℕ} (n - f) 0 in
    let held = slice-blit_self src 0 file (omega arith) in
    elim (Bool-cases (ltb f n)) [
      | inr full ↦
          let all : f ≡ symbols f * 1024 = ground arith in
          let none_left : symbols f * 1024 - f ≡ 0 = omega (arith, all) in
          (
            filled,
            ground (arith, want),
            length-blit src 0 file,
            held,
            subst (λ m. take m filled ≡ file) all held ∙ rw none_left (sym (append-nil file)),
          )
      | inl short ↦
          let block = blit filled f zeros in
          let kept = slice-blit_before filled f zeros 0 f (omega arith) ∙ held in
          let all : symbols f * 1024 ≡ f + (n - f) = omega arith in
          let rest : slice block f (n - f) ≡ replicate (symbols f * 1024 - f) 0 =
            subst (λ m. slice block f m ≡ zeros) n_zeros
              (slice-blit_self filled f zeros (omega (arith, length-blit src 0 file, n_zeros)))
            ∙ ap (λ m. replicate m 0) (omega arith) in
          (
            blit filled f zeros,
            ground (arith, want, most, n_zeros, length-blit src 0 file),
            length-blit filled f zeros ∙ length-blit src 0 file,
            kept,
            ap (λ m. take m block) all
                ∙ take-add block f (n - f)
                ∙ ap₂ (λ xs ys. xs ++ ys) kept rest,
          )
    ]

module _ {C : Type 0} (rq : Codec C) (heap : Malloc) (sizes : CodecSizes) (w : Works rq sizes) where
  pub nofail-IsCode :
      (r : ℤ × C) (rest : C → Run (Bool × List Packet × C))
      → IsCode r.0
      → nofail rq heap r rest ≡ rest r.1
  nofail-IsCode (rc, c) rest (n, e) = rw e

  generate-generated :
      (p : CodingParams) (e k : ℕ) (c : C) (rest : C → Run (Bool × List Packet × C))
      → generate rq heap p e 0 k c rest ≡ rest (generated rq k e c)
  unfolding generate
  generate-generated p e k c rest =
      let c₁ = (rq.inter_init c k 0).1 in
      let c₂ = (rq.inter_add_ids c₁ 0 k).1 in
      let c₃ = (rq.inter_compile c₂).1 in
      let c₄ = (rq.out_init c₃ k).1 in
      let c₅ = (rq.out_add_ids c₄ k e).1 in
      nofail-IsCode (rq.inter_init c k 0) _ (w.inter_init c k 0)
      ∙ nofail-IsCode (rq.inter_add_ids c₁ 0 k) _ (w.inter_add_ids c₁ 0 k)
      ∙ nofail-IsCode (rq.inter_compile c₂) _ (w.inter_compile c k)
      ∙ nofail-IsCode (rq.out_init c₃ k) _ (w.out_init c₃ k)
      ∙ nofail-IsCode (rq.out_add_ids c₄ k e) _ (w.out_add_ids c₄ k e)
      ∙ nofail-IsCode (rq.out_compile c₅) rest (w.out_compile c₅)

  then_send-ok :
      (sent : Run (Bool × List Packet)) (c : C) (rest : Run (Bool × List Packet × C))
      (ps qs : List Packet) (c' : C)
      → sent ≡ ok (true, ps)
      → rest ≡ ok (true, qs, c')
      → then_send rq heap sent c rest ≡ ok (true, ps ++ qs, c')
  then_send-ok sent c rest ps qs c' h k = rw (h, k)

  then_send-last :
      (sent : Run (Bool × List Packet)) (c : C) (rest : Run (Bool × List Packet × C))
      (ps : List Packet) (c' : C)
      → sent ≡ ok (true, ps)
      → rest ≡ ok (true, [], c')
      → then_send rq heap sent c rest ≡ ok (true, ps, c')
  then_send-last sent c rest ps c' h k = rw (h, k, append-nil)

  xmit_repairs-sends :
      (e file_nbr : ℕ) (file src : List ℕ) (c : C)
      (rest : List ℕ → C → Run (Bool × List Packet × C))
      → take (symbols (length file) * 1024) src ≡ padded file
      → e * 1024 ≤ length src
      → length src < 2 ^ 31
      → ((block : List ℕ) (c₁ : C) → rest block c₁ ≡ ok (true, [], c₁))
      → (repairs : List ℕ) × (c' : C) × (xmit_repairs rq heap
            (single_block (length file))
            e
            file_nbr
            (length file)
            0
            (symbols (length file))
            src
            c
            rest
          ≡ ok (true, repair_packets file_nbr (length file) repairs e 0, c'))
        × (0 < e → Encoded rq c e file repairs)
  unfolding xmit_repairs
  xmit_repairs-sends zero file_nbr file src c rest begins room small ends =
      (src, c, ends src c, λ h. absurd (omega arith))
  xmit_repairs-sends (suc e) file_nbr file src c rest begins room small ends =
      let fsiz = length file in
      let k = symbols fsiz in
      let c₁ = generated rq k (suc e) c in
      let c₂ = (rq.inter_execute c₁ 1024 src).1 in
      let repairs = (rq.out_execute c₂ 1024 src).1 in
      let c₃ = (rq.out_execute c₂ 1024 src).2 in
      let sized = w.out_sized c₂ 1024 src in
      let some_repairs : (suc e == 0) ≡ false = ground arith in
      let sent = send_repairs-sends file_nbr fsiz repairs (suc e) 0 (omega arith) (omega arith) in
      (
        repairs,
        c₃,
        rw some_repairs (
            generate-generated (single_block fsiz) (suc e) k c _
            ∙ nofail-IsCode (rq.inter_execute c₁ 1024 src) _ (w.inter_execute c₁ 1024 src)
            ∙ nofail-IsCode ((rq.out_execute c₂ 1024 src).0, c₃) _ (w.out_execute c₂ 1024 src)
            ∙ then_send-last (send_repairs file_nbr fsiz 1024 repairs (suc e) 0) c₃
                (rest repairs c₃) (repair_packets file_nbr fsiz repairs (suc e) 0) c₃ sent
                (ends repairs c₃)),
        λ h. record { block = src; begins = begins; room = room; made = refl },
      )

  pub xmit_block-sends :
      (e file_nbr : ℕ) (file src : List ℕ) (c : C)
      (later : List ℕ → C → Run (Bool × List Packet × C))
      → 0 < length file
      → length file ≤ max_file
      → 1024 * symbols (length file) ≤ length src
      → e * 1024 ≤ length src
      → length src < 2 ^ 31
      → ((block : List ℕ) (c₁ : C) → later block c₁ ≡ ok (true, [], c₁))
      → (repairs : List ℕ) × (c' : C) × (xmit_block rq heap
            (single_block (length file))
            e
            file_nbr
            (length file)
            0
            (symbols (length file))
            file
            src
            c
            later
          ≡ ok (true, packets e file_nbr file repairs, c'))
        × (0 < e → Encoded rq c e file repairs)
  unfolding xmit_block
  xmit_block-sends e file_nbr file src c later some_bytes small room room_e fits ends =
      let f = length file in
      let whole : take (1024 * symbols f) file ≡ file =
        take_all file (1024 * symbols f) (omega arith) in
      let (block, filled, sized, holds, begins) = read_block-fills file src some_bytes small room in
      let sent =
        send_sources-sends file_nbr file small block (omega arith) holds (symbols f) 0
          (omega arith) in
      let (repairs, c', repaired, encoded) =
        xmit_repairs-sends e file_nbr file block c later begins (omega arith) (omega arith) ends in
      (repairs, c', rw (whole, filled, sent, repaired), encoded)
