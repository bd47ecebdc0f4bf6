-- ===== src/Segment/Keeps.antt =====
-- What the operations on a file's state leave alone: its number, and mostly its mode.
use rq_route_demo.Base.{ℕ, ◌≡◌, arith, List, ok, ℤ}
use rq_route_demo.Memory.{Malloc}
use rq_route_demo.CodeBlock.Codec.{Codec}
use rq_route_demo.Segment.{
  SegState, receiving, writing, RouteHeader, Written, init, add_packet, prepare_output, load_cb_buf,
  write_more, write_block, after_write,
}

-- A new state has the number it is given, and receives.
pub init_keeps :
    (heap : Malloc) (n len : ℕ) {s : SegState}
    → init heap n len ≡ ok s
    → (s.file_nbr ≡ n) × (s.mode ≡ receiving)
unfolding init
init_keeps heap n len e = ground arith

-- Only the state of a file that receives, and that has the packet's number, takes a packet.
pub add_packet_keeps :
    (s : SegState) (header : RouteHeader) (payload : List ℕ) {s' : SegState}
    → add_packet s header payload ≡ ok s'
    → (s'.file_nbr ≡ s.file_nbr)
      × (s'.mode ≡ s.mode)
      × (s.mode ≡ receiving)
      × (header.toi ≡ s.file_nbr)
unfolding add_packet
add_packet_keeps s header payload e = ground arith

module _ {C : Type 0} (rq : Codec C) where
  load_cb_buf_keeps :
      (s : SegState) (cb : ℕ) (c : C) {s' : SegState} {c' : C}
      → load_cb_buf rq s cb c ≡ ok (s', c')
      → (s'.file_nbr ≡ s.file_nbr) × (s'.mode ≡ s.mode)
  unfolding load_cb_buf
  load_cb_buf_keeps s cb c e = ground arith

  pub prepare_output_keeps :
      (heap : Malloc) (s : SegState) (fd : ℕ) (c : C) {s' : SegState} {c' : C}
      → prepare_output rq heap s fd c ≡ ok (s', c')
      → (s'.file_nbr ≡ s.file_nbr) × (s'.mode ≡ writing)
  unfolding prepare_output
  prepare_output_keeps heap s fd c e = grind (arith, load_cb_buf_keeps)

  after_write_keeps :
      (s : SegState) (cb size n : ℕ) (c : C) {w : Written C}
      → after_write rq s cb size n c ≡ ok w
      → (w.state.file_nbr ≡ s.file_nbr) × (w.state.mode ≡ s.mode)
  unfolding after_write
  after_write_keeps s cb size n c e = grind (arith, load_cb_buf_keeps)

  write_block_keeps :
      (s : SegState) (cb : ℕ) (sink : ℕ → ℤ) (c : C) {w : Written C}
      → write_block rq s cb sink c ≡ ok w
      → (w.state.file_nbr ≡ s.file_nbr) × (w.state.mode ≡ s.mode)
  unfolding write_block
  write_block_keeps s cb sink c e = grind (arith, after_write_keeps)

  pub write_more_keeps :
      (s : SegState) (sink : ℕ → ℤ) (c : C) {w : Written C}
      → write_more rq s sink c ≡ ok w
      → (w.state.file_nbr ≡ s.file_nbr) × (w.state.mode ≡ s.mode) × (s.mode ≡ writing)
  unfolding write_more
  write_more_keeps s sink c e = grind (arith, write_block_keeps)
