-- ===== src/Receiver/Tasks.antt =====
-- The invariant of the loop, `task_write` and one task of an iteration.
use rq_route_demo.Base.{
  ℕ, ◌≡◌, sym, subst, subst₂, ◌∙◌, arith, true, false, [], ◌∷◌, ◌++◌, ok, none, some, inl, inr,
  ◌==◌, if◌then◌else◌, Bool-cases, >>=-eq-ok, Option-cases,
}
use rq_route_demo.Memory.{Malloc}
use rq_route_demo.CodeBlock.Codec.{Codec}
use rq_route_demo.SegmentSet.{SegmentSet, slot, put, inc_min_file_nbr}
use rq_route_demo.SegmentSet.Window.{view}
use rq_route_demo.SegmentSet.Updates.{Updated, put-Updated}
use rq_route_demo.Segment
use rq_route_demo.Segment.{
  SegState, Mode, receiving, ready_to_write, writing, RouteHeader, Written, is_none, free,
  write_more,
}
use rq_route_demo.Segment.Keeps.{write_more_keeps}
use rq_route_demo.Receiver.{
  open_file, Receiver, Input, Datagram, Task, packet, recv_error, short, task_recv, task_write,
  task_start_write, task_signal_ready, give_up, running, write_task, after_write_more, file_state,
  recv_task, perform, assign,
}
use rq_route_demo.Receiver.Steps.{get-view, get-min_none, deref-view}
use rq_route_demo.Receiver.Invariant.{Inv, Fits, put-Inv, inc_min_file_nbr-Inv}
use rq_route_demo.Receiver.Packets.{Holds, IsOfFile, start_write-Holds, recv_packet-Holds}

module _ {C : Type 0} (rq : Codec C) (heap : Malloc) (n_segments : ℕ) where
  after_write_more-Holds :
      (r : Receiver C) (input : Input) (s : SegState) (w : Written C) {r' : Receiver C}
      → Holds rq heap n_segments r
      → view r.ss r.ss.min_file_nbr ≡ some s
      → w.state.file_nbr ≡ s.file_nbr
      → w.state.mode ≡ s.mode
      → s.mode ≡ writing
      → after_write_more rq heap n_segments r input (some (slot r.ss r.ss.min_file_nbr)) w ≡ ok r'
      → Holds rq heap n_segments r'
  unfolding after_write_more assign free
  after_write_more-Holds r input s w {r'} v e number mode is_writing h = elim (Bool-cases w.more) [
    | inl more ↦
        let same = put-Inv v min s w.state e (fits w.state number mode) in
        let after : wrote ≡ r' = ground (arith, rw more at h) in
        subst (Holds rq heap n_segments) after same
    | inr finished ↦
        (start_write-Holds rq heap n_segments next input.opens moved (rw finished at h)).0
  ]
    where
      min : ℕ
      min = r.ss.min_file_nbr

      idx : ℕ
      idx = slot r.ss min

      fits : (t : SegState) → t.file_nbr ≡ s.file_nbr → t.mode ≡ s.mode → Fits r.recv_file_nbr min t
      fits t number mode =
          let (numbered, old) = v.fits min s e in (number ∙ numbered, λ q. old (λ p. cc))

      wrote : Receiver C
      wrote = record r {
        ss = put r.ss idx w.state;
        mem = w.mem;
        output = r.output ++ (open_file r.out_fd, w.bytes, w.more) ∷ [];
      }

      gone : SegState
      gone = Segment.free w.state

      freed : SegmentSet SegState
      freed = put r.ss idx gone

      next : Receiver C
      next = record wrote {
        ss = inc_min_file_nbr freed;
        out_fd = none;
        output = r.output ++ (open_file r.out_fd, w.bytes, false) ∷ [];
      }

      u : Updated r.ss freed (λ m. if m == min then some gone else view r.ss m)
      u = put-Updated v.valid min gone s e

      seen : view freed freed.min_file_nbr ≡ some gone
      seen = subst (λ k. view freed k ≡ some gone) (sym u.same_min) (u.seen min ∙ ground arith)

      moved : Inv n_segments (inc_min_file_nbr freed) r.recv_file_nbr
      moved =
          inc_min_file_nbr-Inv (put-Inv v min s gone e (fits gone number mode)) gone seen (λ q. cc)

  write_task-Holds :
      (r : Receiver C) (input : Input) {r' : Receiver C}
      → Holds rq heap n_segments r
      → write_task rq heap n_segments r input ≡ ok r'
      → Holds rq heap n_segments r'
  unfolding write_task
  write_task-Holds r input {r'} v h = elim (Option-cases (view r.ss r.ss.min_file_nbr)) [
    | inl missing ↦ absurd (ground (arith, get-min_none v.valid missing))
    | inr (s, e) ↦
        let idx = slot r.ss r.ss.min_file_nbr in
        let (w, runs, after) =
          >>=-eq-ok (write_more rq s input.sink r.mem)
            (after_write_more rq heap n_segments r input (some idx)) {b = r'}
            (ground
              (arith, get-view v.valid r.ss.min_file_nbr e, deref-view r.ss r.ss.min_file_nbr e)) in
        let (number, mode, is_writing) = write_more_keeps rq s input.sink r.mem runs in
        after_write_more-Holds r input s w v e number mode is_writing after
  ]

  recv_task-Holds :
      (r : Receiver C) (input : Input) (d : Datagram) {r' : Receiver C}
      → Holds rq heap n_segments r
      → IsOfFile rq heap n_segments d
      → recv_task rq heap n_segments r input d ≡ ok (running r')
      → Holds rq heap n_segments r'
  unfolding recv_task
  recv_task-Holds r input recv_error v known h = cc
  recv_task-Holds r input short v known h = cc
  recv_task-Holds r input (packet header payload) {r'} v known h =
      recv_packet-Holds rq heap n_segments r input header payload {r' = r'} v known (ground arith)

  pub perform-Holds :
      (r : Receiver C) (input : Input) (task : Task) {r' : Receiver C}
      → Holds rq heap n_segments r
      → IsOfFile rq heap n_segments input.datagram
      → perform rq heap n_segments r input task ≡ ok (running r')
      → Holds rq heap n_segments r'
  unfolding perform
  perform-Holds r input give_up v known h = cc
  perform-Holds r input task_recv v known h = recv_task-Holds r input input.datagram v known h
  perform-Holds r input task_write {r'} v known h =
      write_task-Holds r input {r' = r'} v (ground arith)
  perform-Holds r input task_start_write {r'} v known h =
      (start_write-Holds rq heap n_segments (record r { write_ok = true }) input.opens {r' = r'} v
        (ground arith)).0
  perform-Holds r input task_signal_ready {r'} v known h =
      let e : r.ss ≡ r'.ss = ground arith in
      let n : r.recv_file_nbr ≡ r'.recv_file_nbr = ground arith in subst₂ (Inv n_segments) e n v
