-- ===== src/Receiver/Steps.antt =====
-- The functions of the loop on a file that the window shows, in terms of the window.
use rq_route_demo.Base.{
  ℕ, ◌≡◌, ap, ◌⊎◌, arith, List, ok, >>=-eq-ok, Option, none, some, Option-cases, inl, inr,
  if◌then◌else◌, Bool-cases, ◌>>=◌,
}
use rq_route_demo.Memory.{Malloc}
use rq_route_demo.CodeBlock.Codec.{Codec}
use rq_route_demo.SegmentSet.{SegmentSet, slot, get, put, ss_ok, ss_uninitialized}
use rq_route_demo.SegmentSet.Window.{IsValid, view, get_lem}
use rq_route_demo.SegmentSet.Updates.{view-some}
use rq_route_demo.Segment.{
  SegState, ready_to_write, RouteHeader, add_packet, prepare_output, is_ready,
}
use rq_route_demo.Receiver.{
  Receiver, deref, assign, take_packet, start_write, open_segment, start_output,
}

pub deref-view :
    (ss : SegmentSet SegState) (n : ℕ) {s : SegState}
    → view ss n ≡ some s
    → deref ss (some (slot ss n)) ≡ ok s
unfolding deref
deref-view ss n e = let (_, _, held) = view-some ss n e in rw (held, deref)

-- A file that is shown is initialized.
pub get-view :
    {ss : SegmentSet SegState} (v : IsValid ss) (n : ℕ) {s : SegState}
    → view ss n ≡ some s
    → get ss n ≡ (ss_ok, some (slot ss n))
get-view v n e = ground (arith, get_lem v n)

-- The first file of the window, when it is not shown.
pub get-min_none :
    {ss : SegmentSet SegState} (v : IsValid ss)
    → view ss ss.min_file_nbr ≡ none
    → get ss ss.min_file_nbr ≡ (ss_uninitialized, some (slot ss ss.min_file_nbr))
get-min_none {ss} v e = ground (arith, get_lem v ss.min_file_nbr)

module _ {C : Type 0} (rq : Codec C) (heap : Malloc) (n_segments : ℕ) where
  pub take_packet-view :
      (r : Receiver C) (n : ℕ) (header : RouteHeader) (payload : List ℕ) {s : SegState}
      {r' : Receiver C} (idx : ℕ)
      → view r.ss n ≡ some s
      → idx ≡ slot r.ss n
      → take_packet rq heap n_segments r (some idx) header payload ≡ ok r'
      → (s' : SegState) × (add_packet s header payload ≡ ok s')
        × (r' ≡ record r { ss = put r.ss idx s' })
  unfolding take_packet assign
  take_packet-view r n header payload {s} {r'} idx e at h =
      let d : deref r.ss (some idx) ≡ ok s = rw at (deref-view r.ss n e) in
      let (s', runs, same) =
        >>=-eq-ok (add_packet s header payload) (λ s'. ok (record r { ss = put r.ss idx s' }))
          {b = r'} (ground (arith, d)) in
      (s', runs, ground arith)

  -- `task_start_write` while the first file is not shown, or not ready: nothing is opened.
  pub start_write-missing :
      (r : Receiver C) (opens : ℕ → Option ℕ)
      → IsValid r.ss
      → view r.ss r.ss.min_file_nbr ≡ none
      → start_write rq heap n_segments r opens ≡ ok (record r { out_fd = none })
  unfolding start_write
  start_write-missing r opens v e = rw (get-min_none v e, start_write)

  start_write-shown :
      (r : Receiver C) (opens : ℕ → Option ℕ) {s : SegState}
      → IsValid r.ss
      → view r.ss r.ss.min_file_nbr ≡ some s
      → start_write rq heap n_segments r opens ≡ (
          if is_ready s.mode
          then (open_segment rq heap n_segments opens r.ss.min_file_nbr
              >>= start_output rq heap n_segments r (some (slot r.ss r.ss.min_file_nbr)) s)
          else ok (record r { out_fd = none }))
  unfolding start_write
  start_write-shown r opens v e =
      let g = get-view v r.ss.min_file_nbr e in
      rw (g, start_write) (rw (ap (λ p. p.1) g, deref-view r.ss r.ss.min_file_nbr e))

  -- `task_start_write` on a file that is shown: it stays as it is, or its output is prepared.
  pub start_write-view :
      (r : Receiver C) (opens : ℕ → Option ℕ) {s : SegState} {r' : Receiver C}
      → IsValid r.ss
      → view r.ss r.ss.min_file_nbr ≡ some s
      → start_write rq heap n_segments r opens ≡ ok r'
      → (r' ≡ record r { out_fd = none })
        ⊎ ((s.mode ≡ ready_to_write)
            × ((fd : ℕ) × (s' : SegState) × (mem : C) × (prepare_output rq heap s fd r.mem
                  ≡ ok (s', mem))
                × (r' ≡ record r {
                  out_fd = some (fd, r.ss.min_file_nbr);
                  ss = put r.ss (slot r.ss r.ss.min_file_nbr) s';
                  mem = mem;
                })))
  unfolding start_output open_segment assign
  start_write-view r opens {s} {r'} v e h =
      let idx = slot r.ss r.ss.min_file_nbr in
      elim (Bool-cases (is_ready s.mode)) [
        | inr early ↦ inl (ground (arith, start_write-shown r opens v e))
        | inl ready ↦ elim (Option-cases (opens r.ss.min_file_nbr)) [
          | inl closed ↦ inl (ground (arith, start_write-shown r opens v e))
          | inr (fd, opened) ↦
              let ((s', mem), runs, same) =
                >>=-eq-ok (prepare_output rq heap s fd r.mem)
                  (λ p. ok (record r {
                    out_fd = some (fd, r.ss.min_file_nbr);
                    ss = put r.ss idx p.0;
                    mem = p.1;
                  }))
                  {b = r'} (ground (arith, start_write-shown r opens v e)) in
              inr (ground arith, (fd, s', mem, runs, ground arith))
        ]
      ]
