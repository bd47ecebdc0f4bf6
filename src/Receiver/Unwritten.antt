-- ===== src/Receiver/Unwritten.antt =====
-- The functions of the loop that write nothing and leave the window where it is. What they open is the
-- first file of the window.
use rq_route_demo.Base.{
  ℕ, ◌≡◌, refl, ap, sym, subst, ◌∙◌, ◌⊎◌, inl, inr, ltb, true, List, Option, none, some, Run, ok,
  ◌>>=◌, if◌then◌else◌, ◌&&◌, Whenever, Whenever-bind, Whenever-then, Whenever-if, Whenever-imp,
}
use rq_route_demo.Memory.{Malloc}
use rq_route_demo.CodeBlock.Codec.{Codec}
use rq_route_demo.SegmentSet.{
  SegmentSet, Status, ss_ok, ss_uninitialized, ss_below_min, ss_above_max, get, mark_initialized,
  mark_readytowrite,
}
use rq_route_demo.SegmentSet.First.{min-put, min-mark_initialized, min-mark_readytowrite}
use rq_route_demo.Segment
use rq_route_demo.Segment.{
  SegState, RouteHeader, Written, add_packet, prepare_output, write_more, is_ready, is_none,
}
use rq_route_demo.Receiver.{
  Receiver, Input, file_state, deref, assign, is_newer, opened_for, open_segment, start_output,
  start_write, take_packet, newest_file, first_packet, recv_packet,
}

pub min-assign :
    (ss : SegmentSet SegState) (idx : Option ℕ) (s : SegState)
    → (assign ss idx s).min_file_nbr ≡ ss.min_file_nbr
unfolding assign
min-assign ss none s = refl
min-assign ss (some i) s = min-put ss i s

module _ {C : Type 0} where
  -- If a file is open, it is the first of the window.
  abbrev pub At : Receiver C → Type 0
  At r = (r.out_fd ≡ none) ⊎ ((fd : ℕ) × (r.out_fd ≡ some (fd, r.ss.min_file_nbr)))

  -- Nothing is written, and the window stays.
  abbrev pub Same : Receiver C → Receiver C → Type 0
  Same r r' = (r'.output ≡ r.output) × (r'.ss.min_file_nbr ≡ r.ss.min_file_nbr) × (At r → At r')

  Same-trans : (r r₁ r' : Receiver C) → Same r r₁ → Same r₁ r' → Same r r'
  Same-trans r r₁ r' a b = (b.0 ∙ a.0, b.1 ∙ a.1, λ at. b.2 (a.2 at))

  -- What is open stays, and so does the window.
  Same-window :
      (r r' : Receiver C)
      → r'.output ≡ r.output
      → r'.ss.min_file_nbr ≡ r.ss.min_file_nbr
      → r'.out_fd ≡ r.out_fd
      → Same r r'
  Same-window r r' out first fd = (
    out,
    first,
    elim [
      | inl closed ↦ inl (fd ∙ closed)
      | inr (d, e) ↦ inr (d, fd ∙ e ∙ ap (λ n. some (d, n)) (sym first))
    ],
  )

module _ {C : Type 0} (rq : Codec C) (heap : Malloc) (n_segments : ℕ) where
  start_output-Same :
      (r : Receiver C) (idx : Option ℕ) (s : SegState) (fd : Option ℕ)
      → Whenever
          (Same r)
          (start_output rq heap n_segments r idx s (opened_for r.ss.min_file_nbr fd))
  unfolding start_output
  start_output-Same r idx s none = (refl, refl, λ at. inl refl)
  start_output-Same r idx s (some fd) =
      Whenever-bind (Same r) (prepare_output rq heap s fd r.mem) _ (λ p.
        let first = min-assign r.ss idx p.0 in
        (refl, first, λ at. inr (fd, ap (λ n. some (fd, n)) (sym first))))

  -- What is opened, for the file `n`.
  open_segment-for :
      (opens : ℕ → Option ℕ) (n : ℕ)
      → Whenever (λ fd. fd ≡ opened_for n (opens n)) (open_segment rq heap n_segments opens n)
  unfolding open_segment
  open_segment-for opens n =
      Whenever-if (λ fd. fd ≡ opened_for n (opens n)) (ltb n n_segments) _ _ refl tt

  pub start_write-Same :
      (r : Receiver C) (opens : ℕ → Option ℕ)
      → Whenever (Same r) (start_write rq heap n_segments r opens)
  unfolding start_write
  start_write-Same r opens = let (status, idx) = get r.ss r.ss.min_file_nbr in by_status status idx
    where
      ready : Option ℕ → SegState → Run (Receiver C)
      ready idx s =
          if is_ready s.mode
          then (open_segment rq heap n_segments opens r.ss.min_file_nbr
              >>= start_output rq heap n_segments r idx s)
          else ok (record r { out_fd = none })

      ready-Same : (idx : Option ℕ) (s : SegState) → Whenever (Same r) (ready idx s)
      ready-Same idx s =
          Whenever-if (Same r) (is_ready s.mode) _ _
            (Whenever-then (λ fd. fd ≡ opened_for r.ss.min_file_nbr (opens r.ss.min_file_nbr))
              (Same r) (open_segment rq heap n_segments opens r.ss.min_file_nbr) _
              (open_segment-for opens r.ss.min_file_nbr)
              (λ fd for.
                subst (λ f. Whenever (Same r) (start_output rq heap n_segments r idx s f)) (sym for)
                  (start_output-Same r idx s (opens r.ss.min_file_nbr))))
            (refl, refl, λ at. inl refl)

      by_status :
          (status : Status) (idx : Option ℕ)
          → Whenever (Same r) (elim status [
            | ss_uninitialized ↦ ok (record r { out_fd = none })
            | _ ↦ (deref r.ss idx >>= ready idx)
          ])
      by_status ss_ok idx = Whenever-bind (Same r) (deref r.ss idx) _ (λ s. ready-Same idx s)
      by_status ss_uninitialized idx = (refl, refl, λ at. inl refl)
      by_status ss_below_min idx = Whenever-bind (Same r) (deref r.ss idx) _ (λ s. ready-Same idx s)
      by_status ss_above_max idx = Whenever-bind (Same r) (deref r.ss idx) _ (λ s. ready-Same idx s)

  take_packet-Same :
      (r : Receiver C) (idx : Option ℕ) (header : RouteHeader) (payload : List ℕ)
      → Whenever (Same r) (take_packet rq heap n_segments r idx header payload)
  unfolding take_packet
  take_packet-Same r idx header payload = Whenever-bind (Same r) (deref r.ss idx) _ (λ s.
      Whenever-bind (Same r) (add_packet s header payload) _ (λ s'.
        Same-window r (record r { ss = assign r.ss idx s' }) refl (min-assign r.ss idx s') refl))

  newest_file-Same :
      (r : Receiver C) (input : Input) (file_nbr : ℕ)
      → Whenever (Same r) (newest_file rq heap n_segments r input file_nbr)
  unfolding newest_file
  newest_file-Same r input file_nbr =
      let marked = record r {
        recv_file_nbr = some file_nbr;
        ss = mark_readytowrite r.ss file_nbr;
      } in
      let first = min-mark_readytowrite r.ss file_nbr in
      Whenever-if (Same r) (r.write_ok && is_none r.out_fd) _ _
        (Whenever-imp (Same marked) (Same r) _ (start_write-Same marked input.opens)
          (λ r' same. Same-trans r marked r' (Same-window r marked refl first refl) same))
        (Same-window r marked refl first refl)

  first_packet-Same :
      (r : Receiver C) (input : Input) (idx : Option ℕ) (header : RouteHeader)
      → Whenever (Same r) (first_packet rq heap n_segments r input idx header)
  unfolding first_packet
  first_packet-Same r input idx header =
      Whenever-bind (Same r) (Segment.init heap header.toi header.tos) _ (λ s.
        let assigned = assign r.ss idx s in
        Whenever-then (λ q. q.1.min_file_nbr ≡ assigned.min_file_nbr) (Same r)
          (mark_initialized assigned header.toi) _ (min-mark_initialized assigned header.toi)
          (λ q same.
            let begun = record r { started = true; ss = q.1 } in
            let first = same ∙ min-assign r.ss idx s in
            Whenever-if (Same r) (is_newer header.toi r.recv_file_nbr) _ _
              (Whenever-imp (Same begun) (Same r) _ (newest_file-Same begun input header.toi)
                (λ r' kept. Same-trans r begun r' (Same-window r begun refl first refl) kept))
              (Same-window r begun refl first refl)))

  pub recv_packet-Same :
      (r : Receiver C) (input : Input) (header : RouteHeader) (payload : List ℕ)
      → Whenever (Same r) (recv_packet rq heap n_segments r input header payload)
  unfolding recv_packet
  recv_packet-Same r input header payload =
      let (status, idx) = get r.ss header.toi in by_status status idx
    where
      by_status :
          (status : Status) (idx : Option ℕ)
          → Whenever (Same r) (elim status [
            | ss_uninitialized ↦
                (first_packet rq heap n_segments r input idx header >>= λ r'.
                take_packet rq heap n_segments r' idx header payload)
            | ss_ok ↦ take_packet rq heap n_segments r idx header payload
            | ss_below_min ↦ ok r
            | ss_above_max ↦ ok r
          ])
      by_status ss_ok idx = take_packet-Same r idx header payload
      by_status ss_uninitialized idx =
          Whenever-then (Same r) (Same r) (first_packet rq heap n_segments r input idx header) _
            (first_packet-Same r input idx header)
            (λ r₁ same.
              Whenever-imp (Same r₁) (Same r) _ (take_packet-Same r₁ idx header payload)
                (λ r' kept. Same-trans r r₁ r' same kept))
      by_status ss_below_min idx = (refl, refl, λ at. at)
      by_status ss_above_max idx = (refl, refl, λ at. at)
