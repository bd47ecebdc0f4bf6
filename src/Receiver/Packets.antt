-- ===== src/Receiver/Packets.antt =====
-- The invariant of the loop, `task_start_write` and the receiving of a packet.
use rq_route_demo.Base.{
  ℕ, ◌<◌, ◌≡◌, refl, ap, sym, subst, ◌&&◌, ◌∙◌, arith, true, List, ok, Option, none, some, inl, inr,
  ◌==◌, if◌then◌else◌, Bool-cases, >>=-eq-ok, Option-cases,
}
use rq_route_demo.Memory.{Malloc}
use rq_route_demo.CodeBlock.Codec.{Codec}
use rq_route_demo.SegmentSet.{SegmentSet, slot, put, mark_readytowrite}
use rq_route_demo.SegmentSet.Window.{IsValid, InWindow, view, get_lem}
use rq_route_demo.SegmentSet.Marks.{map_marked}
use rq_route_demo.SegmentSet.Updates.{initialize-Updated, put-Updated, mark-Updated}
use rq_route_demo.Segment
use rq_route_demo.Segment.{
  SegState, Mode, receiving, ready_to_write, writing, RouteHeader, Written, is_none, free,
  write_more,
}
use rq_route_demo.Segment.Keeps.{init_keeps, add_packet_keeps, prepare_output_keeps}
use rq_route_demo.Receiver.{
  Receiver, Input, Datagram, packet, recv_error, short, start_write, take_packet, first_packet,
  file_state, newest_file, recv_packet, assign, is_newer,
}
use rq_route_demo.Receiver.Steps.{take_packet-view, start_write-view, start_write-missing}
use rq_route_demo.Receiver.Invariant.{Inv, put-Inv, initialize-Inv, newer-Inv}

module _ {C : Type 0} (rq : Codec C) (heap : Malloc) (n_segments : ℕ) where
  abbrev pub Holds : Receiver C → Type 0
  Holds r = Inv n_segments r.ss r.recv_file_nbr

  -- What an operation leaves of the window: every file that was shown is shown, in its place.
  pub record Shows (ss ss' : SegmentSet SegState) : Type 0 where
    pub same_slot : (m : ℕ) → slot ss' m ≡ slot ss m
    pub shown : (m : ℕ) (s : SegState) → view ss m ≡ some s → (t : SegState) × (view ss' m ≡ some t)

  Shows-refl : (ss : SegmentSet SegState) → Shows ss ss
  Shows-refl ss = record { same_slot = λ m. refl; shown = λ m s e. (s, e) }

  Shows-put :
      {ss : SegmentSet SegState} (v : IsValid ss) (n : ℕ) (s s' : SegState)
      → view ss n ≡ some s
      → Shows ss (put ss (slot ss n) s')
  Shows-put {ss} v n s s' e =
      let u = put-Updated v n s' s e in record { same_slot = u.same_slot; shown = still }
    where
      still :
          (m : ℕ) (t : SegState)
          → view ss m ≡ some t
          → (t' : SegState) × (view (put ss (slot ss n) s') m ≡ some t')
      still m t h = elim (Bool-cases (m == n)) [
        | inl same ↦ (s', rw same at ((put-Updated v n s' s e).seen m))
        | inr other ↦ (t, rw other at ((put-Updated v n s' s e).seen m) ∙ h)
      ]

  -- `task_start_write` keeps the invariant, and every file shown.
  pub start_write-Holds :
      (r : Receiver C) (opens : ℕ → Option ℕ) {r' : Receiver C}
      → Holds r
      → start_write rq heap n_segments r opens ≡ ok r'
      → Holds r' × Shows r.ss r'.ss
  start_write-Holds r opens {r'} v h = elim (Option-cases (view r.ss r.ss.min_file_nbr)) [
    | inl missing ↦
        let e : record r { out_fd = none } ≡ r' =
          ground (arith, start_write-missing rq heap n_segments r opens v.valid missing) in
        rw (← e) (v, Shows-refl r.ss)
    | inr (s, e) ↦ elim (start_write-view rq heap n_segments r opens v.valid e h) [
      | inl same ↦ rw same (v, Shows-refl r.ss)
      | inr (ready, (fd, s', mem, runs, after)) ↦
          let (number, mode) = prepare_output_keeps rq heap s fd r.mem runs in
          let (numbered, old) = v.fits r.ss.min_file_nbr s e in
          let before = old (λ q. cc) in
          rw after (
            put-Inv v r.ss.min_file_nbr s s' e (number ∙ numbered, λ q. before),
            Shows-put v.valid r.ss.min_file_nbr s s' e,
          )
    ]
  ]

  -- The file of packet `n` is shown in place `idx`, by a state that keeps the invariant.
  record Opened (n idx : ℕ) (r : Receiver C) : Type 0 where
    holds : Holds r
    state : SegState
    shown : view r.ss n ≡ some state
    placed : idx ≡ slot r.ss n

  self : (n : ℕ) (s : SegState) (o : Option SegState) → (if n == n then some s else o) ≡ some s
  self n s o = ground arith

  unmarked : (n : ℕ) (s : SegState) → s.file_nbr ≡ n → map_marked n (some s) ≡ some s
  unmarked n s e = ground arith

  take_packet-Holds :
      (n idx : ℕ) (r : Receiver C) (header : RouteHeader) (payload : List ℕ) {r' : Receiver C}
      → Opened n idx r
      → take_packet rq heap n_segments r (some idx) header payload ≡ ok r'
      → Holds r'
  take_packet-Holds n idx r header payload o h =
      let (s', runs, after) =
        take_packet-view rq heap n_segments r n header payload idx o.shown o.placed h in
      let (number, mode, before, _) = add_packet_keeps o.state header payload runs in
      let (numbered, _) = o.holds.fits n o.state o.shown in
      rw (after, o.placed)
        (put-Inv o.holds n o.state s' o.shown (number ∙ numbered, λ q. absurd (q (mode ∙ before))))

  -- The marking that a newer file brings.
  newest_file-Opened :
      (n idx : ℕ) (r : Receiver C) (input : Input) {r' : Receiver C}
      → Opened n idx (record r { ss = mark_readytowrite r.ss n; recv_file_nbr = some n })
      → newest_file rq heap n_segments r input n ≡ ok r'
      → Opened n idx r'
  unfolding newest_file
  newest_file-Opened n idx r input {r'} o h = elim (Bool-cases (r.write_ok && is_none r.out_fd)) [
    | inr waits ↦
        let same : marked ≡ r' = ground (arith, rw waits at h) in subst (Opened n idx) same o
    | inl free_to_write ↦
        let (holds, shows) = start_write-Holds marked input.opens o.holds (rw free_to_write at h) in
        let (t, seen) = shows.shown n o.state o.shown in
        record {
          holds = holds;
          state = t;
          shown = seen;
          placed = o.placed ∙ sym (shows.same_slot n);
        }
  ]
    where
      marked : Receiver C
      marked = record r { ss = mark_readytowrite r.ss n; recv_file_nbr = some n }

  first_packet-Opened :
      (r : Receiver C) (input : Input) (header : RouteHeader) {r' : Receiver C}
      → Holds r
      → InWindow r.ss header.toi
      → view r.ss header.toi ≡ none
      → header.toi < n_segments
      → first_packet rq heap n_segments r input (some (slot r.ss header.toi)) header ≡ ok r'
      → Opened header.toi (slot r.ss header.toi) r'
  unfolding first_packet assign
  first_packet-Opened r input header {r'} v inside unseen below h =
      let n = header.toi in
      let (s, made, h₁) = >>=-eq-ok (Segment.init heap n header.tos) _ h in
      let (numbered, mode) = init_keeps heap n header.tos made in
      let (ss, marks, u) = initialize-Updated v.valid n s inside unseen in
      elim (Bool-cases (is_newer n r.recv_file_nbr)) [
        | inr known ↦
            let e : begun ss ≡ r' = ground (arith, rw marks at h₁) in
            subst (Opened n (slot r.ss n)) e (record {
              holds = initialize-Inv v n s numbered mode known u;
              state = s;
              shown = u.seen n ∙ self n s (view r.ss n);
              placed = sym (u.same_slot n);
            })
        | inl newer ↦
            let w = mark-Updated u.valid n in
            newest_file-Opened n (slot r.ss n) (begun ss) input
              (record {
                holds = newer-Inv v n s numbered mode newer inside.0 below u;
                state = s;
                shown =
                    w.seen n
                    ∙ (ap (map_marked n) (u.seen n ∙ self n s (view r.ss n))
                        ∙ unmarked n s numbered);
                placed = sym (u.same_slot n) ∙ sym (w.same_slot n);
              })
              (rw newer at (rw marks at h₁))
      ]
    where
      begun : SegmentSet SegState → Receiver C
      begun ss = record r { started = true; ss = ss }

  -- The packets of an input are of files that exist.
  abbrev pub IsOfFile : Datagram → Type 0
  IsOfFile recv_error = Unit {0}
  IsOfFile short = Unit {0}
  IsOfFile (packet header payload) = header.toi < n_segments

  pub recv_packet-Holds :
      (r : Receiver C) (input : Input) (header : RouteHeader) (payload : List ℕ) {r' : Receiver C}
      → Holds r
      → header.toi < n_segments
      → recv_packet rq heap n_segments r input header payload ≡ ok r'
      → Holds r'
  unfolding recv_packet
  recv_packet-Holds r input header payload {r'} v below h = elim (get_lem v.valid header.toi) [
    | inl (_, e) ↦ let same : r ≡ r' = ground (arith, e) in subst Holds same v
    | inr (inl (_, e)) ↦ let same : r ≡ r' = ground (arith, e) in subst Holds same v
    | inr (inr (inl (inside, unseen, e))) ↦
        let (r₁, first, taken) =
          >>=-eq-ok (first_packet rq heap n_segments r input (some (slot r.ss header.toi)) header)
            (λ r₁. take_packet rq heap n_segments r₁ (some (slot r.ss header.toi)) header payload)
            {b = r'} (ground (arith, e)) in
        take_packet-Holds header.toi (slot r.ss header.toi) r₁ header payload
          (first_packet-Opened r input header v inside unseen below first) taken
    | inr (inr (inr (inside, (s, seen, held), e))) ↦
        take_packet-Holds header.toi (slot r.ss header.toi) r header payload {r' = r'}
          (record { holds = v; state = s; shown = seen; placed = refl }) (ground (arith, e))
  ]
