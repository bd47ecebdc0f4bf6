-- ===== src/Receiver/Stall.antt =====
-- The loop while no packet of the first file of the window arrives.
use rq_route_demo.Base.{
  Bool, ℕ, ◌≡◌, ◌≢◌, refl, ap, sym, subst, ◌∙◌, arith, true, List, ok, Option, none, some, inl, inr,
  ◌==◌, if◌then◌else◌, ◌&&◌, Bool-cases, >>=-eq-ok,
}
use rq_route_demo.Memory.{Malloc}
use rq_route_demo.CodeBlock.Codec.{Codec}
use rq_route_demo.SegmentSet.{SegmentSet, slot, mark_readytowrite}
use rq_route_demo.SegmentSet.Window.{IsValid, InWindow, view, get_lem}
use rq_route_demo.SegmentSet.Marks.{map_marked}
use rq_route_demo.SegmentSet.Updates.{Updated, initialize-Updated, put-Updated, mark-Updated}
use rq_route_demo.Segment
use rq_route_demo.Segment.{SegState, RouteHeader, is_none}
use rq_route_demo.Receiver.{
  Receiver, Input, file_state, start_write, take_packet, first_packet, newest_file, recv_packet,
  assign, is_newer,
}
use rq_route_demo.Receiver.Steps.{take_packet-view, start_write-missing}

-- The first file of the window is `min`, nothing of it was received, no file is being written,
-- and the output so far is `written`.
pub record Stuck {C : Type 0} (min : ℕ) (written : List (Option ℕ × List ℕ × Bool)) (r : Receiver C)
    : Type 0 where
  pub valid : IsValid r.ss
  pub at_min : r.ss.min_file_nbr ≡ min
  pub unseen : view r.ss min ≡ none
  pub no_output : r.out_fd ≡ none
  pub same_output : r.output ≡ written

module _ {C : Type 0} (rq : Codec C) (heap : Malloc) (n_segments min : ℕ)
    (written : List (Option ℕ × List ℕ × Bool)) where
  pub start_write-Stuck :
      (r : Receiver C) (opens : ℕ → Option ℕ) {r' : Receiver C}
      → Stuck min written r
      → start_write rq heap n_segments r opens ≡ ok r'
      → r' ≡ r
  start_write-Stuck r opens {r'} v h =
      let missing : view r.ss r.ss.min_file_nbr ≡ none =
        subst (λ k. view r.ss k ≡ none) (sym v.at_min) v.unseen in
      ground (arith, v.no_output, start_write-missing rq heap n_segments r opens v.valid missing)

  -- The file of a packet is shown.
  record Opened (n idx : ℕ) (r : Receiver C) : Type 0 where
    stuck : Stuck min written r
    state : SegState
    shown : view r.ss n ≡ some state
    placed : idx ≡ slot r.ss n

  take_packet-Stuck :
      (n idx : ℕ) (r : Receiver C) (header : RouteHeader) (payload : List ℕ) {r' : Receiver C}
      → n ≢ min
      → Opened n idx r
      → take_packet rq heap n_segments r (some idx) header payload ≡ ok r'
      → Stuck min written r'
  take_packet-Stuck n idx r header payload other o h =
      let (s', runs, after) =
        take_packet-view rq heap n_segments r n header payload idx o.shown o.placed h in
      let u = put-Updated o.stuck.valid n s' o.state o.shown in
      rw (after, o.placed)
        (record {
          valid = u.valid;
          at_min = u.same_min ∙ o.stuck.at_min;
          unseen = u.seen min ∙ ground (arith, o.stuck.unseen);
          no_output = o.stuck.no_output;
          same_output = o.stuck.same_output;
        })

  self : (n : ℕ) (s : SegState) (o : Option SegState) → (if n == n then some s else o) ≡ some s
  self n s o = ground arith

  marked_shown :
      (n : ℕ) (s : SegState) (o : Option SegState)
      → o ≡ some s
      → (t : SegState) × (map_marked n o ≡ some t)
  marked_shown n s none e = cc
  marked_shown n s (some t) e = (_, refl)

  newest_file-Stuck :
      (n idx : ℕ) (r : Receiver C) (input : Input) {r' : Receiver C}
      → Opened n idx r
      → newest_file rq heap n_segments r input n ≡ ok r'
      → Opened n idx r'
  unfolding newest_file
  newest_file-Stuck n idx r input {r'} o h = elim (Bool-cases (r.write_ok && is_none r.out_fd)) [
    | inr waits ↦
        let same : marked ≡ r' = ground (arith, rw waits at h) in subst (Opened n idx) same opened
    | inl looks ↦
        subst (Opened n idx)
          (sym (start_write-Stuck marked input.opens opened.stuck (rw looks at h))) opened
  ]
    where
      marked : Receiver C
      marked = record r { ss = mark_readytowrite r.ss n; recv_file_nbr = some n }

      u : Updated r.ss (mark_readytowrite r.ss n) (λ m. map_marked n (view r.ss m))
      u = mark-Updated o.stuck.valid n

      opened : Opened n idx marked
      opened =
          let (t, seen) = marked_shown n o.state (view r.ss n) o.shown in
          record {
            stuck = record {
              valid = u.valid;
              at_min = u.same_min ∙ o.stuck.at_min;
              unseen = u.seen min ∙ ap (map_marked n) o.stuck.unseen;
              no_output = o.stuck.no_output;
              same_output = o.stuck.same_output;
            };
            state = t;
            shown = u.seen n ∙ seen;
            placed = o.placed ∙ sym (u.same_slot n);
          }

  first_packet-Stuck :
      (r : Receiver C) (input : Input) (header : RouteHeader) {r' : Receiver C}
      → Stuck min written r
      → header.toi ≢ min
      → InWindow r.ss header.toi
      → view r.ss header.toi ≡ none
      → first_packet rq heap n_segments r input (some (slot r.ss header.toi)) header ≡ ok r'
      → Opened header.toi (slot r.ss header.toi) r'
  unfolding first_packet assign
  first_packet-Stuck r input header {r'} v other inside unseen h =
      let n = header.toi in
      let (s, made, h₁) = >>=-eq-ok (Segment.init heap n header.tos) _ h in
      let (ss, marks, u) = initialize-Updated v.valid n s inside unseen in
      let opened : Opened n (slot r.ss n) (begun ss) = record {
        stuck = record {
          valid = u.valid;
          at_min = u.same_min ∙ v.at_min;
          unseen = u.seen min ∙ ground (arith, v.unseen);
          no_output = v.no_output;
          same_output = v.same_output;
        };
        state = s;
        shown = u.seen n ∙ self n s (view r.ss n);
        placed = sym (u.same_slot n);
      } in
      elim (Bool-cases (is_newer n r.recv_file_nbr)) [
        | inr known ↦
            let e : begun ss ≡ r' = ground (arith, rw marks at h₁) in
            subst (Opened n (slot r.ss n)) e opened
        | inl newer ↦
            newest_file-Stuck n (slot r.ss n) (begun ss) input opened (rw newer at (rw marks at h₁))
      ]
    where
      begun : SegmentSet SegState → Receiver C
      begun ss = record r { started = true; ss = ss }

  pub recv_packet-Stuck :
      (r : Receiver C) (input : Input) (header : RouteHeader) (payload : List ℕ) {r' : Receiver C}
      → Stuck min written r
      → header.toi ≢ min
      → recv_packet rq heap n_segments r input header payload ≡ ok r'
      → Stuck min written r'
  unfolding recv_packet
  recv_packet-Stuck r input header payload {r'} v other h = elim (get_lem v.valid header.toi) [
    | inl (_, e) ↦ let same : r ≡ r' = ground (arith, e) in subst (Stuck min written) same v
    | inr (inl (_, e)) ↦ let same : r ≡ r' = ground (arith, e) in subst (Stuck min written) same v
    | inr (inr (inl (inside, unseen, e))) ↦
        let (r₁, first, taken) =
          >>=-eq-ok (first_packet rq heap n_segments r input (some (slot r.ss header.toi)) header)
            (λ r₁. take_packet rq heap n_segments r₁ (some (slot r.ss header.toi)) header payload)
            {b = r'} (ground (arith, e)) in
        take_packet-Stuck header.toi (slot r.ss header.toi) r₁ header payload other
          (first_packet-Stuck r input header v other inside unseen first) taken
    | inr (inr (inr (inside, (s, seen, held), e))) ↦
        take_packet-Stuck header.toi (slot r.ss header.toi) r header payload {r' = r'} other
          (record { stuck = v; state = s; shown = seen; placed = refl }) (ground (arith, e))
  ]
