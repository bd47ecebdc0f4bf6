-- ===== src/Receiver/Order.antt =====
-- The order in which the loop writes the files.
use rq_route_demo.Base.{
  ℕ, ◌+◌, ◌≡◌, ◌≢◌, refl, sym, some, if◌then◌else◌, Bool, false, Bool-cases, fault, inl, inr, ap,
  ◌∙◌, arith, true, ℤ, pos, negsuc, ◌&&◌, Run, List, [], ◌∷◌, ◌++◌, Option, none, ok, assert, ◌==◌,
  not, Whenever, Whenever-bind, Whenever-then, Whenever-ok, Whenever-if, Whenever-imp,
}
use rq_route_demo.Memory.{Malloc}
use rq_route_demo.CodeBlock.Codec.{Codec}
use rq_route_demo.SegmentSet.{SegmentSet, is_ok, get, inc_min_file_nbr}
use rq_route_demo.SegmentSet.Window.{min-init, min-inc_min_file_nbr}
use rq_route_demo.Segment
use rq_route_demo.Segment.{
  SegState, RouteHeader, Written, add_packet, prepare_output, write_more, is_ready, is_none,
}
use rq_route_demo.Receiver.{
  Receiver, open_file, choose_idle, is_positive, Input, Datagram, Task, Outcome, packet, recv_error,
  short, task_recv, task_write, task_start_write, task_signal_ready, give_up, done, stopped,
  running, file_state, deref, assign, start_write, after_write_more, write_task, recv_packet,
  recv_task, choose, perform, iterate, run, start,
}
use rq_route_demo.Receiver.Unwritten.{min-assign, At, Same, start_write-Same, recv_packet-Same}

-- Each call of `segstate_write_more` wrote to the file that was due: the first one to file `lo`, and the
-- next one to the same file while there was more of it, and else to the file behind it. File `hi` is due
-- next.
abbrev pub Consecutive : ℕ → ℕ → List (Option ℕ × List ℕ × Bool) → Type 0
Consecutive lo hi [] = lo ≡ hi
Consecutive lo hi ((n, bytes, more) ∷ l) =
    (n ≡ some lo) × Consecutive (if more then lo else lo + 1) hi l

Consecutive-append :
    (lo hi : ℕ) (l : List (Option ℕ × List ℕ × Bool)) (n : Option ℕ) (bytes : List ℕ) (more : Bool)
    → Consecutive lo hi l
    → n ≡ some hi
    → Consecutive lo (if more then hi else hi + 1) (l ++ (n, bytes, more) ∷ [])
Consecutive-append lo hi [] n bytes more c e =
    (e ∙ ap some (sym c), ap (λ k. if more then k else k + 1) c)
Consecutive-append lo hi ((m, b, again) ∷ l) n bytes more (here, c) e =
    (here, Consecutive-append (if again then lo else lo + 1) hi l n bytes more c e)

module _ {C : Type 0} where
  -- The files were written one after the other, from file 0 to the first file of the window, which is the
  -- one that is opened, if any is.
  abbrev pub InOrder : Receiver C → Type 0
  InOrder r = Consecutive 0 r.ss.min_file_nbr r.output × At r

  Same-InOrder : (r r' : Receiver C) → InOrder r → Same r r' → InOrder r'
  Same-InOrder r r' (c, at) (out, first, keeps) = (rw (out, first) c, keeps at)

  -- The same of how an iteration ends.
  abbrev pub EndsInOrder : Outcome C → Type 0
  EndsInOrder done = Unit {0}
  EndsInOrder stopped = Unit {0}
  EndsInOrder (running r) = InOrder r

Whenever-all : {A : Type 0} {P : A → Type 0} (m : Run A) → ((a : A) → P a) → Whenever P m
Whenever-all (fault why) h = tt
Whenever-all (ok a) h = h a

module _ {C : Type 0} (rq : Codec C) (heap : Malloc) (n_segments : ℕ) where
  after_write_more-InOrder :
      (r : Receiver C) (input : Input) (idx : Option ℕ) (w : Written C)
      → InOrder r
      → is_none r.out_fd ≡ false
      → Whenever InOrder (after_write_more rq heap n_segments r input idx w)
  unfolding after_write_more
  after_write_more-InOrder r input idx w (c, inl closed) opened = absurd (ground (arith, closed))
  after_write_more-InOrder r input idx w (c, inr (fd, at)) opened = elim (Bool-cases w.more) [
    | inl more ↦ rw more (
      rw (min-assign r.ss idx w.state) (longer true),
      inr (fd, at ∙ ap (λ n. some (fd, n)) (sym (min-assign r.ss idx w.state))),
    )
    | inr finished ↦ rw finished (
        Whenever-imp (Same next) InOrder _ (start_write-Same rq heap n_segments next input.opens)
          (λ r' same. Same-InOrder next r' moved same))
  ]
    where
      freed : SegmentSet SegState
      freed = assign r.ss idx (Segment.free w.state)

      next : Receiver C
      next = record r {
        ss = inc_min_file_nbr freed;
        mem = w.mem;
        output = r.output ++ (open_file r.out_fd, w.bytes, false) ∷ [];
        out_fd = none;
      }

      longer :
          (more : Bool)
          → Consecutive 0
              (if more then r.ss.min_file_nbr else r.ss.min_file_nbr + 1)
              (r.output ++ (open_file r.out_fd, w.bytes, more) ∷ [])
      longer more =
          Consecutive-append 0 r.ss.min_file_nbr r.output (open_file r.out_fd) w.bytes more c
            (ap open_file at)

      moved : InOrder next
      moved =
          let first : (inc_min_file_nbr freed).min_file_nbr ≡ r.ss.min_file_nbr + 1 =
            min-inc_min_file_nbr freed
            ∙ ap (λ n. n + 1) (min-assign r.ss idx (Segment.free w.state)) in
          (rw first (longer false), inl refl)

  write_task-InOrder :
      (r : Receiver C) (input : Input)
      → InOrder r
      → is_none r.out_fd ≡ false
      → Whenever InOrder (write_task rq heap n_segments r input)
  unfolding write_task
  write_task-InOrder r input a opened =
      let (status, idx) = get r.ss r.ss.min_file_nbr in
      Whenever-bind InOrder (assert (is_ok status)) _ (λ u.
        Whenever-bind InOrder (deref r.ss idx) _ (λ s.
          Whenever-bind InOrder (write_more rq s input.sink r.mem) _
            (λ w. after_write_more-InOrder r input idx w a opened)))

  recv_task-InOrder :
      (r : Receiver C) (input : Input) (d : Datagram)
      → InOrder r
      → Whenever EndsInOrder (recv_task rq heap n_segments r input d)
  unfolding recv_task
  recv_task-InOrder r input recv_error a = tt
  recv_task-InOrder r input short a = tt
  recv_task-InOrder r input (packet header payload) a =
      Whenever-then (Same r) EndsInOrder (recv_packet rq heap n_segments r input header payload) _
        (recv_packet-Same rq heap n_segments r input header payload)
        (λ r' same. Same-InOrder r r' a same)

  perform-InOrder :
      (r : Receiver C) (input : Input) (task : Task)
      → InOrder r
      → (task ≡ task_write → is_none r.out_fd ≡ false)
      → Whenever EndsInOrder (perform rq heap n_segments r input task)
  unfolding perform
  perform-InOrder r input give_up a opened = tt
  perform-InOrder r input task_recv a opened = recv_task-InOrder r input input.datagram a
  perform-InOrder r input task_write a opened =
      Whenever-then InOrder EndsInOrder (write_task rq heap n_segments r input) _
        (write_task-InOrder r input a (opened refl)) (λ r' b. b)
  perform-InOrder r input task_start_write a opened =
      let ready = record r { write_ok = true } in
      Whenever-then (Same ready) EndsInOrder (start_write rq heap n_segments ready input.opens) _
        (start_write-Same rq heap n_segments ready input.opens)
        (λ r' same. Same-InOrder r r' a same)
  perform-InOrder r input task_signal_ready a opened =
      Whenever-bind EndsInOrder (assert (not (is_none r.ready_fd))) _ (λ u. a)

  choose_idle-reads :
      (r : Receiver C) (input : Input) (rv : ℤ)
      → Whenever (λ task. task ≢ task_write) (choose_idle rq heap n_segments r input rv)
  unfolding choose_idle
  choose_idle-reads r input (negsuc e) = λ p. cc
  choose_idle-reads r input (pos rv) =
      Whenever-if Reads (rv == 0) _ _ (λ p. cc)
        (Whenever-if Reads (not r.started && (is_positive r.ready_fd && input.ready_set)) _ _
          (λ p. cc) (Whenever-bind Reads (assert input.sock_set) _ (λ u p. cc)))
    where
      Reads : Task → Type 0
      Reads task = task ≢ task_write

  -- A file is written only while one is open.
  choose-opened :
      (r : Receiver C) (input : Input)
      → Whenever
          (λ task. task ≡ task_write → is_none r.out_fd ≡ false)
          (choose rq heap n_segments r input)
  unfolding choose
  choose-opened r input = elim (Bool-cases (is_none r.out_fd)) [
    | inr opened ↦ Whenever-all (choose rq heap n_segments r input) (λ task e. opened)
    | inl closed ↦ rw closed (
        Whenever-imp (λ task. task ≢ task_write) (λ task. task ≡ task_write → true ≡ false) _
          (Whenever-if (λ task. task ≢ task_write)
            (r.started && (not r.write_ok && not input.clock_ok)) _ _ (λ p. cc)
            (choose_idle-reads r input input.rv))
          (λ task n e. absurd (n e)))
  ]

  iterate-InOrder :
      (r : Receiver C) (input : Input)
      → InOrder r
      → Whenever EndsInOrder (iterate rq heap n_segments r input)
  unfolding iterate
  iterate-InOrder r input a = Whenever-if EndsInOrder (r.ss.min_file_nbr == n_segments) _ _ tt (
      Whenever-then (λ task. task ≡ task_write → is_none r.out_fd ≡ false) EndsInOrder
        (choose rq heap n_segments r input) _ (choose-opened r input)
        (λ task opened. perform-InOrder r input task a opened))

  further :
      (rest : List Input)
      → ((r' : Receiver C) → InOrder r' → Whenever EndsInOrder (run rq heap n_segments r' rest))
      → (out : Outcome C) → EndsInOrder out
      → Whenever EndsInOrder (elim out [
        | done ↦ ok done
        | stopped ↦ ok stopped
        | running r' ↦ run rq heap n_segments r' rest
      ])
  further rest again done e = tt
  further rest again stopped e = tt
  further rest again (running r') e = again r' e

  run-EndsInOrder :
      (r : Receiver C) (inputs : List Input)
      → InOrder r
      → Whenever EndsInOrder (run rq heap n_segments r inputs)
  unfolding run
  run-EndsInOrder r [] a = a
  run-EndsInOrder r (input ∷ rest) a =
      Whenever-then EndsInOrder EndsInOrder (iterate rq heap n_segments r input) _
        (iterate-InOrder r input a)
        (λ out e. further rest (λ r' b. run-EndsInOrder r' rest b) out e)

  -- Whatever the system calls answer and whatever packets arrive: if each call of `segstate_write_more` so
  -- far was for the file that was due, which is the same file as before while there was more of it and else
  -- the one behind it, from file 0 to the first file of the window, and that file is the one that is open,
  -- if any is, and the loop still runs after some iterations, so it is then.
  pub run-InOrder :
      (r : Receiver C) (inputs : List Input) {r' : Receiver C}
      → InOrder r
      → run rq heap n_segments r inputs ≡ ok (running r')
      → InOrder r'
  run-InOrder r inputs a h = Whenever-ok EndsInOrder (run-EndsInOrder r inputs a) h

  -- So it is before the first iteration.
  pub start-InOrder :
      (zeroed : SegState) (mem : C) (ready_fd : Option ℕ) → InOrder (start zeroed mem ready_fd)
  unfolding start
  start-InOrder zeroed mem ready_fd = (sym (min-init zeroed 0), inl refl)
