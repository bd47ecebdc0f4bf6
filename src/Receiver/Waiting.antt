-- ===== src/Receiver/Waiting.antt =====
-- Any number of iterations of the loop while no packet of the first file of the window arrives.
use rq_route_demo.Base.{
  Bool, ℕ, refl, ◌<◌, ◌≡◌, ◌≢◌, sym, ap, subst, ◌∙◌, arith, true, false, List, [], ◌∷◌, ok, Run,
  Option, none, ◌==◌, >>=-eq-ok, ℤ, pos, negsuc,
}
use rq_route_demo.Memory.{Malloc}
use rq_route_demo.CodeBlock.Codec.{Codec}
use rq_route_demo.SegmentSet.Window.{init-IsValid, min-init, view-init}
use rq_route_demo.Segment.{SegState}
use rq_route_demo.Receiver.{
  Receiver, Input, Datagram, packet, recv_error, short, Task, task_recv, task_write,
  task_start_write, task_signal_ready, give_up, Outcome, done, stopped, running, recv_packet,
  recv_task, start_write, choose, choose_idle, perform, iterate, run, start,
}
use rq_route_demo.Receiver.Stall.{Stuck, start_write-Stuck, recv_packet-Stuck}

-- A packet of another file than `min`, or none.
abbrev pub IsOther : ℕ → Datagram → Type 0
IsOther min recv_error = Unit {0}
IsOther min short = Unit {0}
IsOther min (packet header payload) = header.toi ≢ min

abbrev pub AllOther : ℕ → List Input → Type 0
AllOther min [] = Unit {0}
AllOther min (input ∷ rest) = IsOther min input.datagram × AllOther min rest

-- The loop goes on as stuck as it was, or an error has ended it.
abbrev pub StillStuck : {C : Type 0} → ℕ → List (Option ℕ × List ℕ × Bool) → Outcome C → Type 0
StillStuck min written done = ⊥
StillStuck min written stopped = Unit {0}
StillStuck min written (running r) = Stuck min written r

module _ {C : Type 0} (rq : Codec C) (heap : Malloc) (n_segments min : ℕ)
    (written : List (Option ℕ × List ℕ × Bool)) where
  choose_idle-ne-write :
      (r : Receiver C) (input : Input) (rv : ℤ)
      → choose_idle rq heap n_segments r input rv ≢ ok task_write
  unfolding choose_idle
  choose_idle-ne-write r input (negsuc e) h = ground arith
  choose_idle-ne-write r input (pos rv) h = ground arith

  choose-ne-write :
      (r : Receiver C) (input : Input)
      → r.out_fd ≡ none
      → choose rq heap n_segments r input ≢ ok task_write
  unfolding choose
  choose-ne-write r input e h = ground (arith, choose_idle-ne-write r input input.rv)

  recv_task-StillStuck :
      (r : Receiver C) (input : Input) (d : Datagram) (out : Outcome C)
      → Stuck min written r
      → IsOther min d
      → recv_task rq heap n_segments r input d ≡ ok out
      → StillStuck min written out
  unfolding recv_task
  recv_task-StillStuck r input recv_error out v other h =
      let e : stopped ≡ out = ground arith in subst (StillStuck min written) e tt
  recv_task-StillStuck r input short out v other h = absurd (ground arith)
  recv_task-StillStuck r input (packet header payload) out v other h =
      let (r', runs, same) =
        >>=-eq-ok (recv_packet rq heap n_segments r input header payload) (λ r'. ok (running r'))
          {b = out} h in
      let e : running r' ≡ out = ground arith in
      subst (StillStuck min written) e
        (recv_packet-Stuck rq heap n_segments min written r input header payload v other runs)

  with_write_ok :
      (r : Receiver C) → Stuck min written r → Stuck min written (record r { write_ok = true })
  with_write_ok r v = record {
    valid = v.valid;
    at_min = v.at_min;
    unseen = v.unseen;
    no_output = v.no_output;
    same_output = v.same_output;
  }

  perform-StillStuck :
      (r : Receiver C) (input : Input) (task : Task) (out : Outcome C)
      → Stuck min written r
      → IsOther min input.datagram
      → task ≢ task_write
      → perform rq heap n_segments r input task ≡ ok out
      → StillStuck min written out
  unfolding perform
  perform-StillStuck r input give_up out v other ne h =
      let e : stopped ≡ out = ground arith in subst (StillStuck min written) e tt
  perform-StillStuck r input task_recv out v other ne h =
      recv_task-StillStuck r input input.datagram out v other h
  perform-StillStuck r input task_write out v other ne h = absurd (ne (λ i. task_write))
  perform-StillStuck r input task_start_write out v other ne h =
      let looked = with_write_ok r v in
      let (r', runs, same) =
        >>=-eq-ok (start_write rq heap n_segments (record r { write_ok = true }) input.opens)
          (λ r'. ok (running r')) {b = out} h in
      let kept =
        start_write-Stuck rq heap n_segments min written (record r { write_ok = true }) input.opens
          looked runs in
      let e : running r' ≡ out = ground arith in
      subst (StillStuck min written) e (subst (Stuck min written) (sym kept) looked)
  perform-StillStuck r input task_signal_ready out v other ne h =
      let e : running (record r { ready_fd = none }) ≡ out = ground arith in
      subst (StillStuck min written) e (record {
        valid = v.valid;
        at_min = v.at_min;
        unseen = v.unseen;
        no_output = v.no_output;
        same_output = v.same_output;
      })

  iterate-StillStuck :
      (r : Receiver C) (input : Input) (out : Outcome C)
      → min < n_segments
      → Stuck min written r
      → IsOther min input.datagram
      → iterate rq heap n_segments r input ≡ ok out
      → StillStuck min written out
  unfolding iterate
  iterate-StillStuck r input out some_left v other h =
      let left : (r.ss.min_file_nbr == n_segments) ≡ false = ground (arith, v.at_min) in
      let (task, chosen, performed) =
        >>=-eq-ok (choose rq heap n_segments r input) (perform rq heap n_segments r input) {b = out}
          (rw left at h) in
      perform-StillStuck r input task out v other
        (λ q. choose-ne-write r input v.no_output (chosen ∙ ap ok q)) performed

  rest_of_run : Outcome C → List Input → Run (Outcome C)
  rest_of_run out rest = elim out [
    | done ↦ ok done
    | stopped ↦ ok stopped
    | running r' ↦ run rq heap n_segments r' rest
  ]

  rest_of_run-StillStuck :
      (now : Outcome C) (rest : List Input) (out : Outcome C)
      → StillStuck min written now
      → ((r : Receiver C)
          → Stuck min written r
          → run rq heap n_segments r rest ≡ ok out
          → StillStuck min written out)
      → rest_of_run now rest ≡ ok out
      → StillStuck min written out
  unfolding rest_of_run
  rest_of_run-StillStuck done rest out v again h = absurd v
  rest_of_run-StillStuck stopped rest out v again h =
      let e : stopped ≡ out = ground arith in subst (StillStuck min written) e tt
  rest_of_run-StillStuck (running r) rest out v again h = again r v h

  -- If the first file `min` of the window was not initialized and is one of the files of the list, no
  -- file is being written, only packets of other files arrive, and the iterations run without a fault:
  -- the loop was ended by an error, or the window still begins at `min`, not initialized, and nothing
  -- more was written.
  pub run-StillStuck :
      (r : Receiver C) (inputs : List Input) (out : Outcome C)
      → min < n_segments
      → Stuck min written r
      → AllOther min inputs
      → run rq heap n_segments r inputs ≡ ok out
      → StillStuck min written out
  unfolding run rest_of_run
  run-StillStuck r [] out some_left v all h =
      let e : running r ≡ out = ground arith in subst (StillStuck min written) e v
  run-StillStuck r (input ∷ rest) out some_left v (other, all) h =
      let (now, runs, after) =
        >>=-eq-ok (iterate rq heap n_segments r input) (λ now. rest_of_run now rest) {b = out} h in
      rest_of_run-StillStuck now rest out (iterate-StillStuck r input now some_left v other runs)
        (λ r' v' h'. run-StillStuck r' rest out some_left v' all h') after

-- Before the loop, the window begins at file 0, of which nothing was received.
pub start-Stuck :
    {C : Type 0} (zeroed : SegState) (mem : C) (ready_fd : Option ℕ)
    → Stuck 0 [] (start zeroed mem ready_fd)
unfolding start
start-Stuck zeroed mem ready_fd = record {
  valid = init-IsValid zeroed 0;
  at_min = min-init zeroed 0;
  unseen = view-init zeroed 0 0;
  no_output = refl;
  same_output = refl;
}
