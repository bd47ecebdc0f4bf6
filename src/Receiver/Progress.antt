-- ===== src/Receiver/Progress.antt =====
-- How far the loop of `receive_write` gets in the list of files.
use rq_route_demo.Base.{
  ℕ, ◌<◌, ◌≡◌, ◌≢◌, arith, List, [], ◌∷◌, ok, Run, Option, none, some, inl, inr, ◌==◌, Bool-cases,
  >>=-eq-ok,
}
use rq_route_demo.Memory.{Malloc}
use rq_route_demo.CodeBlock.Codec.{Codec}
use rq_route_demo.SegmentSet.{SegmentSet}
use rq_route_demo.SegmentSet.Window.{init-IsValid, min-init, view-init}
use rq_route_demo.Segment.{SegState}
use rq_route_demo.Receiver.{
  Receiver, Input, Datagram, Task, Outcome, packet, recv_error, short, task_recv, task_write,
  task_start_write, task_signal_ready, give_up, done, stopped, running, file_state, recv_task,
  perform, choose, iterate, run, start,
}
use rq_route_demo.Receiver.Invariant.{Inv}
use rq_route_demo.Receiver.Packets.{Holds, IsOfFile}
use rq_route_demo.Receiver.Tasks.{perform-Holds}

module _ {C : Type 0} (rq : Codec C) (heap : Malloc) (n_segments : ℕ) where
  -- There is a file that is not written yet.
  not_all_written :
      (ss : SegmentSet SegState) (recv : Option ℕ)
      → 0 < n_segments
      → Inv n_segments ss recv
      → ss.min_file_nbr ≢ n_segments
  not_all_written ss none some_files v = omega (arith, v.reached)
  not_all_written ss (some m) some_files v = omega (arith, v.reached, v.below)

  -- What holds of the result of an iteration: the loop stopped on an error, or it goes on.
  abbrev NotDone : Outcome C → Type 0
  NotDone done = ⊥
  NotDone stopped = Unit {0}
  NotDone (running r) = Holds rq heap n_segments r

  recv_task-ne-done :
      (r : Receiver C) (input : Input) (d : Datagram)
      → recv_task rq heap n_segments r input d ≢ ok done
  unfolding recv_task
  recv_task-ne-done r input recv_error h = ground arith
  recv_task-ne-done r input short h = ground arith
  recv_task-ne-done r input (packet header payload) h = ground arith

  perform-ne-done :
      (r : Receiver C) (input : Input) (task : Task)
      → perform rq heap n_segments r input task ≢ ok done
  unfolding perform
  perform-ne-done r input give_up h = ground arith
  perform-ne-done r input task_recv h = recv_task-ne-done r input input.datagram h
  perform-ne-done r input task_write h = ground arith
  perform-ne-done r input task_start_write h = ground arith
  perform-ne-done r input task_signal_ready h = ground arith

  performed-NotDone :
      (r : Receiver C) (input : Input) (task : Task) (out : Outcome C)
      → Holds rq heap n_segments r
      → IsOfFile rq heap n_segments input.datagram
      → perform rq heap n_segments r input task ≡ ok out
      → NotDone out
  performed-NotDone r input task done v known h = perform-ne-done r input task h
  performed-NotDone r input task stopped v known h = tt
  performed-NotDone r input task (running r') v known h =
      perform-Holds rq heap n_segments r input task v known h

  iterate-NotDone :
      (r : Receiver C) (input : Input) (out : Outcome C)
      → 0 < n_segments
      → Holds rq heap n_segments r
      → IsOfFile rq heap n_segments input.datagram
      → iterate rq heap n_segments r input ≡ ok out
      → NotDone out
  unfolding iterate
  iterate-NotDone r input out some_files v known h =
      elim (Bool-cases (r.ss.min_file_nbr == n_segments)) [
        | inl all ↦ absurd (not_all_written r.ss r.recv_file_nbr some_files v (ground arith))
        | inr left ↦
            let (task, chosen, performed) =
              >>=-eq-ok (choose rq heap n_segments r input) (perform rq heap n_segments r input)
                {b = out} (rw left at h) in
            performed-NotDone r input task out v known performed
      ]

  abbrev pub AllOfFiles : List Input → Type 0
  AllOfFiles [] = Unit {0}
  AllOfFiles (input ∷ rest) = IsOfFile rq heap n_segments input.datagram × AllOfFiles rest

  -- The loop behind its first iteration.
  rest_of_run : Outcome C → List Input → Run (Outcome C)
  rest_of_run out rest = elim out [
    | done ↦ ok done
    | stopped ↦ ok stopped
    | running r' ↦ run rq heap n_segments r' rest
  ]

  rest_of_run-ne-done :
      (out : Outcome C) (rest : List Input)
      → NotDone out
      → ((r : Receiver C) → Holds rq heap n_segments r → run rq heap n_segments r rest ≢ ok done)
      → rest_of_run out rest ≢ ok done
  unfolding rest_of_run
  rest_of_run-ne-done done rest holds again h = absurd holds
  rest_of_run-ne-done stopped rest holds again h = ground arith
  rest_of_run-ne-done (running r) rest holds again h = again r holds h

  run-ne-done :
      (r : Receiver C) (inputs : List Input)
      → 0 < n_segments
      → Holds rq heap n_segments r
      → AllOfFiles inputs
      → run rq heap n_segments r inputs ≢ ok done
  unfolding run rest_of_run
  run-ne-done r [] some_files v known h = ground arith
  run-ne-done r (input ∷ rest) some_files v (known, all) h =
      let (out, runs, after) =
        >>=-eq-ok (iterate rq heap n_segments r input) (λ out. rest_of_run out rest) {b = done} h in
      rest_of_run-ne-done out rest (iterate-NotDone r input out some_files v known runs)
        (λ r' holds. run-ne-done r' rest some_files holds all) after

  start-Holds :
      (zeroed : SegState) (mem : C) (ready_fd : Option ℕ)
      → Holds rq heap n_segments (start zeroed mem ready_fd)
  unfolding start
  start-Holds zeroed mem ready_fd = record {
    valid = init-IsValid zeroed 0;
    fits = λ n s e. absurd (ground (arith, view-init zeroed 0 n));
    reached = min-init zeroed 0;
    below = tt;
  }

  -- Started with at least one file, the loop never ends because all files are written, whatever the
  -- system calls answer and for any number of iterations, if every packet is of a file of the list.
  pub run-start-ne-done :
      (zeroed : SegState) (mem : C) (ready_fd : Option ℕ) (inputs : List Input)
      → 0 < n_segments
      → AllOfFiles inputs
      → run rq heap n_segments (start zeroed mem ready_fd) inputs ≢ ok done
  run-start-ne-done zeroed mem ready_fd inputs some_files known =
      run-ne-done (start zeroed mem ready_fd) inputs some_files (start-Holds zeroed mem ready_fd)
        known
