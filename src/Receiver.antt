-- ===== src/Receiver.antt =====
-- receiver/receiver.c: the loop of `receive_write`, one iteration at a time. What the system calls of
-- an iteration answer is its input. The value -1 of `out_fd`, `ready_fd` and `recv_file_nbr` is `none`.
-- The deadline that the loop computes only sets the timeout of `pselect`.
pub mod Steps
pub mod Invariant
pub mod Packets
pub mod Tasks
pub mod Progress
pub mod Stall
pub mod Waiting
mod Tests
pub mod Late
pub mod Unwritten
pub mod Order
pub mod Failed
pub mod Main
use rq_route_demo.Base.{
  ℕ, ◌+◌, Bool, true, false, ◌&&◌, not, List, [], ◌∷◌, ◌++◌, get_elem?, Option, none, some, Run, ok,
  fault, ◌>>=◌, ◌>>◌, assert, out_of_bounds, ltb, ◌==◌, ◌||◌, if◌then◌else◌, ℤ, pos, negsuc,
}
use rq_route_demo.Memory.{Malloc}
use rq_route_demo.CodeBlock.Codec.{Codec}
use rq_route_demo.SegmentSet.{
  SegmentSet, FileState, Status, ss_ok, ss_uninitialized, ss_below_min, ss_above_max, is_ok,
  inc_min_file_nbr, get, mark_initialized, mark_readytowrite, put,
}
use rq_route_demo.SegmentSet
use rq_route_demo.Segment
use rq_route_demo.Segment.{
  SegState, RouteHeader, Written, add_packet, prepare_output, write_more, is_receiving, is_ready,
  is_none,
}

instance abbrev pub file_state : FileState SegState
file_state = record {
  is_receiving = λ s. is_receiving s.mode;
  file_nbr = λ s. s.file_nbr;
  ready_for_write = Segment.ready_for_write;
}

-- The variables of `receive_write`. The descriptor `out_fd` stands with the number of the file whose name
-- was opened for it. Then all that was written so far: for each call of `segstate_write_more`, the file
-- that was open, the bytes that `write` took, and the result.
pub record Receiver (C : Type 0) : Type 0 where
  pub ss : SegmentSet SegState
  pub out_fd : Option (ℕ × ℕ)
  pub mem : C
  pub started : Bool
  pub write_ok : Bool
  pub recv_file_nbr : Option ℕ
  pub ready_fd : Option ℕ
  pub output : List (Option ℕ × List ℕ × Bool)

-- What `recv` gives: an error, fewer bytes than a header has, or a packet.
pub data Datagram : Type 0 where
  recv_error short : Datagram
  packet : RouteHeader → List ℕ → Datagram

-- The answers of the system calls of one iteration: `clock_gettime` and `pselect` with its sets,
-- `recv`, `open` for each file, and `write`.
pub record Input : Type 0 where
  pub clock_ok : Bool
  pub rv : ℤ
  pub sock_set : Bool
  pub ready_set : Bool
  pub datagram : Datagram
  pub opens : ℕ → Option ℕ
  pub sink : ℕ → ℤ

-- `nexttask`; `give_up` is a `return` before a task is chosen.
pub data Task : Type 0 where
  task_recv task_write task_start_write task_signal_ready give_up : Task

pub data Outcome (C : Type 0) : Type 0 where
  -- all segments are written
  done : Outcome C
  -- an error ended the loop
  stopped : Outcome C
  running : Receiver C → Outcome C

-- `*S` for the pointer that `segstateset_get` gave
pub deref : SegmentSet SegState → Option ℕ → Run SegState
deref ss none = fault out_of_bounds
deref ss (some idx) = elim (get_elem? ss.states idx) [ none ↦ fault out_of_bounds | some s ↦ ok s ]

-- A write of `*S`.
pub assign : SegmentSet SegState → Option ℕ → SegState → SegmentSet SegState
assign ss none s = ss
assign ss (some idx) s = put ss idx s

-- A descriptor that was opened, or not, for a file.
abbrev pub opened_for : ℕ → Option ℕ → Option (ℕ × ℕ)
opened_for n none = none
opened_for n (some fd) = some (fd, n)

-- The file that is open.
abbrev pub open_file : Option (ℕ × ℕ) → Option ℕ
open_file none = none
open_file (some (fd, n)) = some n

-- `file_nbr > recv_file_nbr`
abbrev pub is_newer : ℕ → Option ℕ → Bool
is_newer n none = true
is_newer n (some m) = ltb m n

-- `ready_fd > 0`
abbrev pub is_positive : Option ℕ → Bool
is_positive none = false
is_positive (some n) = ltb 0 n

module _ {C : Type 0} (rq : Codec C) (heap : Malloc) (n_segments : ℕ) where
  -- `segments[file_nbr].file_name` and the call of `open` with it
  pub open_segment : (ℕ → Option ℕ) → ℕ → Run (Option (ℕ × ℕ))
  open_segment opens file_nbr =
      if ltb file_nbr n_segments
      then ok (opened_for file_nbr (opens file_nbr))
      else fault out_of_bounds

  -- The part of `task_start_write` behind `open`, for a file that is ready. The branch of the code
  -- for an uninitialized file is never reached, since the function has returned by then.
  pub start_output : Receiver C → Option ℕ → SegState → Option (ℕ × ℕ) → Run (Receiver C)
  start_output r idx s none = ok (record r { out_fd = none })
  start_output r idx s (some (fd, n)) = do
    (s', mem) ← prepare_output rq heap s fd r.mem
    ok (record r { out_fd = some (fd, n); ss = assign r.ss idx s'; mem = mem })

  -- `task_start_write`, with its result assigned to `out_fd` as its callers do
  pub start_write : Receiver C → (ℕ → Option ℕ) → Run (Receiver C)
  start_write r opens =
      let file_nbr = r.ss.min_file_nbr in
      let (status, idx) = get r.ss file_nbr in
      elim status [
        | ss_uninitialized ↦ ok (record r { out_fd = none })
        | _ ↦ do
          s ← deref r.ss idx
          if is_ready s.mode
              then (open_segment opens file_nbr >>= start_output r idx s)
              else ok (record r { out_fd = none })
      ]

  -- `task_write` once `segstate_write_more` has returned
  pub after_write_more : Receiver C → Input → Option ℕ → Written C → Run (Receiver C)
  after_write_more r input idx w =
      let wrote = record r {
        ss = assign r.ss idx w.state;
        mem = w.mem;
        output = r.output ++ (open_file r.out_fd, w.bytes, w.more) ∷ [];
      } in
      if w.more
      then ok wrote
      else start_write
          (record wrote {
            ss = inc_min_file_nbr (assign r.ss idx (Segment.free w.state));
            out_fd = none;
          })
          input.opens

  -- `task_write`
  pub write_task : Receiver C → Input → Run (Receiver C)
  write_task r input =
      let (status, idx) = get r.ss r.ss.min_file_nbr in
      do
        assert (is_ok status)
        s ← deref r.ss idx
        w ← write_more rq s input.sink r.mem
        after_write_more r input idx w

  -- `segstate_add_packet` on `*S`
  pub take_packet : Receiver C → Option ℕ → RouteHeader → List ℕ → Run (Receiver C)
  take_packet r idx header payload = do
    s ← deref r.ss idx
    s' ← add_packet s header payload
    ok (record r { ss = assign r.ss idx s' })

  -- The first packet of a file that is newer than any other: the files before it become ready.
  pub newest_file : Receiver C → Input → ℕ → Run (Receiver C)
  newest_file r input file_nbr =
      let marked = record r {
        recv_file_nbr = some file_nbr;
        ss = mark_readytowrite r.ss file_nbr;
      } in
      if r.write_ok && is_none r.out_fd then start_write marked input.opens else ok marked

  -- The case `SS_UNINITIALIZED`, up to the fall through.
  pub first_packet : Receiver C → Input → Option ℕ → RouteHeader → Run (Receiver C)
  first_packet r input idx header = do
    s ← Segment.init heap header.toi header.tos
    (status, ss) ← mark_initialized (assign r.ss idx s) header.toi
    let begun = record r { started = true; ss = ss }
    if is_newer header.toi r.recv_file_nbr then newest_file begun input header.toi else ok begun

  -- The switch on the status of the packet's file.
  pub recv_packet : Receiver C → Input → RouteHeader → List ℕ → Run (Receiver C)
  recv_packet r input header payload =
      let (status, idx) = get r.ss header.toi in
      elim status [
        | ss_uninitialized ↦ do
          r' ← first_packet r input idx header
          take_packet r' idx header payload
        | ss_ok ↦ take_packet r idx header payload
        | ss_below_min ↦ ok r
        | ss_above_max ↦ ok r
      ]

  -- The case `TASK_RECV`
  pub recv_task : Receiver C → Input → Datagram → Run (Outcome C)
  recv_task r input recv_error = ok stopped
  recv_task r input short = assert false >>= λ _. ok (running r)
  recv_task r input (packet header payload) =
      recv_packet r input header payload >>= λ r'. ok (running r')

  -- What to do next while no file is being written, from the result of `pselect`. The set of writable
  -- descriptors holds `ready_fd` only before the first packet.
  pub choose_idle : Receiver C → Input → ℤ → Run Task
  choose_idle r input (negsuc e) = ok give_up
  choose_idle r input (pos rv) =
      if rv == 0
      then ok task_start_write
      else if not r.started && (is_positive r.ready_fd && input.ready_set)
      then ok task_signal_ready
      else (assert input.sock_set >> ok task_recv)

  -- The same while a file is being written.
  pub choose_writing : Input → ℤ → Run Task
  choose_writing input (negsuc e) = ok give_up
  choose_writing input (pos rv) =
      if rv == 1 || rv == 2
      then ok (if input.sock_set then task_recv else task_write)
      else assert false >> ok give_up

  -- The first half of the loop's body: `nexttask`.
  pub choose : Receiver C → Input → Run Task
  choose r input =
      if is_none r.out_fd
      then if r.started && (not r.write_ok && not input.clock_ok)
        then ok give_up
        else choose_idle r input input.rv
      else choose_writing input input.rv

  -- The second half: `switch (nexttask)`. A timeout has set `write_ok`.
  pub perform : Receiver C → Input → Task → Run (Outcome C)
  perform r input give_up = ok stopped
  perform r input task_recv = recv_task r input input.datagram
  perform r input task_write = write_task r input >>= λ r'. ok (running r')
  perform r input task_start_write =
      start_write (record r { write_ok = true }) input.opens >>= λ r'. ok (running r')
  perform r input task_signal_ready = do
    assert (not (is_none r.ready_fd))
    ok (running (record r { ready_fd = none }))

  -- One iteration of the loop.
  pub iterate : Receiver C → Input → Run (Outcome C)
  iterate r input =
      if r.ss.min_file_nbr == n_segments then ok done else (choose r input >>= perform r input)

  -- The loop, for the inputs given.
  pub run : Receiver C → List Input → Run (Outcome C)
  run r [] = ok (running r)
  run r (input ∷ rest) = do
    out ← iterate r input
    elim out [ done ↦ ok done | stopped ↦ ok stopped | running r' ↦ run r' rest ]

-- The variables before the loop; `zeroed` is the state that the zero bytes in `states` stand for.
pub start : {C : Type 0} → SegState → C → Option ℕ → Receiver C
start zeroed mem ready_fd = record {
  ss = SegmentSet.init zeroed 0;
  out_fd = none;
  mem = mem;
  started = false;
  write_ok = false;
  recv_file_nbr = none;
  ready_fd = ready_fd;
  output = [];
}
