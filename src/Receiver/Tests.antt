-- ===== src/Receiver/Tests.antt =====
-- The loop before any packet arrived, at a timeout.
use rq_route_demo.Base.{
  inr, ap, some, pos, negsuc, if◌then◌else◌, refl, ◌∙◌, ◌≡◌, sym, subst, [], ◌∷◌, none, ok, true,
  false, arith, ◌==◌,
}
use rq_route_demo.SegmentSet.Window.{view}
use rq_route_demo.Receiver.{
  Receiver, running, choose, choose_idle, perform, iterate, run, start, start_write, Input,
  choose_writing, write_task, after_write_more, assign,
}
use rq_route_demo.Receiver.Steps.{get-view, deref-view, start_write-missing}
use rq_route_demo.Receiver.Waiting.{StillStuck, run-StillStuck, start-Stuck}
use rq_route_demo.Tests.{zero_heap, idle, three_bytes}
use rq_route_demo.Receiver.Failed.{IsGivenUp, write_task-error}
use rq_route_demo.Receiver.Order.{InOrder, run-InOrder}
use rq_route_demo.SegmentSet
use rq_route_demo.SegmentSet.{SegmentSet, ss_ok, mark_initialized, put, slot}
use rq_route_demo.SegmentSet.Window.{init-IsValid, min-init, view-init}
use rq_route_demo.SegmentSet.Updates.{Updated, initialize-Updated}
use rq_route_demo.Segment.{SegState}
use rq_route_demo.Segment.Output.{write_more-part}
use rq_route_demo.Tests.Files.{being_written, being_written-IsWriting}
use rq_route_demo.Tests.Loop.{timeout}

abbrev before : Receiver (Unit {0})
before = start three_bytes tt none

abbrev looked : Receiver (Unit {0})
looked = record before { write_ok = true; out_fd = none }

looks : start_write idle zero_heap 2 (record before { write_ok = true }) timeout.opens ≡ ok looked
looks =
    let v = start-Stuck three_bytes tt none in
    start_write-missing idle zero_heap 2 (record before { write_ok = true }) timeout.opens v.valid
      (subst (λ k. view before.ss k ≡ none) (sym v.at_min) v.unseen)

runs : run idle zero_heap 2 before (timeout ∷ []) ≡ ok (running looked)
unfolding run iterate choose choose_idle perform
runs =
    let v = start-Stuck three_bytes tt none in
    let left : (before.ss.min_file_nbr == 2) ≡ false = ground (arith, v.at_min) in
    ground (arith, left, v.no_output, looks)

run-StillStuck_example : StillStuck 0 [] (running looked)
run-StillStuck_example =
    run-StillStuck idle zero_heap 2 0 [] before (timeout ∷ []) (running looked) (omega arith)
      (start-Stuck three_bytes tt none) (tt, tt) runs

-- File 0 is being written, and `write` takes one byte.
abbrev window : SegmentSet SegState
window = SegmentSet.init being_written 0

window_shows :
    (ss : SegmentSet SegState) × (mark_initialized (put window (slot window 0) being_written) 0
      ≡ ok (ss_ok, ss))
    × Updated window ss (λ m. if m == 0 then some being_written else view window m)
window_shows =
    initialize-Updated (init-IsValid being_written 0) 0 being_written
      (rw (min-init being_written 0) (omega arith, omega arith)) (view-init being_written 0 0)

abbrev shown : SegmentSet SegState
shown = window_shows.0

shown-min : shown.min_file_nbr ≡ 0
shown-min = window_shows.2.same_min ∙ min-init being_written 0

at_min : view shown shown.min_file_nbr ≡ some being_written
at_min = subst (λ n. view shown n ≡ some being_written) (sym shown-min) (window_shows.2.seen 0)

abbrev busy : Receiver (Unit {0})
busy = record before {
  output = [];
  ss = shown;
  out_fd = some (4, 0);
  started = true;
  write_ok = true;
}

abbrev writable : Input
writable = record timeout { rv = pos 1; sink = λ n. pos 1 }

abbrev wrote : Receiver (Unit {0})
wrote = record busy {
  ss = put shown (slot shown shown.min_file_nbr) (record being_written { out_cb_buf_offs = 1 });
  output = (some 0, 7 ∷ [], true) ∷ [];
}

writes : run idle zero_heap 2 busy (writable ∷ []) ≡ ok (running wrote)
unfolding run iterate choose choose_writing perform write_task after_write_more assign
writes =
    let left : (shown.min_file_nbr == 2) ≡ false = ground (arith, shown-min) in
    let found = get-view window_shows.2.valid shown.min_file_nbr at_min in
    let held = deref-view shown shown.min_file_nbr at_min in
    let took = write_more-part idle being_written-IsWriting (λ n. pos 1) tt 1 refl (omega arith) in
    rw (left, found, held, took) refl

run-InOrder_example : InOrder wrote
run-InOrder_example =
    run-InOrder idle zero_heap 2 busy (writable ∷ [])
      (sym shown-min, inr (4, ap (λ n. some (4, n)) (sym shown-min))) writes

abbrev broken : Input
broken = record writable { sink = λ n. negsuc 0 }

write_task-error_example :
    (next : Receiver (Unit {0})) × (write_task idle zero_heap 2 busy broken
      ≡ start_write idle zero_heap 2 next broken.opens)
    × IsGivenUp busy next
write_task-error_example =
    write_task-error idle zero_heap 2 busy broken 0 window_shows.2.valid at_min
      being_written-IsWriting refl
