-- ===== src/Tests/Loop.antt =====
-- Inputs for the theorem on the receiving loop.
use rq_route_demo.Base.{◌≢◌, [], ◌∷◌, none, some, ok, pos, arith, true, false}
use rq_route_demo.Receiver.{Input, packet, recv_error, done, run, start}
use rq_route_demo.Receiver.Progress.{run-start-ne-done}
use rq_route_demo.Tests.{zero_heap, idle, three_bytes}

-- A packet of the only file arrives.
abbrev pub arrival : Input
arrival = record {
  clock_ok = true;
  rv = pos 1;
  sock_set = true;
  ready_set = false;
  datagram = packet (record { ens_id = 0; toi = 0; payload_id = 0; tos = 3 }) (7 ∷ 8 ∷ 9 ∷ []);
  opens = λ n. some 4;
  sink = λ n. pos n;
}

-- A timeout, at which the loop looks for a file to write.
abbrev pub timeout : Input
timeout = record arrival { rv = pos 0; sock_set = false; datagram = recv_error }

run-start-ne-done_example :
    run idle zero_heap 1 (start three_bytes tt none) (arrival ∷ timeout ∷ []) ≢ ok done
run-start-ne-done_example =
    run-start-ne-done idle zero_heap 1 three_bytes tt none (arrival ∷ timeout ∷ []) (omega arith)
      (omega arith, (tt, tt))
