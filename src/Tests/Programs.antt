-- ===== src/Tests/Programs.antt =====
-- The two programs with their options, and a playlist of two files.
use rq_route_demo.Base.{ℕ, ◌≡◌, refl, true, List, [], ◌∷◌, some, ok, ◌>>=◌, arith, Every, ℤ, pos}
use rq_route_demo.CommandLine.{Opt}
use rq_route_demo.Packet.{Packet}
use rq_route_demo.Cli.{gives}
use rq_route_demo.Playlist.Lines.{IsLine, print}
use rq_route_demo.Sender.Segments.Order.{Sends}
use rq_route_demo.Sender.Main as SenderMain
use rq_route_demo.Sender.Main.{SenderAnswers}
use rq_route_demo.Sender.Main.Options as SenderOpts
use rq_route_demo.Receiver.{run, start}
use rq_route_demo.Receiver.Main as ReceiverMain
use rq_route_demo.Receiver.Main.{ReceiverAnswers, exit_code}
use rq_route_demo.Receiver.Main.Options as ReceiverOpts
use rq_route_demo.Receiver.Main.Options.{main-receives}
use rq_route_demo.Tests.{zero_heap, idle, three_bytes}
use rq_route_demo.Tests.Clocks.{thousandths, noon}
use rq_route_demo.Tests.Commands.{input}
use rq_route_demo.Tests.Loop.{arrival, timeout}
use rq_route_demo.Tests.Playlists.{letter-IsText}
use rq_route_demo.Tests.Series.{one_fifth, lines}

-- Each number on the command line is 0.
abbrev read_zero : List ℕ → ℤ
read_zero text = pos 0

-- For the sender each is a fifth.
abbrev read_fifth : List ℕ → ℤ
read_fifth text = one_fifth

-- -d e -r 1 -d f -o 0.2
abbrev send_opts : List Opt
send_opts =
    (b'd', b'e' ∷ []) ∷ (b'r', b'1' ∷ []) ∷ (b'd', b'f' ∷ []) ∷ (b'o', b'0' ∷ b'.' ∷ b'2' ∷ []) ∷ []

abbrev send_answers : SenderAnswers
send_answers = record {
  time = 0;
  socket_ok = true;
  playlist = λ path. some (print lines);
  standard_input = record { getfl = pos 2; setfl = λ mode. pos 0; or_nonblock = λ mode. pos 2050 };
  t0 = noon;
  pending = input;
  reads = gives 2 ∷ gives 99 ∷ [];
  wakes = record { now = noon; ready = true } ∷ [];
}

lines-fit : Every (IsLine 40) lines
lines-fit = (
  record { text = (letter-IsText b'a' (omega arith), tt); fits = omega arith },
  (record { text = (letter-IsText b'b' (omega arith), tt); fits = omega arith }, tt),
)

-- -r 0
abbrev receive_opts : List Opt
receive_opts = (b'r', b'0' ∷ []) ∷ []

receive_opts-Continues : Every ReceiverOpts.Continues receive_opts
receive_opts-Continues = (record { no_help = omega arith; known = omega arith }, tt)

abbrev receive_answers : ReceiverAnswers
receive_answers = record {
  playlist = λ path. some (print lines);
  socket_ok = true;
  bind_ok = true;
  inputs = arrival ∷ timeout ∷ [];
}

main-receives_example :
    ReceiverMain.main idle zero_heap three_bytes tt thousandths read_zero read_zero receive_answers
      receive_opts
    ≡ (run idle zero_heap 2 (start three_bytes tt (some 0)) (arrival ∷ timeout ∷ []) >>= λ out.
        ok (exit_code out, out))
main-receives_example =
    main-receives idle zero_heap three_bytes tt thousandths read_zero read_zero receive_answers
      receive_opts lines receive_opts-Continues refl lines-fit (omega arith) refl refl refl
