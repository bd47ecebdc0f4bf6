-- ===== src/Sender/Main/Sends.antt =====
-- The sender's options and the segments that it sends together.
use rq_route_demo.Base.{ℕ, List, Option, ℤ}
use rq_route_demo.CommandLine.{Opt}
use rq_route_demo.Memory.{Malloc}
use rq_route_demo.Packet.{Packet}
use rq_route_demo.Clock.{Doubles}
use rq_route_demo.Cli.{empty_buffer}
use rq_route_demo.CodeBlock.Codec.{Codec, CodecSizes}
use rq_route_demo.Udp.{udp_create, udp_get_params}
use rq_route_demo.Sender.{FileAnswers}
use rq_route_demo.Sender.Blocks.{Works}
use rq_route_demo.Sender.Segments.{Session}
use rq_route_demo.Sender.Main.{SenderOptions, SenderAnswers, default_options}
use rq_route_demo.Sender.Main.Options.{options_of}

module _ {D : Type 0} (double : Doubles D) (scan : List ℕ → Option D) (atof : List ℕ → D)
    (atol : List ℕ → ℤ) {C : Type 0} (rq : Codec C) (heap : Malloc) (sizes : CodecSizes)
    (works : Works rq sizes) (files : List ℕ → FileAnswers) where
  -- The variables of `main` behind the options.
  abbrev pub chosen_options : SenderAnswers → List Opt → SenderOptions D
  chosen_options answers opts = options_of atof atol opts (default_options double answers.time)

  -- The session before the first file.
  abbrev pub first_session : SenderAnswers → List Opt → Session D
  first_session answers opts = record {
    settings = record {
      overhead = (chosen_options answers opts).overhead;
      params = udp_get_params (udp_create (chosen_options answers opts).params answers.t0);
    };
    buffer = empty_buffer;
    pending = answers.pending;
    answers = answers.reads;
    wakes = answers.wakes;
  }
