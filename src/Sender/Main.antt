-- ===== src/Sender/Main.antt =====
-- sender/sender.c: `main`, which reads the options, opens the socket and sends the segments. `atof` and
-- `atol` are parameters.
pub mod Options
pub mod Sends
use rq_route_demo.Base.{
  not, eqb_ℤ, ℕ, ◌+◌, ◌-◌, ◌%◌, ◌^◌, Bool, true, false, List, [], ◌∷◌, ◌++◌, length, Option, none,
  some, Run, ok, fault, out_of_bounds, ◌>>=◌, leb, ◌==◌, if◌then◌else◌, ◌⊎◌, inl, inr, ℤ, pos,
  negsuc,
}
use rq_route_demo.CommandLine.{Opt}
use rq_route_demo.Memory.{Malloc}
use rq_route_demo.Packet.{Packet}
use rq_route_demo.CodeBlock.Codec.{Codec, CodecSizes}
use rq_route_demo.Clock.{Doubles, Timespec}
use rq_route_demo.Cli.{cli_init, empty_buffer, ReadAnswer}
use rq_route_demo.Descriptors.{Fcntl}
use rq_route_demo.Udp.{UdpParams, udp_open, udp_get_params}
use rq_route_demo.Sender.{FileAnswers}
use rq_route_demo.Sender.Segments.{
  Wake, SendEnd, all_sent, failed, exited, waiting, segment_path, send_segments,
}

-- The variables of `main`
pub record SenderOptions (D : Type 0) : Type 0 where
  pub segment_dir : List ℕ
  pub params : UdpParams D
  pub overhead : D
  pub rng_seed : ℕ

-- `(unsigned int)` of a `long`
abbrev pub to_unsigned : ℤ → ℕ
to_unsigned (pos n) = n % 2 ^ 32
to_unsigned (negsuc n) = 2 ^ 32 - 1 - n % 2 ^ 32

-- `sizeof(P.recv_addr)`
abbrev pub inet_addrstrlen : ℕ
inet_addrstrlen = 16

-- The names that `main` and `send_segments` open first.
abbrev pub playlist_name : List ℕ
playlist_name = b'l' ∷ b'i' ∷ b's' ∷ b't' ∷ b'.' ∷ b'm' ∷ b'3' ∷ b'u' ∷ b'8' ∷ []

-- `strcpy(P.recv_addr, optarg)`, of a string without its final NUL
pub set_recv_addr : {D : Type 0} → UdpParams D → List ℕ → Run (UdpParams D)
set_recv_addr p text =
    if leb inet_addrstrlen (length text)
    then fault out_of_bounds
    else ok (record p { recv_addr = text })

module _ {D : Type 0} (atof : List ℕ → D) (atol : List ℕ → ℤ) where
  -- The switch on the letter. A number is what `main` returns at once.
  pub apply_option : SenderOptions D → Opt → Run (ℕ ⊎ SenderOptions D)
  unfolding set_recv_addr
  apply_option o (c, arg) =
      if c == b'h'
      then ok (inl 0)
      else if c == b'd'
      then ok (inr (record o { segment_dir = arg }))
      else if c == b's'
      then ok (inr (record o { rng_seed = to_unsigned (atol arg) }))
      else if c == b't'
      then ok (inr (record o { params = record o.params { throttle_speed = atof arg } }))
      else if c == b'p'
      then ok (inr (record o { params = record o.params { drop_prob = atof arg } }))
      else if c == b'r'
      then (set_recv_addr o.params arg >>= λ p. ok (inr (record o { params = p })))
      else if c == b'o'
      then ok (inr (record o { overhead = atof arg }))
      else if c == b'?'
      then ok (inl 1)
      else ok (inr o)

  -- The loop over the options.
  pub read_options : List Opt → SenderOptions D → Run (ℕ ⊎ SenderOptions D)
  unfolding apply_option
  read_options [] o = ok (inr o)
  read_options (opt ∷ opts) o = apply_option o opt >>= λ r. elim r [
    | inl code ↦ ok (inl code)
    | inr o' ↦ read_options opts o'
  ]

-- The options before the command line is read; the seed is the time.
abbrev pub default_options : {D : Type 0} → Doubles D → ℕ → SenderOptions D
default_options double time = record {
  segment_dir = b's' ∷ b'e' ∷ b'g' ∷ b'm' ∷ b'e' ∷ b'n' ∷ b't' ∷ b's' ∷ [];
  params = record {
    throttle_speed = double.of_int (pos 15);
    drop_prob = double.of_int (pos 0);
    recv_addr = b'1' ∷ b'2' ∷ b'7' ∷ b'.' ∷ b'0' ∷ b'.' ∷ b'0' ∷ b'.' ∷ b'1' ∷ [];
  };
  overhead = double.of_int (pos 0);
  rng_seed = time % 2 ^ 32;
}

-- What the system answers: whether there is a socket, what `fopen` gives for a playlist, what `fcntl` gives
-- for the standard input, the time at the start, and the input of the commands.
pub record SenderAnswers : Type 0 where
  pub time : ℕ
  pub socket_ok : Bool
  pub playlist : List ℕ → Option (List ℕ)
  pub standard_input : Fcntl
  pub t0 : Timespec
  pub pending : List ℕ
  pub reads : List ReadAnswer
  pub wakes : List Wake

-- What the process returns once `send_segments` has ended; it is not looked at whether that failed.
abbrev pub exit_code : SendEnd → Option ℕ
exit_code all_sent = some 0
exit_code failed = some 0
exit_code exited = some 0
exit_code waiting = none

module _ {D : Type 0} (double : Doubles D) (scan : List ℕ → Option D) (atof : List ℕ → D)
    (atol : List ℕ → ℤ) {C : Type 0} (rq : Codec C) (heap : Malloc) (sizes : CodecSizes)
    (files : List ℕ → FileAnswers) where
  -- The result, if the process ends, and the packets of each file.
  abbrev pub Ended : Type 0
  Ended = Option ℕ × List (List Packet)

  -- Behind the options. The value of a variable before its first assignment is `unset`.
  pub send_all : SenderAnswers → SenderOptions D → D → C → Run Ended
  send_all answers o unset c = elim (udp_open answers.socket_ok o.params answers.t0) [
    | none ↦ ok (some 1, [])
    | some u ↦
        send_segments double scan rq heap sizes files o.segment_dir answers.t0
          (answers.playlist (segment_path o.segment_dir playlist_name))
          (not (eqb_ℤ (cli_init answers.standard_input) (negsuc 0))) unset
          (record {
            settings = record { overhead = o.overhead; params = udp_get_params u };
            buffer = empty_buffer;
            pending = answers.pending;
            answers = answers.reads;
            wakes = answers.wakes;
          })
          c
        >>= λ r. ok (exit_code r.0, r.1)
  ]

  pub after_options : SenderAnswers → ℕ ⊎ SenderOptions D → D → C → Run Ended
  unfolding send_all
  after_options answers (inl code) unset c = ok (some code, [])
  after_options answers (inr o) unset c = send_all answers o unset c

  -- `main`
  pub main : SenderAnswers → List Opt → D → C → Run Ended
  unfolding read_options after_options
  main answers opts unset c =
      read_options atof atol opts (default_options double answers.time) >>= λ r.
      after_options answers r unset c
