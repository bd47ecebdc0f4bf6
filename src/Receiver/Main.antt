-- ===== src/Receiver/Main.antt =====
-- receiver/receiver.c: `main`, which reads the options, loads the list of segments and receives them.
-- `atof` and `atoi` are parameters.
pub mod Options
use rq_route_demo.Base.{
  ℕ, zero, suc, fault, out_of_bounds, Bool, true, false, List, [], ◌∷◌, Option, none, some, Run, ok,
  ◌>>=◌, ◌==◌, if◌then◌else◌, ◌⊎◌, inl, inr, ℤ, pos, negsuc,
}
use rq_route_demo.CommandLine.{Opt}
use rq_route_demo.Memory.{Malloc}
use rq_route_demo.CodeBlock.Codec.{Codec}
use rq_route_demo.Clock.{Doubles}
use rq_route_demo.Segment.{SegState}
use rq_route_demo.SegmentList.{SegmentList, full_path, load}
use rq_route_demo.Receiver.{Input, Outcome, done, stopped, running, run, start}

-- The variables of `main`
pub record ReceiverOptions (D : Type 0) : Type 0 where
  pub outdir : List ℕ
  pub deadline_delay : D
  pub extra_delay : D
  pub ready_fd : ℤ

module _ {D : Type 0} (atof : List ℕ → D) (atoi : List ℕ → ℤ) where
  -- The switch on the letter. A number is what `main` returns at once.
  pub apply_option : ReceiverOptions D → Opt → ℕ ⊎ ReceiverOptions D
  apply_option o (c, arg) =
      if c == b'h'
      then inl 0
      else if c == b'o'
      then inr (record o { outdir = arg })
      else if c == b'd'
      then inr (record o { deadline_delay = atof arg })
      else if c == b'x'
      then inr (record o { extra_delay = atof arg })
      else if c == b'r'
      then inr (record o { ready_fd = atoi arg })
      else if c == b'?'
      then inl 1
      else inr o

  -- The loop over the options.
  pub read_options : List Opt → ReceiverOptions D → ℕ ⊎ ReceiverOptions D
  unfolding apply_option
  read_options [] o = inr o
  read_options (opt ∷ opts) o = elim (apply_option o opt) [
    | inl code ↦ inl code
    | inr o' ↦ read_options opts o'
  ]

-- The options before the command line is read.
abbrev pub default_options : {D : Type 0} → Doubles D → ReceiverOptions D
default_options double = record {
  outdir = b's' ∷ b'e' ∷ b'g' ∷ b'_' ∷ b'r' ∷ b'e' ∷ b'c' ∷ b'v' ∷ [];
  deadline_delay = double.of_int (pos 1);
  extra_delay = double.of_int (pos 3);
  ready_fd = negsuc 0;
}

-- "dummy_playlist.m3u8"
abbrev pub playlist_name : List ℕ
playlist_name =
    b'd' ∷ b'u' ∷ b'm' ∷ b'm' ∷ b'y' ∷ b'_' ∷ b'p' ∷ b'l' ∷ b'a' ∷ b'y' ∷ b'l' ∷ b'i' ∷ b's' ∷ b't'
    ∷ b'.' ∷ b'm' ∷ b'3' ∷ b'u' ∷ b'8' ∷ []

-- `ready_fd` for `receive_write`, where -1 is `none`. With another negative number, `FD_ISSET` is undefined
-- in the loop before the first packet: such a run ends here with a fault.
abbrev pub descriptor : ℤ → Run (Option ℕ)
descriptor (pos n) = ok (some n)
descriptor (negsuc zero) = ok none
descriptor (negsuc (suc n)) = fault out_of_bounds

-- What the system answers: `fopen` for a playlist, whether there is a socket and an address for it, and the
-- inputs of the iterations.
pub record ReceiverAnswers : Type 0 where
  pub playlist : List ℕ → Option (List ℕ)
  pub socket_ok : Bool
  pub bind_ok : Bool
  pub inputs : List Input

-- What the process returns once the loop has ended, whatever ended it.
abbrev pub exit_code : {C : Type 0} → Outcome C → Option ℕ
exit_code done = some 0
exit_code stopped = some 0
exit_code (running r) = none

module _ {C : Type 0} (rq : Codec C) (heap : Malloc) (zeroed : SegState) (zeroed_mem : C) where
  -- `receive_write`, with the set-up of the socket
  pub receive_write : ReceiverAnswers → ℕ → Option ℕ → Run (Outcome C)
  receive_write answers n_segments ready_fd =
      if answers.socket_ok
      then if answers.bind_ok
        then run rq heap n_segments (start zeroed zeroed_mem ready_fd) answers.inputs
        else ok stopped
      else ok stopped

  -- Behind `segment_list_load`.
  pub receive_all : ReceiverAnswers → Option SegmentList → Option ℕ → Run (Option ℕ × Outcome C)
  unfolding receive_write
  receive_all answers none ready_fd = ok (some 1, stopped)
  receive_all answers (some l) ready_fd =
      receive_write answers l.n_segments ready_fd >>= λ out. ok (exit_code out, out)

  -- Behind the options.
  pub after_options :
      {D : Type 0} → ReceiverAnswers → ℕ ⊎ ReceiverOptions D → Run (Option ℕ × Outcome C)
  unfolding receive_all
  after_options answers (inl code) = ok (some code, stopped)
  after_options answers (inr o) =
      load o.outdir (answers.playlist (full_path o.outdir playlist_name)) >>= λ l.
      descriptor o.ready_fd >>= receive_all answers l

  -- `main`
  pub main :
      {D : Type 0}
      → Doubles D
      → (List ℕ → D)
      → (List ℕ → ℤ)
      → ReceiverAnswers
      → List Opt
      → Run (Option ℕ × Outcome C)
  unfolding read_options after_options
  main double atof atoi answers opts =
      after_options answers (read_options atof atoi opts (default_options double))
