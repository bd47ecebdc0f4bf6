-- ===== src/Receiver/Main/Options.antt =====
-- The receiver's options, its list of segments and its loop together.
use rq_route_demo.Base.{
  ℕ, ◌<◌, ◌^◌, ◌≡◌, ◌≢◌, refl, ap, ◌∙◌, arith, true, inr, List, [], ◌∷◌, length, Option, some, ok,
  ◌>>=◌, >>=-ok, ◌==◌, if◌then◌else◌, Every, ℤ,
}
use rq_route_demo.CommandLine.{Opt, last_arg, chosen, chosen-cons}
use rq_route_demo.CodeBlock.Codec.{Codec}
use rq_route_demo.Clock.{Doubles}
use rq_route_demo.Memory.{Malloc}
use rq_route_demo.Playlist.Lines.{IsLine, print, names}
use rq_route_demo.Segment.{SegState}
use rq_route_demo.SegmentList.{maxlen_fn, full_path, load}
use rq_route_demo.SegmentList.Load.{load-print}
use rq_route_demo.Receiver.{run, start}
use rq_route_demo.Receiver.Main.{
  ReceiverOptions, ReceiverAnswers, apply_option, read_options, default_options, playlist_name,
  descriptor, exit_code, after_options, receive_write, receive_all, main,
}

-- An option that does not end the program.
pub record Continues (opt : Opt) : Type 0 where
  pub no_help : opt.0 ≢ b'h'
  pub known : opt.0 ≢ b'?'

module _ {D : Type 0} (atof : List ℕ → D) (atoi : List ℕ → ℤ) where
  -- The variables out of the last option with each letter.
  abbrev pub options_of : List Opt → ReceiverOptions D → ReceiverOptions D
  options_of opts o = record {
    outdir = chosen (λ arg. arg) (last_arg b'o' opts) o.outdir;
    deadline_delay = chosen atof (last_arg b'd' opts) o.deadline_delay;
    extra_delay = chosen atof (last_arg b'x' opts) o.extra_delay;
    ready_fd = chosen atoi (last_arg b'r' opts) o.ready_fd;
  }

  -- One option.
  applied : Opt → ReceiverOptions D → ReceiverOptions D
  applied (c, arg) o = record {
    outdir = if c == b'o' then arg else o.outdir;
    deadline_delay = if c == b'd' then atof arg else o.deadline_delay;
    extra_delay = if c == b'x' then atof arg else o.extra_delay;
    ready_fd = if c == b'r' then atoi arg else o.ready_fd;
  }

  apply_option-applied :
      (o : ReceiverOptions D) (c : ℕ) (arg : List ℕ)
      → Continues (c, arg)
      → apply_option atof atoi o (c, arg) ≡ inr (applied (c, arg) o)
  unfolding apply_option applied
  apply_option-applied o c arg q = ground (arith, q.no_help, q.known)

  options_of-cons :
      (c : ℕ) (arg : List ℕ) (opts : List Opt) (o : ReceiverOptions D)
      → options_of opts (applied (c, arg) o) ≡ options_of ((c, arg) ∷ opts) o
  unfolding applied
  options_of-cons c arg opts o = rw (
    chosen-cons (λ x. x) b'o' c arg opts o.outdir,
    chosen-cons atof b'd' c arg opts o.deadline_delay,
    chosen-cons atof b'x' c arg opts o.extra_delay,
    chosen-cons atoi b'r' c arg opts o.ready_fd,
  )

  -- Each variable is what the last option with its letter says, or what it was before if there is none.
  read_options-options_of :
      (opts : List Opt) (o : ReceiverOptions D)
      → Every Continues opts
      → read_options atof atoi opts o ≡ inr (options_of opts o)
  unfolding read_options
  read_options-options_of [] o h = refl
  read_options-options_of ((c, arg) ∷ opts) o (q, h) =
      rw (read_options, apply_option-applied o c arg q)
        (read_options-options_of opts (applied (c, arg) o) h
          ∙ ap inr (options_of-cons c arg opts o))

module _ {C : Type 0} (rq : Codec C) (heap : Malloc) (zeroed : SegState) (zeroed_mem : C)
    {D : Type 0} (double : Doubles D) (atof : List ℕ → D) (atoi : List ℕ → ℤ) where
  -- For options none of which ends the program, when the directory of the last option `o`, or the default
  -- one, has a playlist of fewer than 2 ^ 28 lines, each of at most 38 bytes, without NUL and ended
  -- by a newline, and the socket is set up: `main` runs the loop for as many segments as the playlist has
  -- lines that are no comments, with the descriptor that the last option `r` gives, -1 or one that is not
  -- negative, and returns 0 when that ends.
  pub main-receives :
      (answers : ReceiverAnswers) (opts : List Opt) (ls : List (List ℕ))
      → Every Continues opts
      → answers.playlist
          (full_path (options_of atof atoi opts (default_options double)).outdir playlist_name)
        ≡ some (print ls)
      → Every (IsLine maxlen_fn) ls
      → length ls < 2 ^ 28
      → answers.socket_ok ≡ true
      → answers.bind_ok ≡ true
      → {ready_fd : Option ℕ}
      → descriptor (options_of atof atoi opts (default_options double)).ready_fd ≡ ok ready_fd
      → main rq heap zeroed zeroed_mem double atof atoi answers opts ≡ (
          run rq heap (length (names ls)) (start zeroed zeroed_mem ready_fd) answers.inputs
          >>= λ out. ok (exit_code out, out))
  unfolding main after_options receive_all receive_write
  main-receives answers opts ls continue opened lines few socket bound {ready_fd} chosen_fd =
      let o = options_of atof atoi opts (default_options double) in
      let (l, loads, counted, within, held) = load-print o.outdir ls lines few in
      ap (after_options rq heap zeroed zeroed_mem answers)
        (read_options-options_of atof atoi opts (default_options double) continue)
      ∙ ap
          (λ f. load o.outdir f >>= λ l'.
            descriptor o.ready_fd >>= receive_all rq heap zeroed zeroed_mem answers l')
          opened
      ∙ >>=-ok (load o.outdir (some (print ls)))
          (λ l'. descriptor o.ready_fd >>= receive_all rq heap zeroed zeroed_mem answers l')
          (some l) loads
      ∙ >>=-ok (descriptor o.ready_fd) (receive_all rq heap zeroed zeroed_mem answers (some l))
          ready_fd chosen_fd
      ∙ rw (socket, bound)
          (ap
            (λ n. run rq heap n (start zeroed zeroed_mem ready_fd) answers.inputs >>= λ out.
              ok (exit_code out, out))
            counted)
