-- ===== src/Sender/Main/Options.antt =====
-- The options of the sender against the last option with each letter.
use rq_route_demo.Base.{
  ℕ, ◌<◌, ◌≡◌, ◌≢◌, refl, ap, ◌∙◌, arith, inr, List, [], ◌∷◌, length, ok, >>=-ok, ◌==◌,
  if◌then◌else◌, Every, ℤ,
}
use rq_route_demo.CommandLine.{Opt, last_arg, chosen, chosen-cons}
use rq_route_demo.Sender.Main.{
  SenderOptions, to_unsigned, set_recv_addr, apply_option, read_options,
}

-- An option that does not end the program: its letter is known, and an address fits in its array.
pub record Continues (opt : Opt) : Type 0 where
  pub no_help : opt.0 ≢ b'h'
  pub known : opt.0 ≢ b'?'
  pub fits : opt.0 ≡ b'r' → length opt.1 < 16

module _ {D : Type 0} (atof : List ℕ → D) (atol : List ℕ → ℤ) where
  -- The variables out of the last option with each letter.
  abbrev pub options_of : List Opt → SenderOptions D → SenderOptions D
  options_of opts o = record {
    segment_dir = chosen (λ arg. arg) (last_arg b'd' opts) o.segment_dir;
    params = record {
      throttle_speed = chosen atof (last_arg b't' opts) o.params.throttle_speed;
      drop_prob = chosen atof (last_arg b'p' opts) o.params.drop_prob;
      recv_addr = chosen (λ arg. arg) (last_arg b'r' opts) o.params.recv_addr;
    };
    overhead = chosen atof (last_arg b'o' opts) o.overhead;
    rng_seed = chosen (λ arg. to_unsigned (atol arg)) (last_arg b's' opts) o.rng_seed;
  }

  -- One option.
  applied : Opt → SenderOptions D → SenderOptions D
  applied (c, arg) o = record {
    segment_dir = if c == b'd' then arg else o.segment_dir;
    params = record {
      throttle_speed = if c == b't' then atof arg else o.params.throttle_speed;
      drop_prob = if c == b'p' then atof arg else o.params.drop_prob;
      recv_addr = if c == b'r' then arg else o.params.recv_addr;
    };
    overhead = if c == b'o' then atof arg else o.overhead;
    rng_seed = if c == b's' then to_unsigned (atol arg) else o.rng_seed;
  }

  apply_option-applied :
      (o : SenderOptions D) (c : ℕ) (arg : List ℕ)
      → Continues (c, arg)
      → apply_option atof atol o (c, arg) ≡ ok (inr (applied (c, arg) o))
  unfolding apply_option set_recv_addr applied
  apply_option-applied o c arg q = ground (arith, q.no_help, q.known, q.fits)

  options_of-cons :
      (c : ℕ) (arg : List ℕ) (opts : List Opt) (o : SenderOptions D)
      → options_of opts (applied (c, arg) o) ≡ options_of ((c, arg) ∷ opts) o
  unfolding applied
  options_of-cons c arg opts o = rw (
    chosen-cons (λ x. x) b'd' c arg opts o.segment_dir,
    chosen-cons atof b't' c arg opts o.params.throttle_speed,
    chosen-cons atof b'p' c arg opts o.params.drop_prob,
    chosen-cons (λ x. x) b'r' c arg opts o.params.recv_addr,
    chosen-cons atof b'o' c arg opts o.overhead,
    chosen-cons (λ x. to_unsigned (atol x)) b's' c arg opts o.rng_seed,
  )

  -- For options none of which ends the program, with addresses that fit in their array: the loop over the
  -- options ends without a fault, and each variable is what the last option with its letter says, or what
  -- it was before if there is none.
  pub read_options-options_of :
      (opts : List Opt) (o : SenderOptions D)
      → Every Continues opts
      → read_options atof atol opts o ≡ ok (inr (options_of opts o))
  unfolding read_options
  read_options-options_of [] o h = refl
  read_options-options_of ((c, arg) ∷ opts) o (q, h) =
      >>=-ok (apply_option atof atol o (c, arg)) _ (inr (applied (c, arg) o))
        (apply_option-applied o c arg q)
      ∙ read_options-options_of opts (applied (c, arg) o) h
      ∙ ap (λ s. ok (inr s)) (options_of-cons c arg opts o)
