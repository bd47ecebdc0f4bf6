-- ===== src/Cli/Overhead.antt =====
-- The settings under `cli_commands`: what every line keeps, the commands keep, as the overhead when no
-- number can be read.
use rq_route_demo.Base.{
  ℕ, zero, suc, ◌+◌, length, ◌≡◌, arith, List, Option, none, some, Option-cases, inl, inr, Whenever,
  Whenever-bind,
}
use rq_route_demo.Cli.{
  ReadAnswer, LineBuffer, line, no_line, leaves, Read, get_next_line, Settings, exec_cli_command,
  exec_line, split_args, run_line, command_loop, cli_commands,
}

module _ {D : Type 0} (scan : List ℕ → Option D) (P : Settings D → Type 0)
    (kept : (l : List ℕ) (s s' : Settings D) → P s → exec_line scan l s ≡ some s' → P s') where
  run_line-keeps :
      (fuel : ℕ) (s : Settings D) (r : Read)
      → P s
      → ((s' : Settings D) (pending : List ℕ) (b : LineBuffer) (answers : List ReadAnswer)
          → P s'
          → Whenever (λ c. P c.1) (command_loop scan fuel s' pending b answers))
      → Whenever (λ c. P c.1) (run_line scan (command_loop scan fuel) s r)
  unfolding run_line
  run_line-keeps fuel s (no_line, b, pending, answers) p next = p
  run_line-keeps fuel s (leaves, b, pending, answers) p next = p
  run_line-keeps fuel s (line l, b, pending, answers) p next =
      elim (Option-cases (exec_line scan l s)) [
        | inl exits ↦ rw (run_line, exits) p
        | inr (s', runs) ↦ rw (run_line, runs) (next s' pending b answers (kept l s s' p runs))
      ]

  command_loop-keeps :
      (fuel : ℕ) (s : Settings D) (pending : List ℕ) (b : LineBuffer) (answers : List ReadAnswer)
      → P s
      → Whenever (λ c. P c.1) (command_loop scan fuel s pending b answers)
  unfolding command_loop
  command_loop-keeps zero s pending b answers p = tt
  command_loop-keeps (suc fuel) s pending b answers p =
      Whenever-bind (λ c. P c.1) (get_next_line 80 pending b answers) _
        (λ r. run_line-keeps fuel s r p (command_loop-keeps fuel))

  pub cli_commands-keeps :
      (s : Settings D) (pending : List ℕ) (b : LineBuffer) (answers : List ReadAnswer)
      → P s
      → Whenever (λ c. P c.1) (cli_commands scan s pending b answers)
  unfolding cli_commands
  cli_commands-keeps s pending b answers p =
      command_loop-keeps (suc (b.n_bytes_in_buf + length pending)) s pending b answers p

pub exec_line-overhead :
    {D : Type 0} (scan : List ℕ → Option D)
    → ((text : List ℕ) → scan text ≡ none)
    → (l : List ℕ) (s s' : Settings D) → exec_line scan l s ≡ some s'
    → s'.overhead ≡ s.overhead
unfolding exec_line exec_cli_command
exec_line-overhead scan silent l s s' e = elim (Option-cases (split_args l).1) [
  | inl bare ↦ ground (arith, bare)
  | inr (args, given) ↦ ground (arith, given, silent args)
]
