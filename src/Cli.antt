-- ===== src/Cli.antt =====
-- sender/cli.c: the commands that the sender reads from its standard input. The input is the bytes that
-- are still to come, and what each call of `read` does.
pub mod Buffer
pub mod Found
pub mod Lines
pub mod Commands
pub mod Overhead
use rq_route_demo.Base.{
  ℤ, ℕ, zero, suc, ◌+◌, ◌-◌, min, Bool, true, false, ◌&&◌, List, [], ◌∷◌, length, take, drop,
  replicate, Option, none, some, Run, ok, fault, no_fuel, out_of_bounds, ◌>>=◌, leb, ltb, ◌==◌,
  if◌then◌else◌, memcpy, read_bytes, c_str,
}
use rq_route_demo.Playlist.{newline}
use rq_route_demo.Descriptors.{Fcntl, make_nonblock}
use rq_route_demo.Udp.{UdpParams}

-- What a call of `read` does: it gives at most that many bytes and one more, or returns -1, also for
-- input that would block. When no answer is left, it would block.
pub data ReadAnswer : Type 0 where
  gives : ℕ → ReadAnswer
  fails : ReadAnswer

-- `buf` and `n_bytes_in_buf`
pub record LineBuffer : Type 0 where
  pub buf : List ℕ
  pub n_bytes_in_buf : ℕ

abbrev pub empty_buffer : LineBuffer
empty_buffer = record { buf = replicate 256 0; n_bytes_in_buf = 0 }

-- What `get_next_line` does: the string in `dest` and true, or false, or `exit(0)`.
pub data NextLine : Type 0 where
  line : List ℕ → NextLine
  no_line : NextLine
  leaves : NextLine

-- The outcome, the buffer, and what is left of the input.
abbrev pub Read : Type 0
Read = NextLine × LineBuffer × List ℕ × List ReadAnswer

abbrev pub further : Option ℕ → Option ℕ
further none = none
further (some i) = some (suc i)

-- `strchr` on the bytes of an array from some place on
pub strchr : ℕ → List ℕ → Run (Option ℕ)
strchr c [] = fault out_of_bounds
strchr c (x ∷ xs) =
    let later = strchr c xs in
    if x == c then ok (some 0) else (if x == 0 then ok none else (later >>= λ i. ok (further i)))

-- The copy into `dest` of the string that ends at `p`.
pub copy_line : ℕ → ℕ → List ℕ → Run (List ℕ)
copy_line dest_sz p buf =
    if ltb p dest_sz
    then ok (c_str buf)
    else (if dest_sz == 0
        then fault out_of_bounds
        else (read_bytes buf 0 (dest_sz - 1) >>= λ dest. ok (c_str dest)))

-- The bytes behind the newline at `p`, moved to the front. A newline behind the bytes of the buffer,
-- which the convention on `buf` excludes, would make the size of the `memmove` wrap around.
pub move_rest : ℕ → List ℕ → ℕ → Run LineBuffer
move_rest p ended n =
    let left = n - (p + 1) in
    if leb (p + 1) n
    then (do
      moved ← read_bytes ended (p + 1) (left + 1)
      buf ← memcpy ended 0 moved
      ok (record { buf = buf; n_bytes_in_buf = left }))
    else fault out_of_bounds

-- The part behind the loop, for a newline at `p`.
pub take_line : ℕ → ℕ → LineBuffer → Run (List ℕ × LineBuffer)
unfolding copy_line move_rest
take_line dest_sz p b = do
  ended ← memcpy b.buf p (0 ∷ [])
  dest ← copy_line dest_sz p ended
  b' ← move_rest p ended b.n_bytes_in_buf
  ok (dest, b')

-- The body of the loop behind `read`: the buffer with the bytes read, and `p_search`.
pub store : List ℕ → LineBuffer → Run (LineBuffer × ℕ)
store got b = do
  filled ← memcpy b.buf b.n_bytes_in_buf got
  let n = b.n_bytes_in_buf + length got
  ended ← memcpy filled n (0 ∷ [])
  if n == 256 - 1
      then (memcpy ended 0 (0 ∷ []) >>= λ buf. ok (record { buf = buf; n_bytes_in_buf = 0 }, 0))
      else ok (record { buf = ended; n_bytes_in_buf = n }, b.n_bytes_in_buf)

-- The condition of the loop: the line, if a newline is found, else `more`.
pub search : ℕ → List ℕ → LineBuffer → ℕ → List ReadAnswer → Run Read → Run Read
unfolding strchr take_line
search dest_sz pending b p_search answers more = do
  found ← strchr newline (drop p_search b.buf)
  elim found [
    | none ↦ more
    | some i ↦ take_line dest_sz (p_search + i) b >>= λ r. ok (line r.0, r.1, pending, answers)
  ]

-- The bytes that `read` gives to a buffer with `n` bytes.
abbrev pub read_into : ℕ → ℕ → List ℕ → List ℕ
read_into n m pending = take (min (suc m) (256 - n - 1)) pending

-- The loop of `get_next_line`.
pub search_loop : ℕ → List ℕ → LineBuffer → ℕ → List ReadAnswer → Run Read
unfolding search store
search_loop dest_sz pending b p_search [] =
    search dest_sz pending b p_search [] (ok (no_line, b, pending, []))
search_loop dest_sz pending b p_search (fails ∷ answers) =
    search dest_sz pending b p_search (fails ∷ answers) (ok (no_line, b, pending, answers))
search_loop dest_sz pending b p_search (gives m ∷ answers) =
    search dest_sz pending b p_search (gives m ∷ answers) (
      let got = read_into b.n_bytes_in_buf m pending in
      if length got == 0
      then ok (leaves, b, pending, answers)
      else (store got b >>= λ r. search_loop dest_sz (drop (length got) pending) r.0 r.1 answers))

-- `get_next_line`
pub get_next_line : ℕ → List ℕ → LineBuffer → List ReadAnswer → Run Read
unfolding search_loop
get_next_line dest_sz pending b answers = search_loop dest_sz pending b 0 answers

-- `strcmp(a, b) == 0`
pub same_text : List ℕ → List ℕ → Bool
same_text [] [] = true
same_text [] (y ∷ ys) = false
same_text (x ∷ xs) [] = false
same_text (x ∷ xs) (y ∷ ys) = x == y && same_text xs ys

-- The command and the arguments behind its first space.
pub split_args : List ℕ → List ℕ × Option (List ℕ)
split_args [] = ([], none)
split_args (c ∷ cs) =
    let (cmd, args) = split_args cs in if c == b' ' then ([], some cs) else (c ∷ cmd, args)

-- `cli_init`, for what `fcntl` answers for descriptor 0
abbrev pub cli_init : Fcntl → ℤ
cli_init fd = make_nonblock fd

-- What the commands may change: the overhead, and the parameters of the socket.
pub record Settings (D : Type 0) : Type 0 where
  pub overhead : D
  pub params : UdpParams D

module _ {D : Type 0} (scan : List ℕ → Option D) where
  -- The number in the arguments: `args && sscanf(args, "%lg", _) == 1`
  abbrev pub number : Option (List ℕ) → Option D
  number none = none
  number (some args) = scan args

  abbrev pub set_overhead : Settings D → Option D → Settings D
  set_overhead s none = s
  set_overhead s (some x) = record s { overhead = x }

  abbrev pub set_drop_prob : Settings D → Option D → Settings D
  set_drop_prob s none = s
  set_drop_prob s (some x) = record s { params = record s.params { drop_prob = x } }

  abbrev pub set_throttle_speed : Settings D → Option D → Settings D
  set_throttle_speed s none = s
  set_throttle_speed s (some x) = record s { params = record s.params { throttle_speed = x } }

  -- `exec_cli_command`; nothing is left after `exit`.
  pub exec_cli_command : List ℕ → Option (List ℕ) → Settings D → Option (Settings D)
  unfolding same_text
  exec_cli_command cmd args s =
      if same_text cmd (b'o' ∷ b'v' ∷ b'e' ∷ b'r' ∷ b'h' ∷ b'e' ∷ b'a' ∷ b'd' ∷ [])
      then some (set_overhead s (number args))
      else if same_text cmd (b'd' ∷ b'r' ∷ b'o' ∷ b'p' ∷ b'-' ∷ b'p' ∷ b'r' ∷ b'o' ∷ b'b' ∷ [])
      then some (set_drop_prob s (number args))
      else if same_text cmd (
          b't' ∷ b'h' ∷ b'r' ∷ b'o' ∷ b't' ∷ b't' ∷ b'l' ∷ b'e' ∷ b'-' ∷ b's' ∷ b'p' ∷ b'e' ∷ b'e'
          ∷ b'd' ∷ [])
      then some (set_throttle_speed s (number args))
      else if same_text cmd (b'h' ∷ b'e' ∷ b'l' ∷ b'p' ∷ [])
      then some s
      else if same_text cmd (b'e' ∷ b'x' ∷ b'i' ∷ b't' ∷ [])
      then none
      else some s

  -- The line with its arguments split off.
  pub exec_line : List ℕ → Settings D → Option (Settings D)
  unfolding split_args exec_cli_command
  exec_line l s = exec_cli_command (split_args l).0 (split_args l).1 s

  -- Whether the program goes on, the settings, the buffer, and what is left of the input.
  abbrev pub Commanded : Type 0
  Commanded = Bool × Settings D × LineBuffer × List ℕ × List ReadAnswer

  -- What follows a line in the loop of `cli_commands`; `again` is its next round.
  pub run_line :
      (Settings D → List ℕ → LineBuffer → List ReadAnswer → Run Commanded)
      → Settings D
      → Read
      → Run Commanded
  unfolding exec_line
  run_line again s (no_line, b, pending, answers) = ok (true, s, b, pending, answers)
  run_line again s (leaves, b, pending, answers) = ok (false, s, b, pending, answers)
  run_line again s (line l, b, pending, answers) = elim (exec_line l s) [
    | none ↦ ok (false, s, b, pending, answers)
    | some s' ↦ again s' pending b answers
  ]

  -- The loop of `cli_commands`.
  pub command_loop : ℕ → Settings D → List ℕ → LineBuffer → List ReadAnswer → Run Commanded
  unfolding get_next_line run_line
  command_loop zero s pending b answers = fault no_fuel
  command_loop (suc fuel) s pending b answers =
      get_next_line 80 pending b answers >>= run_line (command_loop fuel) s

  -- `cli_commands`. Each line takes a byte of the buffer or of the input.
  pub cli_commands : Settings D → List ℕ → LineBuffer → List ReadAnswer → Run Commanded
  unfolding command_loop
  cli_commands s pending b answers =
      command_loop (suc (b.n_bytes_in_buf + length pending)) s pending b answers
