-- ===== src/Cli/Commands.antt =====
-- `cli_commands` over all lines of the input.
use rq_route_demo.Base.{
  ℕ, zero, suc, ◌+◌, ◌<◌, ◌≡◌, ◌≢◌, refl, ap, subst, sym, ◌∙◌, ◌⊎◌, inl, inr, arith, Bool, true,
  false, List, [], ◌∷◌, ◌++◌, length, length-append, take, Option, none, some, Run, ok, >>=-ok,
  Every-append, append_assoc,
}
use rq_route_demo.Playlist.{newline}
use rq_route_demo.Cli.{
  ReadAnswer, LineBuffer, line, no_line, leaves, Read, get_next_line, Settings, exec_line,
  Commanded, run_line, command_loop, cli_commands,
}
use rq_route_demo.Cli.Buffer.{IsText, IsOneLine, Holds, Every-append_left, Every-append_right}
use rq_route_demo.Cli.Found.{IsDiscarded, Reads}
use rq_route_demo.Cli.Lines.{get_next_line_lem}

-- The lines of `text`, in order, up to `left`, but for the bytes of full buffers that were discarded.
abbrev pub Lines : List ℕ → List (List ℕ) → List ℕ → Type 0
Lines text [] left = (discarded : List ℕ) × IsDiscarded discarded × (text ≡ discarded ++ left)
Lines text (l ∷ ls) left =
    (discarded : List ℕ) × (later : List ℕ) × IsDiscarded discarded
    × IsOneLine l
    × (text ≡ discarded ++ (l ++ newline ∷ later))
    × Lines later ls left

Option-cases : {A : Type 0} (o : Option A) → (o ≡ none) ⊎ ((a : A) × (o ≡ some a))
Option-cases none = inl refl
Option-cases (some a) = inr (a, refl)

-- More input behind the lines.
IsText-rest :
    (text taken before left : List ℕ)
    → IsText text
    → IsText taken
    → text ++ taken ≡ before ++ left
    → IsText left
IsText-rest text taken before left t u e =
    Every-append_right (λ c. c ≢ 0) before left
      (subst IsText e (Every-append (λ c. c ≢ 0) text taken t u))

module _ {D : Type 0} (scan : List ℕ → Option D) where
  -- The commands of the lines, one after the other: whether no `exit` was among them, and the settings.
  -- Of a line, 79 bytes count.
  pub exec_lines : List (List ℕ) → Settings D → Bool × Settings D
  exec_lines [] s = (true, s)
  exec_lines (l ∷ ls) s = elim (exec_line scan (take 79 l) s) [
    | none ↦ (false, s)
    | some s' ↦ exec_lines ls s'
  ]

  -- What `cli_commands` leaves, for a buffer with `text` and the input `pending`.
  pub record Executes (s : Settings D) (text pending : List ℕ) (r : Commanded scan) : Type 0 where
    pub lines : List (List ℕ)
    pub taken : List ℕ
    pub left : List ℕ
    pub input : pending ≡ taken ++ r.3
    pub holds : Holds r.2 left
    pub splits : Lines (text ++ taken) lines left
    pub settings : (exec_lines lines s).1 ≡ r.1
    pub goes_on : r.0 ≡ true → ((exec_lines lines s).0 ≡ true) × IsOneLine left
    pub stops : r.0 ≡ false → ((exec_lines lines s).0 ≡ false) ⊎ (r.3 ≡ [])

  -- One more line before the others.
  Executes-line :
      (s s' : Settings D) (text taken left pending rest discarded l : List ℕ) (r : Commanded scan)
      → pending ≡ taken ++ rest
      → IsDiscarded discarded
      → IsOneLine l
      → text ++ taken ≡ discarded ++ (l ++ newline ∷ left)
      → exec_line scan (take 79 l) s ≡ some s'
      → Executes s' left rest r
      → Executes s text pending r
  unfolding exec_lines
  Executes-line s s' text taken left pending rest discarded l r e d one whole runs v =
      let same : exec_lines (l ∷ v.lines) s ≡ exec_lines v.lines s' = rw (exec_lines, runs) refl in
      record {
        lines = l ∷ v.lines;
        taken = taken ++ v.taken;
        left = v.left;
        input = e ∙ ap (λ t. taken ++ t) v.input ∙ sym (append_assoc taken v.taken r.3);
        holds = v.holds;
        splits = (
          discarded,
          left ++ v.taken,
          d,
          one,
          sym (append_assoc text taken v.taken)
              ∙ ap (λ t. t ++ v.taken) whole
              ∙ append_assoc discarded (l ++ newline ∷ left) v.taken
              ∙ ap (λ t. discarded ++ t) (append_assoc l (newline ∷ left) v.taken),
          v.splits,
        );
        settings = rw same v.settings;
        goes_on = λ h. rw same (v.goes_on h);
        stops = λ h. rw same (v.stops h);
      }

  -- The end of the loop without a line, and at `exit`.
  Executes-none :
      (s : Settings D) (text pending : List ℕ) (going : Bool) (r : Read)
      (taken left discarded : List ℕ)
      → pending ≡ taken ++ r.2
      → Holds r.1 left
      → IsDiscarded discarded
      → text ++ taken ≡ discarded ++ left
      → IsOneLine left
      → (going ≡ false → r.2 ≡ [])
      → Executes s text pending (going, s, r.1, r.2, r.3)
  unfolding exec_lines
  Executes-none s text pending going r taken left discarded e h d whole one at_end = record {
    lines = [];
    taken = taken;
    left = left;
    input = e;
    holds = h;
    splits = (discarded, d, whole);
    settings = refl;
    goes_on = λ g. (refl, one);
    stops = λ g. inr (at_end g);
  }

  Executes-exit :
      (s : Settings D) (text pending : List ℕ) (r : Read) (taken left discarded l : List ℕ)
      → pending ≡ taken ++ r.2
      → Holds r.1 left
      → IsDiscarded discarded
      → IsOneLine l
      → text ++ taken ≡ discarded ++ (l ++ newline ∷ left)
      → exec_line scan (take 79 l) s ≡ none
      → Executes s text pending (false, s, r.1, r.2, r.3)
  unfolding exec_lines
  Executes-exit s text pending r taken left discarded l e h d one whole runs =
      let stops : exec_lines (l ∷ []) s ≡ (false, s) = rw (exec_lines, runs) refl in
      record {
        lines = l ∷ [];
        taken = taken;
        left = left;
        input = e;
        holds = h;
        splits = (discarded, left, d, one, whole, ([], (0, refl), refl));
        settings = ap (λ t. t.1) stops;
        goes_on = λ g. cc;
        stops = λ g. inl (ap (λ t. t.0) stops);
      }

  -- One round, if the next ones do what they should from shorter texts and inputs.
  run_line_lem :
      (again : Settings D → List ℕ → LineBuffer → List ReadAnswer → Run (Commanded scan))
      (s : Settings D) (text pending : List ℕ) (r : Read)
      → IsText text
      → IsText pending
      → Reads 80 text pending r
      → ((s' : Settings D) (b : LineBuffer) (left rest : List ℕ) (answers : List ReadAnswer)
          → Holds b left
          → IsText left
          → IsText rest
          → length left + length rest < length text + length pending
          → (c : Commanded scan) × (again s' rest b answers ≡ ok c) × Executes s' left rest c)
      → (c : Commanded scan) × (run_line scan again s r ≡ ok c) × Executes s text pending c
  unfolding run_line
  run_line_lem again s text pending (no_line, b, rest, answers) t u v next =
      let (discarded, d, whole, one) = v.found in
      (
        _,
        refl,
        Executes-none s text pending true (no_line, b, rest, answers) v.taken v.left discarded
            v.input v.holds d whole one (λ g. cc),
      )
  run_line_lem again s text pending (leaves, b, rest, answers) t u v next =
      let (discarded, d, whole, one) = v.found in
      (
        _,
        refl,
        Executes-none s text pending false (leaves, b, rest, answers) v.taken v.left discarded
            v.input v.holds d whole one (λ g. v.ends refl),
      )
  run_line_lem again s text pending (line dest, b, rest, answers) t u v next =
      let (discarded, l, d, whole, one, cut) = v.found in
      let at_l : exec_line scan dest s ≡ exec_line scan (take 79 l) s =
        ap (λ x. exec_line scan x s) cut in
      elim (Option-cases (exec_line scan (take 79 l) s)) [
        | inl exits ↦ (
          (false, s, b, rest, answers),
          rw (run_line, at_l ∙ exits) refl,
          Executes-exit s text pending (line dest, b, rest, answers) v.taken v.left discarded l
              v.input v.holds d one whole exits,
        )
        | inr (s', runs) ↦
            let taken_text = Every-append_left (λ c. c ≢ 0) v.taken rest (subst IsText v.input u) in
            let rest_text = Every-append_right (λ c. c ≢ 0) v.taken rest (subst IsText v.input u) in
            let left_text =
              Every-append_right (λ c. c ≢ 0) l (newline ∷ v.left)
                (IsText-rest text v.taken discarded (l ++ newline ∷ v.left) t taken_text whole) in
            let shorter : length v.left + length rest < length text + length pending = omega (
              arith,
              ap (λ x. length x) whole,
              length-append text v.taken,
              length-append discarded (l ++ newline ∷ v.left),
              length-append l (newline ∷ v.left),
              ap (λ x. length x) v.input,
              length-append v.taken rest,
            ) in
            let (c, later, w) =
              next s' b v.left rest answers v.holds left_text.1 rest_text shorter in
            (
              c,
              rw (run_line, at_l ∙ runs) later,
              Executes-line s s' text v.taken v.left pending rest discarded l c v.input d one whole
                  runs w,
            )
      ]

  command_loop_lem :
      (fuel : ℕ) (s : Settings D) (pending : List ℕ) {b : LineBuffer} (text : List ℕ)
      (answers : List ReadAnswer)
      → Holds b text
      → IsText text
      → IsText pending
      → length text + length pending < fuel
      → (c : Commanded scan) × (command_loop scan fuel s pending b answers ≡ ok c)
        × Executes s text pending c
  unfolding command_loop
  command_loop_lem zero s pending text answers h t u enough = absurd (omega arith)
  command_loop_lem (suc fuel) s pending {b} text answers h t u enough =
      let (r, reads, v) = get_next_line_lem 80 pending text answers h t u (omega arith) in
      let (c, runs, w) =
        run_line_lem (command_loop scan fuel) s text pending r t u v
          (λ s' b' left rest answers' h' t' u' shorter.
            command_loop_lem fuel s' rest left answers' h' t' u' (omega arith)) in
      (c, >>=-ok (get_next_line 80 pending b answers) _ r reads ∙ runs, w)

  -- For a buffer with some text, and an input without NUL: `cli_commands` returns without a fault, and has
  -- executed, in order, the first 79 bytes of each line of the text and of the bytes read, but for full
  -- buffers of 255 bytes that were discarded, which may hold complete lines. If it goes on, no line is left in the buffer; else it came to a
  -- line that leaves the program, or to the end of the input.
  pub cli_commands-Executes :
      (s : Settings D) (pending : List ℕ) {b : LineBuffer} (text : List ℕ)
      (answers : List ReadAnswer)
      → Holds b text
      → IsText text
      → IsText pending
      → (c : Commanded scan) × (cli_commands scan s pending b answers ≡ ok c)
        × Executes s text pending c
  unfolding cli_commands
  cli_commands-Executes s pending {b} text answers h t u =
      command_loop_lem (suc (b.n_bytes_in_buf + length pending)) s pending text answers h t u
        (omega (arith, h.counted))
