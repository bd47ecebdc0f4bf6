-- ===== src/Sender/Segments/Waits.antt =====
-- The waits of `send_segments`, and the commands that it takes meanwhile.
use rq_route_demo.Base.{
  ℕ, zero, suc, ◌≡◌, ◌≢◌, refl, ap, subst, if◌then◌else◌, ◌∙◌, ◌⊎◌, arith, Bool, true, false, List,
  [], ◌∷◌, ◌++◌, Option, some, Run, ok, >>=-ok, Bool-cases, inl, inr, Every, Every-append,
}
use rq_route_demo.Clock.{Doubles, Timespec, get_delta_seconds}
use rq_route_demo.Playlist.{newline, hash_sign, starts_with}
use rq_route_demo.Playlist.Lines.{first_name, told, duration}
use rq_route_demo.Cli.{ReadAnswer, LineBuffer, Settings, Commanded, cli_commands}
use rq_route_demo.Cli.Buffer.{IsText, Holds, Every-append_left, Every-append_right}
use rq_route_demo.Cli.Commands.{Lines, Executes, cli_commands-Executes}
use rq_route_demo.Sender.Segments.{
  Wake, Session, SendEnd, exited, waiting, Waited, due, stopped, resume, serve, wait_loop,
}

-- The standard input has no NUL, and its buffer holds some text.
pub record IsReady {D : Type 0} (s : Session D) : Type 0 where
  pub text : List ℕ
  pub holds : Holds s.buffer text
  pub is_text : IsText text
  pub input : IsText s.pending

-- The sessions that the program gets to from one, as time passes and the commands in the input are
-- executed.
pub data Reaches {D : Type 0} (scan : List ℕ → Option D) (s : Session D) : Session D → Type 0 where
  here : Reaches scan s s
  slept :
      {s' : Session D} (wakes : List Wake)
      → Reaches scan s s'
      → Reaches scan s (record s' { wakes = wakes })
  commanded :
      {s' : Session D} (settings : Settings D) (buffer : LineBuffer) (pending : List ℕ)
      (answers : List ReadAnswer)
      → Reaches scan s s'
      → cli_commands scan s'.settings s'.pending s'.buffer s'.answers
        ≡ ok (true, settings, buffer, pending, answers)
      → Reaches scan s
          (record s' { settings = settings; buffer = buffer; pending = pending; answers = answers })

-- The program left, since a session was reached whose commands, or the end of whose input, leave it.
abbrev pub HasLeft : {D : Type 0} → (List ℕ → Option D) → Session D → SendEnd → Type 0
HasLeft {D} scan s₀ end =
    (end ≡ exited)
    × ((s : Session D) × Reaches scan s₀ s
        × ((c : Commanded scan) × (cli_commands scan s.settings s.pending s.buffer s.answers ≡ ok c)
            × (c.0 ≡ false)))

Lines-IsText :
    (ls : List (List ℕ)) (text left : List ℕ) → Lines text ls left → IsText text → IsText left
Lines-IsText [] text left (discarded, d, whole) t =
    Every-append_right (λ c. c ≢ 0) discarded left (subst IsText whole t)
Lines-IsText (l ∷ ls) text left (discarded, later, d, one, whole, w) t =
    let rest =
      Every-append_right (λ c. c ≢ 0) discarded (l ++ newline ∷ later) (subst IsText whole t) in
    Lines-IsText ls later left w (Every-append_right (λ c. c ≢ 0) l (newline ∷ later) rest).1

-- The times on which the waits go.
module _ {D : Type 0} (double : Doubles D) (scan : List ℕ → Option D) (t0 : Timespec) where
  -- Whether `t` seconds have passed.
  abbrev pub is_over : D → Wake → Bool
  is_over t w = double.less_eq t (get_delta_seconds double w.now t0)

  -- `rest` is what is left behind the first time after `t` seconds.
  abbrev pub IsDue : D → List Wake → List Wake → Type 0
  IsDue t [] rest = ⊥
  IsDue t (w ∷ ws) rest =
      ((is_over t w ≡ true) × (rest ≡ ws)) ⊎ ((is_over t w ≡ false) × IsDue t ws rest)

  -- No time is after `t` seconds.
  abbrev pub IsEarly : D → List Wake → Type 0
  IsEarly t ws = Every (λ w. is_over t w ≡ false) ws

  -- After `n` files, which were sent at the times `ts`, it still waits for the last of these times.
  abbrev pub IsPending : List D → List Wake → ℕ → Type 0
  IsPending [] ws n = ⊥
  IsPending (t ∷ ts) ws zero = ⊥
  IsPending (t ∷ ts) ws (suc n) =
      ((n ≡ 0) × IsEarly t ws) ⊎ ((rest : List Wake) × IsDue t ws rest × IsPending ts rest n)

  -- When each name of the playlist is over: its duration after the one before it.
  abbrev pub times : List (List ℕ) → D → D → List D
  times [] d dur = []
  times (l ∷ ls) d dur =
      let d' = duration scan l d in
      if starts_with hash_sign l
      then times ls d' dur
      else double.add dur d' ∷ times ls d' (double.add dur d')

  pub times-first :
      (ls : List (List ℕ)) (d dur : D) (name : List ℕ) (rest : List (List ℕ))
      → first_name ls ≡ some (name, rest)
      → times ls d dur
        ≡ double.add dur (told (duration scan) ls d)
          ∷ times rest (told (duration scan) ls d) (double.add dur (told (duration scan) ls d))
  times-first [] d dur name rest e = cc
  times-first (l ∷ ls) d dur name rest e = elim (Bool-cases (starts_with hash_sign l)) [
    | inl comment ↦
        rw comment (times-first ls (duration scan l d) dur name rest (ground (arith, comment, e)))
    | inr named ↦
        let same : ls ≡ rest = ground (arith, named, e) in
        let d' = duration scan l d in
        rw named (ap (λ q. double.add dur d' ∷ times q d' (double.add dur d')) same)
  ]

module _ {D : Type 0} (double : Doubles D) (scan : List ℕ → Option D) (t0 : Timespec)
    (dur_accum : D) (s₀ : Session D) where
  -- A wait over these times ends in a session that is reached, when it is due, or stops.
  abbrev pub IsWaited : List Wake → Waited D → Type 0
  IsWaited wakes (due s) =
      IsReady s × Reaches scan s₀ s × IsDue double scan t0 dur_accum wakes s.wakes
  IsWaited wakes (stopped end) =
      HasLeft scan s₀ end ⊎ ((end ≡ waiting) × IsEarly double scan t0 dur_accum wakes)

  IsWaited-early :
      (k : Wake) (wakes : List Wake) (w : Waited D)
      → is_over double scan t0 dur_accum k ≡ false
      → IsWaited wakes w
      → IsWaited (k ∷ wakes) w
  IsWaited-early k wakes (due s) early (v, from, is) = (v, from, inr (early, is))
  IsWaited-early k wakes (stopped end) early (inl left) = inl left
  IsWaited-early k wakes (stopped end) early (inr (e, all)) = inr (e, (early, all))

  -- The next round of the waiting loop ends so.
  abbrev Waits : List Wake → (Session D → Run (Waited D)) → Type 0
  Waits wakes again =
      (s' : Session D)
      → IsReady s'
      → Reaches scan s₀ s'
      → (w : Waited D) × (again s' ≡ ok w) × IsWaited wakes w

  resume_lem :
      (wakes : List Wake) (again : Session D → Run (Waited D)) (s : Session D) (c : Commanded scan)
      {text : List ℕ}
      → IsText text
      → IsText s.pending
      → Executes scan s.settings text s.pending c
      → Reaches scan s₀ s
      → cli_commands scan s.settings s.pending s.buffer s.answers ≡ ok c
      → Waits wakes again
      → (w : Waited D) × (resume double scan again s c ≡ ok w) × IsWaited wakes w
  unfolding resume
  resume_lem wakes again s (false, settings, buffer, pending, answers) t u x from runs next =
      (stopped exited, refl, inl (refl, (s, from, (_, runs, refl))))
  resume_lem wakes again s (true, settings, buffer, pending, answers) {text} t u x from runs next =
      let parts = subst IsText x.input u in
      next (record s { settings = settings; buffer = buffer; pending = pending; answers = answers })
        (record {
          text = x.left;
          holds = x.holds;
          is_text = Lines-IsText x.lines (text ++ x.taken) x.left x.splits (
              Every-append (λ c. c ≢ 0) text x.taken t
                (Every-append_left (λ c. c ≢ 0) x.taken pending parts));
          input = Every-append_right (λ c. c ≢ 0) x.taken pending parts;
        })
        (commanded settings buffer pending answers from runs)

  serve_lem :
      (wakes : List Wake) (again : Session D → Run (Waited D)) (ready : Bool) (s : Session D)
      → IsReady s
      → Reaches scan s₀ s
      → Waits wakes again
      → (w : Waited D) × (serve double scan again ready s ≡ ok w) × IsWaited wakes w
  unfolding serve
  serve_lem wakes again false s v from next = next s v from
  serve_lem wakes again true s v from next =
      let (c, runs, x) =
        cli_commands-Executes scan s.settings s.pending v.text s.answers v.holds v.is_text
          v.input in
      let (w, resumes, is) = resume_lem wakes again s c v.is_text v.input x from runs next in
      (w, >>=-ok (cli_commands scan s.settings s.pending s.buffer s.answers) _ c runs ∙ resumes, is)

  -- The waiting loop ends so.
  pub wait_loop_lem :
      (wakes : List Wake) (s : Session D)
      → IsReady s
      → Reaches scan s₀ s
      → (w : Waited D) × (wait_loop double scan t0 dur_accum wakes s ≡ ok w) × IsWaited wakes w
  unfolding wait_loop
  wait_loop_lem [] s v from = (stopped waiting, refl, inr (refl, tt))
  wait_loop_lem (k ∷ wakes) s v from =
      elim (Bool-cases (double.less_eq dur_accum (get_delta_seconds double k.now t0))) [
        | inl over ↦ (
          due (record s { wakes = wakes }),
          rw (wait_loop, over) refl,
          (
            record { text = v.text; holds = v.holds; is_text = v.is_text; input = v.input },
            slept wakes from,
            inl (over, refl),
          ),
        )
        | inr early ↦
            let (w, runs, is) =
              serve_lem wakes (wait_loop double scan t0 dur_accum wakes) k.ready s v from
                (wait_loop_lem wakes) in
            (w, rw (wait_loop, early) runs, IsWaited-early k wakes w early is)
      ]
