-- ===== src/Sender/Segments/Order.antt =====
-- The order of the files.
use rq_route_demo.Base.{
  ℕ, ◌+◌, ◌*◌, ◌^◌, ◌≤◌, ◌<◌, ◌≡◌, ◌⊎◌, true, List, [], ◌∷◌, length, Option, some, pos_part,
}
use rq_route_demo.Packet.{Packet}
use rq_route_demo.Params.Exact.{max_file}
use rq_route_demo.CodeBlock.Codec.{Codec}
use rq_route_demo.Clock.{Doubles, Timespec}
use rq_route_demo.Sender.{FileAnswers, n_extra}
use rq_route_demo.Sender.Packets.{packets}
use rq_route_demo.Sender.Segments.{Wake, Session, SendEnd, all_sent, waiting, segment_path}
use rq_route_demo.Sender.Segments.Waits.{Reaches, HasLeft, IsPending}

-- The files of the playlist, and what was sent of them.
module _ {D : Type 0} (double : Doubles D) (scan : List ℕ → Option D) (t0 : Timespec)
    (s₀ : Session D) (files : List ℕ → FileAnswers) (dirname : List ℕ) where
  -- The file of a name, which can be read.
  abbrev pub IsFile : List ℕ → List ℕ → Type 0
  IsFile name file =
      files (segment_path dirname name)
      ≡ record { opened = some file; seeks = true; tells = true; reopened = some file }

  -- A name whose file is neither empty nor too large.
  abbrev pub IsSendable : List ℕ → Type 0
  IsSendable name =
      (file : List ℕ) × IsFile name file × (0 < length file) × (length file ≤ max_file)

  -- The packets of the file of a name, numbered `i`.
  abbrev pub IsSent : ℕ → List ℕ → List Packet → Type 0
  IsSent i name sent =
      (file : List ℕ) × (e : ℕ) × (repairs : List ℕ) × IsFile name file
      × (sent ≡ packets e i file repairs)

  -- The packets of the first files, numbered from `i` on.
  abbrev pub AreSent : ℕ → List (List ℕ) → List (List Packet) → Type 0
  AreSent i ns [] = Unit {0}
  AreSent i [] (sent ∷ more) = ⊥
  AreSent i (n ∷ ns) (sent ∷ more) = IsSent i n sent × AreSent (i + 1) ns more

  -- All files of `ns` are sent, or the first ones, and then the program left, or it still waits as the
  -- times `ts` of the files and those of the clock say.
  abbrev pub Sends : ℕ → List (List ℕ) → List D → List Wake → SendEnd × List (List Packet) → Type 0
  Sends i ns ts wakes r =
      AreSent i ns r.1
      × (((r.0 ≡ all_sent) × (length r.1 ≡ length ns))
          ⊎ (HasLeft scan s₀ r.0
              ⊎ ((r.0 ≡ waiting) × IsPending double scan t0 ts wakes (length r.1))))

-- The repair symbols that any overhead in force asks for fit in an `int` of bytes.
abbrev pub AreFew : {D : Type 0} → Doubles D → (List ℕ → Option D) → Session D → Type 0
AreFew {D} double scan s₀ =
    (s : Session D)
    → Reaches scan s₀ s
    → (k : ℕ) → k ≤ 50000
    → pos_part (n_extra double s.settings.overhead k) * 1024 < 2 ^ 31
