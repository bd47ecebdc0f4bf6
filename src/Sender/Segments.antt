-- ===== src/Sender/Segments.antt =====
-- sender/sender.c: `send_segments`, which sends the files of the playlist one after the other, and waits
-- behind each until it is its time, while it takes commands. The packets of each file are the result.
pub mod Waits
pub mod Order
use rq_route_demo.Base.{
  ℕ, zero, suc, ◌+◌, ◌-◌, Bool, true, false, List, [], ◌∷◌, ◌++◌, length, Option, none, some, Run,
  ok, fault, no_fuel, ◌>>=◌, ℤ, pos,
}
use rq_route_demo.Memory.{Malloc}
use rq_route_demo.Packet.{Packet}
use rq_route_demo.CodeBlock.Codec.{Codec, CodecSizes}
use rq_route_demo.Clock.{Doubles, Timespec, get_delta_seconds}
use rq_route_demo.Playlist.{get_next_ent}
use rq_route_demo.Cli.{ReadAnswer, LineBuffer, Settings, Commanded, cli_commands}
use rq_route_demo.Sender.{FileAnswers, Xmit, xmit_file, n_extra}

-- What the clock gives in one round of the waiting loop, and whether `pselect` finds input.
pub record Wake : Type 0 where
  pub now : Timespec
  pub ready : Bool

-- What the commands read and change, and the answers that are left.
pub record Session (D : Type 0) : Type 0 where
  pub settings : Settings D
  pub buffer : LineBuffer
  pub pending : List ℕ
  pub answers : List ReadAnswer
  pub wakes : List Wake

-- How `send_segments` ends: with true, with false, by `exit(0)`; or it waits, when no answer is left.
pub data SendEnd : Type 0 where
  all_sent : SendEnd
  failed : SendEnd
  exited : SendEnd
  waiting : SendEnd

-- How a wait ends: the next file is due, or not.
pub data Waited (D : Type 0) : Type 0 where
  due : Session D → Waited D
  stopped : SendEnd → Waited D

-- `fnam_buf`
abbrev pub segment_path : List ℕ → List ℕ → List ℕ
segment_path dirname name = dirname ++ b'/' ∷ name

-- `len_pbuf`
abbrev pub len_pbuf : ℕ
len_pbuf = 40

-- The room for a name in `fnam_buf`: its `len_dirname + len_pbuf` bytes less those before it.
abbrev pub path_room : List ℕ → ℕ
path_room dirname = length dirname + len_pbuf - (length dirname + 1)

module _ {D : Type 0} (double : Doubles D) (scan : List ℕ → Option D) where
  -- Behind the commands; `again` is the next round of the loop.
  pub resume : (Session D → Run (Waited D)) → Session D → Commanded scan → Run (Waited D)
  resume again s (false, settings, buffer, pending, answers) = ok (stopped exited)
  resume again s (true, settings, buffer, pending, answers) =
      again
        (record s { settings = settings; buffer = buffer; pending = pending; answers = answers })

  -- The commands, if the input is ready.
  pub serve : (Session D → Run (Waited D)) → Bool → Session D → Run (Waited D)
  unfolding resume
  serve again false s = again s
  serve again true s = cli_commands scan s.settings s.pending s.buffer s.answers >>= resume again s

  -- The loop that waits until `dur_accum` seconds have passed since `t0`.
  pub wait_loop : Timespec → D → List Wake → Session D → Run (Waited D)
  unfolding serve
  wait_loop t0 dur_accum [] s = ok (stopped waiting)
  wait_loop t0 dur_accum (w ∷ wakes) s =
      elim (double.less_eq dur_accum (get_delta_seconds double w.now t0)) [
        | true ↦ ok (due (record s { wakes = wakes }))
        | false ↦ serve (wait_loop t0 dur_accum wakes) w.ready s
      ]

  module _ {C : Type 0} (rq : Codec C) (heap : Malloc) (sizes : CodecSizes)
      (files : List ℕ → FileAnswers) (dirname : List ℕ) (t0 : Timespec) where
    -- What is left: the end, and the packets of each file.
    abbrev pub Segments : Type 0
    Segments = SendEnd × List (List Packet)

    -- Behind the wait: `next` sends the other files.
    pub after_wait : (Session D → Run Segments) → List Packet → Waited D → Run Segments
    after_wait next sent (stopped end) = ok (end, sent ∷ [])
    after_wait next sent (due s) = next s >>= λ r. ok (r.0, sent ∷ r.1)

    -- Behind `xmit_file`.
    pub after_xmit :
        (C → Session D → Run Segments) → D → Session D → Bool × List Packet × C → Run Segments
    unfolding wait_loop after_wait
    after_xmit next dur_accum s (false, sent, c) = ok (failed, sent ∷ [])
    after_xmit next dur_accum s (true, sent, c) =
        wait_loop t0 dur_accum s.wakes s >>= after_wait (next c) sent

    -- The loop over the playlist; `d` is the last duration read.
    pub segment_loop : ℕ → ℕ → D → Session D → C → List ℕ → D → Run Segments
    unfolding after_xmit
    segment_loop zero file_nbr dur_accum s c stream d = fault no_fuel
    segment_loop (suc fuel) file_nbr dur_accum s c stream d = do
      (entry, rest, d') ← get_next_ent scan len_pbuf (path_room dirname) stream d
      elim entry [
        | none ↦ ok (all_sent, [])
        | some name ↦
            xmit_file rq heap sizes (n_extra double s.settings.overhead) file_nbr
              (files (segment_path dirname name)) c
            >>= after_xmit
                (λ c' s'. segment_loop fuel (file_nbr + 1) (double.add dur_accum d') s' c' rest d')
                (double.add dur_accum d') s
      ]

    -- `send_segments`, for what `fopen` gives for the playlist, whether `cli_init` succeeds, and `unset`, the
    -- value of a variable before its first assignment. Each entry takes a byte of the stream.
    pub send_segments : Option (List ℕ) → Bool → D → Session D → C → Run Segments
    unfolding segment_loop
    send_segments none set_up unset s c = ok (failed, [])
    send_segments (some stream) false unset s c = ok (failed, [])
    send_segments (some stream) true unset s c =
        segment_loop (suc (length stream)) 0 (double.of_int (pos 0)) s c stream unset
