-- ===== src/Tests/Series.antt =====
-- A playlist of two files, each of three bytes, and the commands "help" and "exit" while it waits.
use rq_route_demo.Cli.Overhead.{cli_commands-keeps, exec_line-overhead}
use rq_route_demo.Base.{
  Whenever-ok, ◌∙◌, ℕ, ◌≡◌, refl, true, List, [], ◌∷◌, Option, some, none, arith, Every, ℤ, pos,
}
use rq_route_demo.Packet.{Packet}
use rq_route_demo.Cli.{empty_buffer, gives}
use rq_route_demo.Playlist.Lines.{IsLine, IsSound, name-IsSound}
use rq_route_demo.Playlist.{read_info}
use rq_route_demo.Sender.{FileAnswers}
use rq_route_demo.Sender.Segments.{Session}
use rq_route_demo.Sender.Segments.Waits.{Reaches, here, slept, commanded}
use rq_route_demo.Sender.Segments.Order.{AreFew}
use rq_route_demo.Tests.Clocks.{thousandths, noon, params}
use rq_route_demo.Tests.Sending.{bytes}
use rq_route_demo.Tests.Commands.{input}
use rq_route_demo.Tests.Playlists.{letter-IsText}

-- A number that cannot be read.
abbrev pub no_number : List ℕ → Option ℤ
no_number text = none

-- A fifth more symbols.
abbrev pub one_fifth : ℤ
one_fifth = pos 200

abbrev pub same_file : List ℕ → FileAnswers
same_file path = record { opened = some bytes; seeks = true; tells = true; reopened = some bytes }

-- "a" and "b"
abbrev pub lines : List (List ℕ)
lines = (b'a' ∷ []) ∷ (b'b' ∷ []) ∷ []

abbrev session : Session ℤ
session = record {
  settings = record { overhead = one_fifth; params = params };
  buffer = empty_buffer;
  pending = input;
  answers = gives 2 ∷ gives 99 ∷ [];
  wakes = record { now = noon; ready = true } ∷ [];
}

pub lines-IsLine : Every (IsLine 39) lines
lines-IsLine = (
  record { text = (letter-IsText b'a' (omega arith), tt); fits = omega arith },
  (record { text = (letter-IsText b'b' (omega arith), tt); fits = omega arith }, tt),
)

pub lines-IsSound : Every (IsSound (read_info no_number)) lines
lines-IsSound = (
  name-IsSound no_number b'a' [] (λ e. absurd (omega arith)),
  (name-IsSound no_number b'b' [] (λ e. absurd (omega arith)), tt),
)

-- No command changes the overhead.
reached-overhead :
    (first s : Session ℤ)
    → Reaches no_number first s
    → s.settings.overhead ≡ first.settings.overhead
reached-overhead first _ here = refl
reached-overhead first _ (slept wakes from) = reached-overhead first _ from
reached-overhead first _ (commanded {s'} settings buffer pending answers from runs) =
    let keeps =
      cli_commands-keeps no_number (λ t. t.overhead ≡ s'.settings.overhead)
        (λ l t t' p e. exec_line-overhead no_number (λ text. refl) l t t' e ∙ p) s'.settings
        s'.pending s'.buffer s'.answers refl in
    Whenever-ok (λ c. c.1.overhead ≡ s'.settings.overhead) keeps runs
    ∙ reached-overhead first s' from

pub one_fifth-AreFew :
    (first : Session ℤ) → first.settings.overhead ≡ one_fifth → AreFew thousandths no_number first
one_fifth-AreFew first at_first s from k h =
    rw (reached-overhead first s from ∙ at_first) (ground (arith, h))
