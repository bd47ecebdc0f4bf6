-- ===== src/Tests/Commands.antt =====
-- The commands "help" and "exit" on the standard input, which `read` gives in two parts.
use rq_route_demo.Base.{
  ℕ, ◌<◌, ◌≡◌, ◌≢◌, refl, List, [], ◌∷◌, Option, none, some, replicate, ok, arith,
}
use rq_route_demo.Cli.{
  ReadAnswer, gives, Read, empty_buffer, get_next_line, Settings, Commanded, cli_commands,
}
use rq_route_demo.Cli.Buffer.{Holds, IsText}
use rq_route_demo.Cli.Found.{Reads}
use rq_route_demo.Cli.Lines.{get_next_line_lem}
use rq_route_demo.Cli.Commands.{Executes, cli_commands-Executes}

abbrev pub input : List ℕ
input = b'h' ∷ b'e' ∷ b'l' ∷ b'p' ∷ b'\n' ∷ b'e' ∷ b'x' ∷ b'i' ∷ b't' ∷ b'\n' ∷ []

pub input-IsText : IsText input
input-IsText =
    let text : (c : ℕ) → 0 < c → c ≢ 0 = λ c h e. absurd (omega arith) in
    (
      text b'h' (omega arith),
      (
        text b'e' (omega arith),
        (
          text b'l' (omega arith),
          (
            text b'p' (omega arith),
            (
              text b'\n' (omega arith),
              (
                text b'e' (omega arith),
                (
                  text b'x' (omega arith),
                  (
                    text b'i' (omega arith),
                    (text b't' (omega arith), (text b'\n' (omega arith), tt)),
                  ),
                ),
              ),
            ),
          ),
        ),
      ),
    )

pub empty_buffer-Holds : Holds empty_buffer []
empty_buffer-Holds = record {
  behind = replicate 255 0;
  bytes = refl;
  counted = refl;
  sized = refl;
  room = omega arith;
}

abbrev answers : List ReadAnswer
answers = gives 2 ∷ gives 99 ∷ []

get_next_line_lem_example :
    (r : Read) × (get_next_line 80 input empty_buffer answers ≡ ok r) × Reads 80 [] input r
get_next_line_lem_example =
    get_next_line_lem 80 input [] answers empty_buffer-Holds tt input-IsText (omega arith)

-- The first byte as the number.
abbrev first_byte : List ℕ → Option ℕ
first_byte [] = none
first_byte (c ∷ cs) = some c

abbrev settings : Settings ℕ
settings = record {
  overhead = 0;
  params = record { throttle_speed = 15; drop_prob = 0; recv_addr = [] };
}

cli_commands-Executes_example :
    (c : Commanded first_byte) × (cli_commands first_byte settings input empty_buffer answers
      ≡ ok c)
    × Executes first_byte settings [] input c
cli_commands-Executes_example =
    cli_commands-Executes first_byte settings input [] answers empty_buffer-Holds tt input-IsText
