-- ===== src/Tests/Playlists.antt =====
-- A playlist of a comment and two names.
use rq_route_demo.Base.{
  refl, ◌++◌, Option, none, ℕ, ◌≡◌, ◌≤◌, ◌<◌, List, [], ◌∷◌, length, take, ok, some, arith, Every,
}
use rq_route_demo.Playlist.{is_prefix, dummy_get_next_ent, get_next_ent, extinf}
use rq_route_demo.Playlist.Lines.{
  IsText, IsLine, get_next_ent-print, extinf-IsSound, name-IsSound, print, names,
  dummy_get_next_ent-print,
}
use rq_route_demo.SegmentList.{SegmentList, load, maxlen_fn, name_room}
use rq_route_demo.SegmentList.Load.{paths, load-print}

-- "#E", "a", "bc"
abbrev lines : List (List ℕ)
lines = (b'#' ∷ b'E' ∷ []) ∷ (b'a' ∷ []) ∷ (b'b' ∷ b'c' ∷ []) ∷ []

pub letter-IsText : (c : ℕ) → 10 < c → IsText c
letter-IsText c h = (λ e. absurd (omega arith), λ e. absurd (omega arith))

lines-IsLine : Every (IsLine maxlen_fn) lines
lines-IsLine = (
  record {
    text = (letter-IsText b'#' (omega arith), (letter-IsText b'E' (omega arith), tt));
    fits = omega arith;
  },
  (
    record { text = (letter-IsText b'a' (omega arith), tt); fits = omega arith },
    (
      record {
        text = (letter-IsText b'b' (omega arith), (letter-IsText b'c' (omega arith), tt));
        fits = omega arith;
      },
      tt,
    ),
  ),
)

dummy_get_next_ent-print_example :
    dummy_get_next_ent maxlen_fn name_room (print lines)
    ≡ ok (some (b'a' ∷ []), print ((b'b' ∷ b'c' ∷ []) ∷ []), tt)
dummy_get_next_ent-print_example = dummy_get_next_ent-print maxlen_fn name_room lines lines-IsLine

load-print_example :
    (l : SegmentList) × (load (b'd' ∷ []) (some (print lines)) ≡ ok (some l))
    × (l.n_segments ≡ 2)
    × (l.n_segments ≤ length l.segments)
    × (take l.n_segments l.segments ≡ paths (b'd' ∷ []) (names lines))
load-print_example = load-print (b'd' ∷ []) lines lines-IsLine (omega arith)

-- The first byte as the duration.
abbrev first_byte : List ℕ → Option ℕ
first_byte [] = none
first_byte (c ∷ cs) = some c

-- "#EXTINF:5", "a"
abbrev timed : List (List ℕ)
timed = (extinf ++ b'5' ∷ []) ∷ (b'a' ∷ []) ∷ []

timed-IsLine : Every (IsLine 39) timed
timed-IsLine =
    let c : (c : ℕ) → 10 < c → IsText c = letter-IsText in
    (
      record {
        text = (
          c b'#' (omega arith),
          (
            c b'E' (omega arith),
            (
              c b'X' (omega arith),
              (
                c b'T' (omega arith),
                (
                  c b'I' (omega arith),
                  (
                    c b'N' (omega arith),
                    (c b'F' (omega arith), (c b':' (omega arith), (c b'5' (omega arith), tt))),
                  ),
                ),
              ),
            ),
          ),
        );
        fits = omega arith;
      },
      (record { text = (c b'a' (omega arith), tt); fits = omega arith }, tt),
    )

get_next_ent-print_example :
    get_next_ent first_byte 40 39 (print timed) 0 ≡ ok (some (b'a' ∷ []), [], b'5')
unfolding is_prefix
get_next_ent-print_example = get_next_ent-print first_byte 40 39 timed 0 timed-IsLine (
  extinf-IsSound first_byte (b'5' ∷ []) refl,
  (name-IsSound first_byte b'a' [] (λ e. absurd (omega arith)), tt),
)
