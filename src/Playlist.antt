-- ===== src/Playlist.antt =====
-- utils/m3u8.c: the entries of a playlist. A stream is the bytes that are left of the file. `scan` is
-- `sscanf(_, "%lg,", _)`, which the C library does; `D` is the type of what it reads.
pub mod Lines
pub mod Names
use rq_route_demo.Base.{
  ℕ, zero, suc, ◌-◌, Bool, true, false, ◌&&◌, List, [], ◌∷◌, length, drop, Option, none, some, Run,
  ok, fault, no_fuel, out_of_bounds, ◌+◌, ◌>>=◌, ◌>>◌, assert, c_str, ltb, ◌==◌, if◌then◌else◌,
}

abbrev pub newline : ℕ
newline = 10

abbrev pub hash_sign : ℕ
hash_sign = b'#'

-- At most `m` bytes of the stream, up to and with the first newline.
pub read_line : ℕ → List ℕ → List ℕ × List ℕ
read_line zero stream = ([], stream)
read_line (suc m) [] = ([], [])
read_line (suc m) (c ∷ cs) =
    let (line, rest) = read_line m cs in if c == newline then (c ∷ [], cs) else (c ∷ line, rest)

-- `fgets` into an array of `n` bytes: the bytes read and those left, or nothing at the end.
pub fgets : ℕ → List ℕ → Option (List ℕ × List ℕ)
unfolding read_line
fgets n [] = none
fgets n (c ∷ cs) = some (read_line (n - 1) (c ∷ cs))

-- `strncmp(text, prefix, strlen(prefix)) == 0`
unfoldable pub is_prefix : List ℕ → List ℕ → Bool
is_prefix [] text = true
is_prefix (p ∷ ps) [] = false
is_prefix (p ∷ ps) (c ∷ cs) = p == c && is_prefix ps cs

-- `"#EXTINF:"`
abbrev pub extinf : List ℕ
extinf = b'#' ∷ b'E' ∷ b'X' ∷ b'T' ∷ b'I' ∷ b'N' ∷ b'F' ∷ b':' ∷ []

-- The string without a newline at its end.
pub chop : List ℕ → List ℕ
chop [] = []
chop (c ∷ []) = if c == newline then [] else c ∷ []
chop (c ∷ d ∷ rest) = c ∷ chop (d ∷ rest)

abbrev pub starts_with : ℕ → List ℕ → Bool
starts_with a [] = false
starts_with a (c ∷ cs) = c == a

-- The part behind the loop.
pub finish : {D : Type 0} → List ℕ → List ℕ → D → Run (Option (List ℕ) × List ℕ × D)
unfolding chop
finish text rest d = do assert (ltb 0 (length text)); ok (some (chop text), rest, d)

module _ {D : Type 0} where
  -- What `m3u8_get_next_ent` does with the string of a line that is not empty: the duration of an
  -- EXTINF line is read, or fails to be.
  pub read_info : (List ℕ → Option D) → List ℕ → D → Option D
  unfolding is_prefix
  read_info scan text d = if is_prefix extinf text then scan (drop 8 text) else some d

  -- The same in `dummy_m3u8_get_next_ent`, which reads no duration.
  pub no_info : List ℕ → D → Option D
  no_info text d = some d

  -- The loop. After `continue`, at an empty string, the condition of the loop is tested, and fails.
  -- `fgets` writes a NUL behind the line, at an address with `room` bytes behind it.
  pub next_line :
      (List ℕ → D → Option D) → ℕ → ℕ → ℕ → List ℕ → D → Run (Option (List ℕ) × List ℕ × D)
  unfolding fgets finish
  next_line info n room zero stream d = fault no_fuel
  next_line info n room (suc fuel) stream d = elim (fgets n stream) [
    | none ↦ ok (none, stream, d)
    | some (line, rest) ↦ elim (ltb room (length line + 1)) [
      | true ↦ fault out_of_bounds
      | false ↦ elim (info (c_str line) d) [
        | none ↦ ok (none, rest, d)
        | some d' ↦ elim (starts_with hash_sign (c_str line)) [
          | true ↦ next_line info n room fuel rest d'
          | false ↦ finish (c_str line) rest d'
        ]
      ]
    ]
  ]

  -- `m3u8_get_next_ent` for an array said to have `n` bytes, of which there are `room`. The result `false` is `none`. Each round takes a byte
  -- of the stream.
  pub get_next_ent : (List ℕ → Option D) → ℕ → ℕ → List ℕ → D → Run (Option (List ℕ) × List ℕ × D)
  unfolding next_line read_info
  get_next_ent scan n room stream d =
      next_line (read_info scan) n room (suc (length stream)) stream d

-- `dummy_m3u8_get_next_ent`
pub dummy_get_next_ent : ℕ → ℕ → List ℕ → Run (Option (List ℕ) × List ℕ × Unit {0})
unfolding next_line no_info
dummy_get_next_ent n room stream = next_line no_info n room (suc (length stream)) stream tt
