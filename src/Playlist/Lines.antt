-- ===== src/Playlist/Lines.antt =====
-- The parser on a playlist that was printed line by line.
use rq_route_demo.Base.{
  drop, min, ltb, ℕ, zero, suc, ◌+◌, ◌-◌, ◌≤◌, ◌<◌, ◌≡◌, ◌≢◌, refl, ap, ◌∙◌, arith, true, false,
  List, [], ◌∷◌, ◌++◌, length, length-append, Option, none, some, ok, ◌==◌, if◌then◌else◌, c_str,
  Every, Bool-cases, inl, inr,
}
use rq_route_demo.Playlist.{
  newline, hash_sign, read_line, fgets, chop, starts_with, is_prefix, extinf, finish, next_line,
  read_info, no_info, get_next_ent, dummy_get_next_ent,
}

-- A byte of a line: neither the newline nor NUL.
abbrev pub IsText : ℕ → Type 0
IsText c = (c ≢ newline) × (c ≢ 0)

-- A line that an array of `n` bytes can hold with its newline and the NUL behind it.
pub record IsLine (n : ℕ) (l : List ℕ) : Type 0 where
  pub text : Every IsText l
  pub fits : length l + 2 ≤ n

-- The lines as a file.
abbrev pub print : List (List ℕ) → List ℕ
print [] = []
print (l ∷ ls) = l ++ newline ∷ print ls

-- The lines that are no comments.
abbrev pub names : List (List ℕ) → List (List ℕ)
names [] = []
names (l ∷ ls) = if starts_with hash_sign l then names ls else l ∷ names ls

read_line_line :
    (m : ℕ) (l rest : List ℕ)
    → Every IsText l
    → length l < m
    → read_line m (l ++ newline ∷ rest) ≡ (l ++ newline ∷ [], rest)
unfolding read_line
read_line_line zero l rest t h = absurd (omega arith)
read_line_line (suc m) [] rest t h = refl
read_line_line (suc m) (c ∷ l) rest (t, ts) h =
    let other : (c == newline) ≡ false = ground (arith, t.0) in
    rw (other, read_line_line m l rest ts (omega arith))

fgets_line :
    (n : ℕ) (l rest : List ℕ)
    → IsLine n l
    → fgets n (l ++ newline ∷ rest) ≡ some (l ++ newline ∷ [], rest)
unfolding fgets
fgets_line n [] rest v = ap some (read_line_line (n - 1) [] rest tt (omega (arith, v.fits)))
fgets_line n (c ∷ l) rest v =
    ap some (read_line_line (n - 1) (c ∷ l) rest v.text (omega (arith, v.fits)))

-- It fits in the room that there is.
fits_line :
    (n room : ℕ) (l : List ℕ)
    → IsLine (min n room) l
    → IsLine n l × (ltb room (length (l ++ newline ∷ []) + 1) ≡ false)
fits_line n room l v = (
  record { text = v.text; fits = omega (arith, v.fits) },
  ground (arith, v.fits, length-append l (newline ∷ [])),
)

c_str_line : (l : List ℕ) → Every IsText l → c_str (l ++ newline ∷ []) ≡ l ++ newline ∷ []
c_str_line [] t = refl
c_str_line (c ∷ l) (t, ts) =
    let other : (c == 0) ≡ false = ground (arith, t.1) in rw (other, c_str_line l ts)

chop_line : (l : List ℕ) → Every IsText l → chop (l ++ newline ∷ []) ≡ l
unfolding chop
chop_line [] t = refl
chop_line (c ∷ []) t = refl
chop_line (c ∷ d ∷ l) (t, ts) = ap (λ r. c ∷ r) (chop_line (d ∷ l) ts)

starts_with_line :
    (l : List ℕ) → starts_with hash_sign (l ++ newline ∷ []) ≡ starts_with hash_sign l
starts_with_line [] = refl
starts_with_line (c ∷ l) = refl

finish_line :
    {D : Type 0} (l rest : List ℕ) (d : D)
    → Every IsText l
    → finish (l ++ newline ∷ []) rest d ≡ ok (some l, rest, d)
unfolding finish
finish_line l rest d t = ground (arith, length-append l (newline ∷ []), chop_line l t)

-- The first name and the lines behind it.
abbrev pub first_name : List (List ℕ) → Option (List ℕ × List (List ℕ))
first_name [] = none
first_name (l ∷ ls) = if starts_with hash_sign l then first_name ls else some (l, ls)

-- What the parser gives for a file of lines, and `d`.
abbrev pub entry_of :
    {D : Type 0} → Option (List ℕ × List (List ℕ)) → D → Option (List ℕ) × List ℕ × D
entry_of none d = (none, [], d)
entry_of (some (l, ls)) d = (some l, print ls, d)

-- What is read of the lines up to the first name, and `d` before them.
abbrev pub told : {D : Type 0} → (List ℕ → D → D) → List (List ℕ) → D → D
told tell [] d = d
told tell (l ∷ ls) d = if starts_with hash_sign l then told tell ls (tell l d) else tell l d

-- The duration in an EXTINF line, if there is one.
abbrev pub duration : {D : Type 0} → (List ℕ → Option D) → List ℕ → D → D
duration scan l d =
    if is_prefix extinf l
    then elim (scan (drop 8 l ++ newline ∷ [])) [ none ↦ d | some x ↦ x ]
    else d

module _ {D : Type 0} (info : List ℕ → D → Option D) where
  -- A line in which the parser finds no fault.
  abbrev pub IsSound : List ℕ → Type 0
  IsSound l = (d : D) → (d' : D) × (info (l ++ newline ∷ []) d ≡ some d')

  -- A comment is passed over.
  next_line_comment :
      (n room fuel : ℕ) (l rest : List ℕ) (d d' : D)
      → IsLine (min n room) l
      → starts_with hash_sign l ≡ true
      → info (l ++ newline ∷ []) d ≡ some d'
      → next_line info n room (suc fuel) (l ++ newline ∷ rest) d
        ≡ next_line info n room fuel rest d'
  unfolding next_line
  next_line_comment n room fuel l rest d d' v h sound =
      let (line, inside) = fits_line n room l v in
      rw (fgets_line n l rest line, next_line)
        (rw (inside, c_str_line l v.text, sound)
          (rw (c_str_line l v.text, starts_with_line l, h) refl))

  -- Any other line is the next entry.
  next_line_name :
      (n room fuel : ℕ) (l rest : List ℕ) (d d' : D)
      → IsLine (min n room) l
      → starts_with hash_sign l ≡ false
      → info (l ++ newline ∷ []) d ≡ some d'
      → next_line info n room (suc fuel) (l ++ newline ∷ rest) d ≡ ok (some l, rest, d')
  unfolding next_line
  next_line_name n room fuel l rest d d' v h sound =
      let (line, inside) = fits_line n room l v in
      rw (fgets_line n l rest line, next_line)
        (rw (inside, c_str_line l v.text, sound)
          (rw (c_str_line l v.text, starts_with_line l, h)
            (rw (c_str_line l v.text) (finish_line l rest d' v.text))))

  -- The lines with nothing wrong in them, where `tell` says what is read of a line.
  pub next_line-print :
      (tell : List ℕ → D → D)
      → ((l : List ℕ) (d d' : D) → info (l ++ newline ∷ []) d ≡ some d' → tell l d ≡ d')
      → (n room fuel : ℕ) (ls : List (List ℕ)) (d : D) → Every (IsLine (min n room)) ls
      → Every IsSound ls
      → length (print ls) < fuel
      → next_line info n room fuel (print ls) d ≡ ok (entry_of (first_name ls) (told tell ls d))
  unfolding fgets next_line
  next_line-print tell reads n room zero ls d v s h = absurd (omega arith)
  next_line-print tell reads n room (suc fuel) [] d v s h = refl
  next_line-print tell reads n room (suc fuel) (l ∷ ls) d (v, vs) (s, ss) h =
      let (d₁, sound) = s d in
      let read : tell l d ≡ d₁ = reads l d d₁ sound in
      elim (Bool-cases (starts_with hash_sign l)) [
        | inl comment ↦
            let rest =
              next_line-print tell reads n room fuel ls d₁ vs ss
                (omega (arith, length-append l (newline ∷ print ls))) in
            rw (comment, read)
              (next_line_comment n room fuel l (print ls) d d₁ v comment sound ∙ rest)
        | inr name ↦ rw (name, read) (next_line_name n room fuel l (print ls) d d₁ v name sound)
      ]

Every-all : {A : Type 0} (P : A → Type 0) (xs : List A) → ((a : A) → P a) → Every P xs
Every-all P [] h = tt
Every-all P (x ∷ xs) h = (h x, Every-all P xs h)

-- On a file of lines that fit in the array, as large as it is and as it is said to be, without NUL and each ended by a newline, the parser gives
-- the first line that is no comment, and leaves the lines behind it; it says so when there is none.
pub dummy_get_next_ent-print :
    (n room : ℕ) (ls : List (List ℕ))
    → Every (IsLine (min n room)) ls
    → dummy_get_next_ent n room (print ls) ≡ ok (entry_of (first_name ls) tt)
unfolding dummy_get_next_ent no_info
dummy_get_next_ent-print n room ls v =
    next_line-print no_info (λ l d. tt) (λ l d d' e. refl) n room (suc (length (print ls))) ls tt v
      (Every-all (IsSound no_info) ls (λ l d. (d, refl))) (omega arith)

is_prefix-newline :
    (p l rest : List ℕ)
    → Every (λ c. c ≢ newline) p
    → is_prefix p (l ++ newline ∷ rest) ≡ is_prefix p l
unfolding is_prefix
is_prefix-newline [] l rest h = refl
is_prefix-newline (a ∷ p) [] rest (h, hs) = ground (arith, h)
is_prefix-newline (a ∷ p) (c ∷ l) rest (h, hs) = rw (is_prefix-newline p l rest hs) refl

drop-is_prefix :
    (p l rest : List ℕ)
    → is_prefix p l ≡ true
    → drop (length p) (l ++ rest) ≡ drop (length p) l ++ rest
unfolding is_prefix
drop-is_prefix [] l rest h = refl
drop-is_prefix (a ∷ p) [] rest h = cc
drop-is_prefix (a ∷ p) (c ∷ l) rest h = drop-is_prefix p l rest (ground (arith, h))

extinf-IsText : Every (λ c. c ≢ newline) extinf
extinf-IsText =
    let other : (c : ℕ) → newline < c → c ≢ newline = λ c h e. absurd (omega arith) in
    (
      other b'#' (omega arith),
      (
        other b'E' (omega arith),
        (
          other b'X' (omega arith),
          (
            other b'T' (omega arith),
            (
              other b'I' (omega arith),
              (
                other b'N' (omega arith),
                (other b'F' (omega arith), (other b':' (omega arith), tt)),
              ),
            ),
          ),
        ),
      ),
    )

duration-read_info :
    {D : Type 0} (scan : List ℕ → Option D) (l : List ℕ) (d d' : D)
    → read_info scan (l ++ newline ∷ []) d ≡ some d'
    → duration scan l d ≡ d'
unfolding read_info
duration-read_info scan l d d' e =
    let same = is_prefix-newline extinf l [] extinf-IsText in
    elim (Bool-cases (is_prefix extinf l)) [
      | inl info ↦ ground (arith, same, info, drop-is_prefix extinf l (newline ∷ []) info)
      | inr other ↦ ground (arith, same, other)
    ]

-- On a file of lines that fit in the array, as large as it is and as it is said to be, without NUL and each ended by a newline, and a duration that
-- can be read in each EXTINF line, `m3u8_get_next_ent` gives the first line that is no comment, leaves
-- the lines behind it, and sets the duration to the number in the last EXTINF line before that one, or
-- leaves it as it was if there is none; when each line is a comment, it says so.
pub get_next_ent-print :
    {D : Type 0} (scan : List ℕ → Option D) (n room : ℕ) (ls : List (List ℕ)) (d : D)
    → Every (IsLine (min n room)) ls
    → Every (IsSound (read_info scan)) ls
    → get_next_ent scan n room (print ls) d
      ≡ ok (entry_of (first_name ls) (told (duration scan) ls d))
unfolding get_next_ent
get_next_ent-print scan n room ls d v s =
    next_line-print (read_info scan) (duration scan) (duration-read_info scan) n room
      (suc (length (print ls))) ls d v s (omega arith)

-- A name, which needs no duration.
pub name-IsSound :
    {D : Type 0} (scan : List ℕ → Option D) (c : ℕ) (l : List ℕ)
    → c ≢ hash_sign
    → IsSound (read_info scan) (c ∷ l)
unfolding read_info is_prefix
name-IsSound scan c l h d =
    let other : (hash_sign == c) ≡ false = ground (arith, h) in (d, rw other refl)

-- A line with a duration that can be read.
pub extinf-IsSound :
    {D : Type 0} (scan : List ℕ → Option D) (l : List ℕ) {x : D}
    → scan (l ++ newline ∷ []) ≡ some x
    → IsSound (read_info scan) (extinf ++ l)
unfolding read_info is_prefix
extinf-IsSound scan l {x} h d = (x, h)
