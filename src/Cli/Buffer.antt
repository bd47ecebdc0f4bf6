-- ===== src/Cli/Buffer.antt =====
-- The line buffer as the text that it holds.
use rq_route_demo.Base.{
  ℕ, zero, suc, ◌+◌, ◌-◌, ◌≤◌, ◌<◌, ◌≡◌, ◌≢◌, refl, ap, ap₂, sym, ◌∙◌, ◌⊎◌, inl, inr, arith, true,
  false, List, [], ◌∷◌, ◌++◌, length, length-append, take, drop, memcpy, read_bytes, c_str, none,
  some, ok, >>=-ok, leb, ltb, ◌==◌, Every, append_assoc, Bool-cases, take_all, take-append_within,
  memcpy-append, read_bytes-append, length-drop,
}
use rq_route_demo.Playlist.{newline}
use rq_route_demo.Cli.{LineBuffer, strchr, copy_line, move_rest, take_line, store}

-- No NUL, and no newline.
abbrev pub IsText : List ℕ → Type 0
IsText t = Every (λ c. c ≢ 0) t

abbrev pub IsOneLine : List ℕ → Type 0
IsOneLine t = Every (λ c. c ≢ newline) t

-- The buffer holds the bytes `text`, with a NUL behind them.
pub record Holds (b : LineBuffer) (text : List ℕ) : Type 0 where
  pub behind : List ℕ
  pub bytes : b.buf ≡ text ++ 0 ∷ behind
  pub counted : b.n_bytes_in_buf ≡ length text
  pub sized : length b.buf ≡ 256
  pub room : length text < 255

c_str-text : (t rest : List ℕ) → IsText t → c_str (t ++ 0 ∷ rest) ≡ t
c_str-text [] rest h = refl
c_str-text (c ∷ t) rest (h, hs) =
    let other : (c == 0) ≡ false = ground (arith, h) in rw (other, c_str-text t rest hs)

c_str-all : (t : List ℕ) → IsText t → c_str t ≡ t
c_str-all [] h = refl
c_str-all (c ∷ t) (h, hs) =
    let other : (c == 0) ≡ false = ground (arith, h) in rw (other, c_str-all t hs)

pub Every-append_right : (P : ℕ → Type 0) (xs ys : List ℕ) → Every P (xs ++ ys) → Every P ys
Every-append_right P [] ys h = h
Every-append_right P (x ∷ xs) ys h = Every-append_right P xs ys h.1

pub Every-append_left : (P : ℕ → Type 0) (xs ys : List ℕ) → Every P (xs ++ ys) → Every P xs
Every-append_left P [] ys h = tt
Every-append_left P (x ∷ xs) ys h = (h.0, Every-append_left P xs ys h.1)

pub Every-take : (P : ℕ → Type 0) (n : ℕ) (t : List ℕ) → Every P t → Every P (take n t)
Every-take P zero t h = tt
Every-take P (suc n) [] h = tt
Every-take P (suc n) (c ∷ t) (h, hs) = (h, Every-take P n t hs)

-- `strchr` finds the first newline of the text before the NUL, or none if there is none.
pub strchr_text :
    (t rest : List ℕ)
    → IsText t
    → ((l : List ℕ) × (later : List ℕ) × (t ≡ l ++ newline ∷ later)
        × IsOneLine l
        × (strchr newline (t ++ 0 ∷ rest) ≡ ok (some (length l))))
      ⊎ (IsOneLine t × (strchr newline (t ++ 0 ∷ rest) ≡ ok none))
unfolding strchr
strchr_text [] rest h = inr (tt, refl)
strchr_text (c ∷ t) rest (h, hs) = elim (Bool-cases (c == newline)) [
  | inl here ↦ inl ([], t, ground arith, tt, rw here)
  | inr other ↦
      let text : (c == 0) ≡ false = ground (arith, h) in
      elim (strchr_text t rest hs) [
        | inl (l, later, e, one, runs) ↦
            inl (c ∷ l, later, ap (λ r. c ∷ r) e, (ground arith, one), rw (other, text, runs))
        | inr (one, runs) ↦ inr ((ground arith, one), rw (other, text, runs))
      ]
]

-- The string in `dest` after a line was found.
copy_line_lem :
    (dest_sz : ℕ) (l rest : List ℕ)
    → IsText l
    → 0 < dest_sz
    → copy_line dest_sz (length l) (l ++ 0 ∷ rest) ≡ ok (take (dest_sz - 1) l)
unfolding copy_line
copy_line_lem dest_sz l rest text some_room = elim (Bool-cases (ltb (length l) dest_sz)) [
  | inl fits ↦ rw (fits, c_str-text l rest text, take_all l (dest_sz - 1) (ground arith))
  | inr long ↦
      let positive : (dest_sz == 0) ≡ false = ground arith in
      let inside : leb (0 + (dest_sz - 1)) (length (l ++ 0 ∷ rest)) ≡ true =
        ground (arith, length-append l (0 ∷ rest)) in
      let part = take-append_within l (0 ∷ rest) (dest_sz - 1) (ground arith) in
      rw (long, positive, inside, part)
        (ap ok (c_str-all (take (dest_sz - 1) l) (Every-take (λ c. c ≢ 0) (dest_sz - 1) l text)))
]

move_rest_lem :
    (l later behind : List ℕ) (n : ℕ)
    → n ≡ length l + suc (length later)
    → length (l ++ 0 ∷ (later ++ 0 ∷ behind)) ≡ 256
    → length l + suc (length later) < 255
    → (b : LineBuffer) × (move_rest (length l) (l ++ 0 ∷ (later ++ 0 ∷ behind)) n ≡ ok b)
      × Holds b later
unfolding move_rest
move_rest_lem l later behind n e size few =
    let ended = l ++ 0 ∷ (later ++ 0 ∷ behind) in
    let nul : List ℕ = 0 ∷ [] in
    let within : leb (length l + 1) n ≡ true = ground arith in
    let left : n - (length l + 1) ≡ length later = omega arith in
    let parts : ended ≡ (l ++ nul) ++ ((later ++ nul) ++ behind) = sym (
      append_assoc l nul ((later ++ nul) ++ behind)
      ∙ ap (λ t. l ++ 0 ∷ t) (append_assoc later nul behind)) in
    let moved : read_bytes ended (length l + 1) (n - (length l + 1) + 1) ≡ ok (later ++ nul) =
      ap₂ (read_bytes ended) (sym (length-append l nul))
        (ap (λ m. m + 1) left ∙ sym (length-append later nul))
      ∙ ap (λ t. read_bytes t (length (l ++ nul)) (length (later ++ nul))) parts
      ∙ read_bytes-append (l ++ nul) (later ++ nul) behind in
    let copied = memcpy-append [] ended (later ++ nul) (omega (arith, length-append later nul)) in
    let buf = (later ++ nul) ++ drop (length (later ++ nul)) ended in
    (
      record { buf = buf; n_bytes_in_buf = length later },
      rw (within, moved, copied, left),
      record {
        behind = drop (length (later ++ nul)) ended;
        bytes = append_assoc later nul (drop (length (later ++ nul)) ended);
        counted = refl;
        sized = omega (
          arith,
          length-append (later ++ nul) (drop (length (later ++ nul)) ended),
          length-drop (length (later ++ nul)) ended,
          length-append later nul,
        );
        room = omega arith;
      },
    )

-- A line is taken out of the buffer, with the newline behind it.
pub take_line_lem :
    (dest_sz : ℕ) {b : LineBuffer} (l later : List ℕ)
    → Holds b (l ++ newline ∷ later)
    → IsText l
    → 0 < dest_sz
    → (b' : LineBuffer) × (take_line dest_sz (length l) b ≡ ok (take (dest_sz - 1) l, b'))
      × Holds b' later
unfolding take_line
take_line_lem dest_sz {b} l later h text some_room =
    let rest = later ++ 0 ∷ h.behind in
    let bytes : b.buf ≡ l ++ newline ∷ rest =
      h.bytes ∙ append_assoc l (newline ∷ later) (0 ∷ h.behind) in
    let n_line = length-append l (newline ∷ later) in
    let ended : memcpy b.buf (length l) (0 ∷ []) ≡ ok (l ++ 0 ∷ rest) =
      ap (λ t. memcpy t (length l) (0 ∷ [])) bytes
      ∙ memcpy-append l (newline ∷ rest) (0 ∷ []) (omega arith) in
    let size : length (l ++ 0 ∷ rest) ≡ 256 = omega (
      arith,
      length-append l (0 ∷ rest),
      length-append l (newline ∷ rest),
      ap (λ t. length t) bytes,
      h.sized,
    ) in
    let (b', moves, holds) =
      move_rest_lem l later h.behind b.n_bytes_in_buf (h.counted ∙ n_line) size
        (omega (arith, h.room)) in
    (
      b',
      >>=-ok (memcpy b.buf (length l) (0 ∷ [])) _ (l ++ 0 ∷ rest) ended
          ∙ >>=-ok (copy_line dest_sz (length l) (l ++ 0 ∷ rest)) _ (take (dest_sz - 1) l)
              (copy_line_lem dest_sz l rest text some_room)
          ∙ >>=-ok (move_rest (length l) (l ++ 0 ∷ rest) b.n_bytes_in_buf) _ b' moves,
      holds,
    )

-- The bytes that were read are stored behind the text; a full buffer is emptied.
pub store_lem :
    {b : LineBuffer} (text got : List ℕ)
    → Holds b text
    → length text + length got ≤ 255
    → (b' : LineBuffer) × (p : ℕ) × (store got b ≡ ok (b', p))
      × ((Holds b' (text ++ got) × (p ≡ length text))
          ⊎ (Holds b' [] × (p ≡ 0) × (length (text ++ got) ≡ 255)))
unfolding store
store_lem {b} text got h fits =
    let n_buf : 256 ≡ length text + suc (length h.behind) =
      omega (arith, h.sized, ap (λ t. length t) h.bytes, length-append text (0 ∷ h.behind)) in
    let tail = drop (length got) (0 ∷ h.behind) in
    let n_tail : length tail ≡ suc (length h.behind) - length got =
      length-drop (length got) (0 ∷ h.behind) in
    let filled : memcpy b.buf b.n_bytes_in_buf got ≡ ok (text ++ (got ++ tail)) =
      ap₂ (λ t n. memcpy t n got) h.bytes h.counted
      ∙ memcpy-append text (0 ∷ h.behind) got (omega arith) in
    let all = text ++ got in
    let n_all = length-append text got in
    let count : b.n_bytes_in_buf + length got ≡ length all = omega (arith, h.counted) in
    let ended : memcpy (text ++ (got ++ tail)) (b.n_bytes_in_buf + length got) (0 ∷ [])
        ≡ ok (all ++ 0 ∷ drop 1 tail) =
      ap₂ (λ t n. memcpy t n (0 ∷ [])) (sym (append_assoc text got tail)) count
      ∙ memcpy-append all tail (0 ∷ []) (omega arith) in
    let size : length (all ++ 0 ∷ drop 1 tail) ≡ 256 =
      omega (arith, length-append all (0 ∷ drop 1 tail), length-drop 1 tail) in
    elim (Bool-cases (b.n_bytes_in_buf + length got == 255)) [
      | inl full ↦
          let emptied = memcpy-append [] (all ++ 0 ∷ drop 1 tail) (0 ∷ []) (omega arith) in
          (
            record { buf = 0 ∷ drop 1 (all ++ 0 ∷ drop 1 tail); n_bytes_in_buf = 0 },
            0,
            rw (filled, ended, full, emptied),
            inr (
              record {
                behind = drop 1 (all ++ 0 ∷ drop 1 tail);
                bytes = refl;
                counted = refl;
                sized = omega (arith, length-drop 1 (all ++ 0 ∷ drop 1 tail));
                room = omega arith;
              },
              refl,
              ground arith,
            ),
          )
      | inr partial ↦ (
        record { buf = all ++ 0 ∷ drop 1 tail; n_bytes_in_buf = b.n_bytes_in_buf + length got },
        b.n_bytes_in_buf,
        rw (filled, ended, partial),
        inl (
          record {
            behind = drop 1 tail;
            bytes = refl;
            counted = count;
            sized = size;
            room = ground (arith, h.counted);
          },
          h.counted,
        ),
      )
    ]
