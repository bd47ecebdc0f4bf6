-- ===== src/Cli/Found.antt =====
-- What a call of `get_next_line` finds in the text of the buffer and the bytes that it reads.
use rq_route_demo.Base.{
  ℕ, zero, suc, ◌+◌, ◌-◌, ◌*◌, ◌<◌, ◌≡◌, ◌≢◌, refl, ap, subst, sym, ◌∙◌, ◌⊎◌, inl, inr, arith, min,
  List, [], ◌∷◌, ◌++◌, length, length-append, take, drop, Run, ok, Every-append, append_assoc,
  append-nil, drop-append, length-take,
}
use rq_route_demo.Playlist.{newline}
use rq_route_demo.Cli.{
  ReadAnswer, LineBuffer, NextLine, line, no_line, leaves, Read, search, read_into,
}
use rq_route_demo.Cli.Buffer.{
  IsText, IsOneLine, Holds, Every-append_left, Every-append_right, strchr_text, take_line_lem,
}

-- Bytes of full buffers that were discarded, 255 each time.
abbrev pub IsDiscarded : List ℕ → Type 0
IsDiscarded t = (n : ℕ) × (length t ≡ 255 * n)

-- What the outcome says of `text`, the bytes from the buffer and those read, when `left` is in the
-- buffer afterwards: a line is followed by a newline and by what is left, and no line is left where none
-- is found.
abbrev pub Finds : ℕ → NextLine → List ℕ → List ℕ → Type 0
Finds dest_sz (line dest) text left =
    (discarded : List ℕ) × (l : List ℕ) × IsDiscarded discarded
    × (text ≡ discarded ++ (l ++ newline ∷ left))
    × IsOneLine l
    × (dest ≡ take (dest_sz - 1) l)
Finds dest_sz no_line text left =
    (discarded : List ℕ) × IsDiscarded discarded × (text ≡ discarded ++ left) × IsOneLine left
Finds dest_sz leaves text left =
    (discarded : List ℕ) × IsDiscarded discarded × (text ≡ discarded ++ left) × IsOneLine left

-- What a call leaves, for a buffer with `text` and the input `pending`.
pub record Reads (dest_sz : ℕ) (text pending : List ℕ) (r : Read) : Type 0 where
  pub taken : List ℕ
  pub left : List ℕ
  pub input : pending ≡ taken ++ r.2
  pub holds : Holds r.1 left
  pub found : Finds dest_sz r.0 (text ++ taken) left
  pub ends : r.0 ≡ leaves → r.2 ≡ []

-- The condition of the loop, for a text whose first part, before `p_search`, has no newline.
pub search_lem :
    (dest_sz : ℕ) (pending : List ℕ) {b : LineBuffer} (seen fresh : List ℕ)
    (answers : List ReadAnswer) (more : Run Read)
    → Holds b (seen ++ fresh)
    → IsText (seen ++ fresh)
    → IsOneLine seen
    → 0 < dest_sz
    → ((r : Read) × (search dest_sz pending b (length seen) answers more ≡ ok r)
        × Reads dest_sz (seen ++ fresh) pending r)
      ⊎ (IsOneLine (seen ++ fresh) × (search dest_sz pending b (length seen) answers more ≡ more))
unfolding search
search_lem dest_sz pending {b} seen fresh answers more h text one some_room =
    let from_here : drop (length seen) b.buf ≡ fresh ++ 0 ∷ h.behind =
      ap (drop (length seen)) (h.bytes ∙ append_assoc seen fresh (0 ∷ h.behind))
      ∙ drop-append seen (fresh ++ 0 ∷ h.behind) in
    elim (strchr_text fresh h.behind (Every-append_right (λ c. c ≢ 0) seen fresh text)) [
      | inr (rest_one, runs) ↦
          inr (Every-append (λ c. c ≢ newline) seen fresh one rest_one, rw (from_here, runs))
      | inl (l, later, e, l_one, runs) ↦
          let whole : seen ++ fresh ≡ (seen ++ l) ++ newline ∷ later =
            ap (λ t. seen ++ t) e ∙ sym (append_assoc seen l (newline ∷ later)) in
          let line_text =
            Every-append_left (λ c. c ≢ 0) (seen ++ l) (newline ∷ later)
              (subst IsText whole text) in
          let (b', takes, holds) =
            take_line_lem dest_sz (seen ++ l) later (subst (Holds b) whole h) line_text some_room in
          let place : length seen + length l ≡ length (seen ++ l) = sym (length-append seen l) in
          inl (
            (line (take (dest_sz - 1) (seen ++ l)), b', pending, answers),
            rw (from_here, runs, place, takes),
            record {
              taken = [];
              left = later;
              input = refl;
              holds = holds;
              found = (
                [],
                seen ++ l,
                (0, refl),
                append-nil (seen ++ fresh) ∙ whole,
                Every-append (λ c. c ≢ newline) seen l one l_one,
                refl,
              );
              ends = λ o. cc;
            },
          )
    ]

-- No line is left, and nothing was read.
pub Reads-none :
    (dest_sz : ℕ) (text pending : List ℕ) {b : LineBuffer} (answers : List ReadAnswer)
    → Holds b text
    → IsOneLine text
    → Reads dest_sz text pending (no_line, b, pending, answers)
Reads-none dest_sz text pending answers h one = record {
  taken = [];
  left = text;
  input = refl;
  holds = h;
  found = ([], (0, refl), append-nil text, one);
  ends = λ o. cc;
}

pub take_rest : (n : ℕ) (xs : List ℕ) → xs ≡ take n xs ++ drop (length (take n xs)) xs
take_rest zero xs = refl
take_rest (suc n) [] = refl
take_rest (suc n) (x ∷ xs) = ap (λ l. x ∷ l) (take_rest n xs)

-- More was discarded before.
Finds-discard :
    (dest_sz : ℕ) (o : NextLine) (before text left : List ℕ)
    → IsDiscarded before
    → Finds dest_sz o text left
    → Finds dest_sz o (before ++ text) left
Finds-discard dest_sz (line dest) before text left (n, e) (discarded, l, (m, f), whole, one, d) = (
  before ++ discarded,
  l,
  (n + m, omega (arith, length-append before discarded)),
  ap (λ t. before ++ t) whole ∙ sym (append_assoc before discarded (l ++ newline ∷ left)),
  one,
  d,
)
Finds-discard dest_sz no_line before text left (n, e) (discarded, (m, f), whole, one) = (
  before ++ discarded,
  (n + m, omega (arith, length-append before discarded)),
  ap (λ t. before ++ t) whole ∙ sym (append_assoc before discarded left),
  one,
)
Finds-discard dest_sz leaves before text left (n, e) (discarded, (m, f), whole, one) = (
  before ++ discarded,
  (n + m, omega (arith, length-append before discarded)),
  ap (λ t. before ++ t) whole ∙ sym (append_assoc before discarded left),
  one,
)

-- What is left after `got` was read and kept, and the rest of the loop has run.
pub Reads-kept :
    (dest_sz : ℕ) (text got rest pending : List ℕ) (r : Read)
    → pending ≡ got ++ rest
    → Reads dest_sz (text ++ got) rest r
    → Reads dest_sz text pending r
Reads-kept dest_sz text got rest pending r e v = record {
  taken = got ++ v.taken;
  left = v.left;
  input = e ∙ ap (λ t. got ++ t) v.input ∙ sym (append_assoc got v.taken r.2);
  holds = v.holds;
  found = subst (λ t. Finds dest_sz r.0 t v.left) (append_assoc text got v.taken) v.found;
  ends = v.ends;
}

-- The same after a full buffer was discarded.
pub Reads-discarded :
    (dest_sz : ℕ) (text got rest pending : List ℕ) (r : Read)
    → pending ≡ got ++ rest
    → length (text ++ got) ≡ 255
    → Reads dest_sz [] rest r
    → Reads dest_sz text pending r
Reads-discarded dest_sz text got rest pending r e full v =
    Reads-kept dest_sz text got rest pending r e (record {
      taken = v.taken;
      left = v.left;
      input = v.input;
      holds = v.holds;
      found =
          Finds-discard dest_sz r.0 (text ++ got) v.taken v.left (1, omega (arith, full)) v.found;
      ends = v.ends;
    })

nil_of_length : (xs : List ℕ) → length xs ≡ 0 → xs ≡ []
nil_of_length [] e = refl
nil_of_length (x ∷ xs) e = absurd (omega arith)

-- The end of the input: `read` gave nothing, to a buffer with room.
pub Reads-leaves :
    (dest_sz m : ℕ) (text pending : List ℕ) {b : LineBuffer} (answers : List ReadAnswer)
    → Holds b text
    → IsOneLine text
    → length (read_into b.n_bytes_in_buf m pending) ≡ 0
    → Reads dest_sz text pending (leaves, b, pending, answers)
Reads-leaves dest_sz m text pending {b} answers h one nothing = record {
  taken = [];
  left = text;
  input = refl;
  holds = h;
  found = ([], (0, refl), append-nil text, one);
  ends = λ o. nil_of_length pending (
      omega (
        arith,
        nothing,
        length-take (min (suc m) (256 - b.n_bytes_in_buf - 1)) pending,
        h.counted,
        h.room,
      ));
}
