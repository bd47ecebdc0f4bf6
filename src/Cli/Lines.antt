-- ===== src/Cli/Lines.antt =====
-- `get_next_line` over the text that is in the buffer and the bytes that it reads.
use rq_route_demo.Base.{
  ℕ, suc, ◌+◌, ◌-◌, ◌≤◌, ◌<◌, ◌≡◌, ◌≢◌, refl, subst, ◌∙◌, inl, inr, arith, min, List, [], ◌∷◌, ◌++◌,
  length, drop, Run, ok, ◌>>=◌, ◌==◌, if◌then◌else◌, Every-append, Bool-cases, length-take,
}
use rq_route_demo.Cli.{
  ReadAnswer, gives, fails, LineBuffer, no_line, leaves, Read, store, read_into, search_loop,
  get_next_line,
}
use rq_route_demo.Cli.Buffer.{IsText, IsOneLine, Holds, Every-append_right, Every-take, store_lem}
use rq_route_demo.Cli.Found.{
  Reads, search_lem, Reads-none, take_rest, Reads-kept, Reads-discarded, Reads-leaves,
}

search_loop_lem :
    (dest_sz : ℕ) (answers : List ReadAnswer) (pending : List ℕ) {b : LineBuffer}
    (seen fresh : List ℕ)
    → Holds b (seen ++ fresh)
    → IsText (seen ++ fresh)
    → IsText pending
    → IsOneLine seen
    → 0 < dest_sz
    → (r : Read) × (search_loop dest_sz pending b (length seen) answers ≡ ok r)
      × Reads dest_sz (seen ++ fresh) pending r
unfolding search_loop
search_loop_lem dest_sz [] pending {b} seen fresh h text input one some_room =
    elim (search_lem dest_sz pending seen fresh [] (ok (no_line, b, pending, [])) h text one
      some_room) [
        | inl found ↦ found
        | inr (all_one, runs) ↦ (_, runs, Reads-none dest_sz (seen ++ fresh) pending [] h all_one)
      ]
search_loop_lem dest_sz (fails ∷ answers) pending {b} seen fresh h text input one some_room =
    elim (search_lem dest_sz pending seen fresh (fails ∷ answers)
      (ok (no_line, b, pending, answers)) h text one some_room) [
        | inl found ↦ found
        | inr (all_one, runs) ↦
            (_, runs, Reads-none dest_sz (seen ++ fresh) pending answers h all_one)
      ]
search_loop_lem dest_sz (gives m ∷ answers) pending {b} seen fresh h text input one some_room =
    let all = seen ++ fresh in
    let n = min (suc m) (256 - b.n_bytes_in_buf - 1) in
    let got = read_into b.n_bytes_in_buf m pending in
    let rest = drop (length got) pending in
    let split = take_rest n pending in
    let got_text = Every-take (λ c. c ≢ 0) n pending input in
    let rest_text = Every-append_right (λ c. c ≢ 0) got rest (subst IsText split input) in
    let all_text = Every-append (λ c. c ≢ 0) all got text got_text in
    let fits : length all + length got ≤ 255 =
      omega (arith, length-take n pending, h.counted, h.room) in
    let more : Run Read =
      if length got == 0
      then ok (leaves, b, pending, answers)
      else (store got b >>= λ r. search_loop dest_sz rest r.0 r.1 answers) in
    elim (search_lem dest_sz pending seen fresh (gives m ∷ answers) more h text one some_room) [
      | inl found ↦ found
      | inr (all_one, runs) ↦ elim (Bool-cases (length got == 0)) [
        | inl nothing ↦ (
          (leaves, b, pending, answers),
          runs ∙ rw nothing refl,
          Reads-leaves dest_sz m all pending answers h all_one (ground arith),
        )
        | inr something ↦
            let (b', p, stores, kept) = store_lem all got h fits in
            elim kept [
              | inl (h', place) ↦
                  let (r, later, v) =
                    search_loop_lem dest_sz answers rest all got h' all_text rest_text all_one
                      some_room in
                  (
                    r,
                    runs ∙ rw (something, stores, place) later,
                    Reads-kept dest_sz all got rest pending r split v,
                  )
              | inr (h', place, full) ↦
                  let (r, later, v) =
                    search_loop_lem dest_sz answers rest [] [] h' tt rest_text tt some_room in
                  (
                    r,
                    runs ∙ rw (something, stores, place) later,
                    Reads-discarded dest_sz all got rest pending r split full v,
                  )
            ]
      ]
    ]

-- For a buffer with some text, and an input without NUL: `get_next_line` returns without a fault. The text
-- of the buffer and the bytes read are, but for full buffers of 255 bytes that were discarded, the line
-- found, a newline and what the buffer holds then, and there is no other newline before; or no newline is
-- left in the buffer, when no line is found. The program is left only at the end of the input.
pub get_next_line_lem :
    (dest_sz : ℕ) (pending : List ℕ) {b : LineBuffer} (text : List ℕ) (answers : List ReadAnswer)
    → Holds b text
    → IsText text
    → IsText pending
    → 0 < dest_sz
    → (r : Read) × (get_next_line dest_sz pending b answers ≡ ok r) × Reads dest_sz text pending r
unfolding get_next_line
get_next_line_lem dest_sz pending text answers h t input some_room =
    search_loop_lem dest_sz answers pending [] text h t input tt some_room
