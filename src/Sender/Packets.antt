-- ===== src/Sender/Packets.antt =====
-- The packets of a file, described without the loops of `xmit_file`, and the loops that send them.
use rq_route_demo.Base.{
  ℕ, zero, suc, ◌+◌, ◌-◌, ◌*◌, ◌^◌, ◌≤◌, ◌<◌, ◌≡◌, refl, ap, sym, ◌∙◌, arith, true, false, List, [],
  ◌∷◌, ◌++◌, length, take, drop, slice, min, ok, mul_int-ok, read_bytes, ltb, leb, length-drop,
}
use rq_route_demo.Packet.{Packet}
use rq_route_demo.Params.Exact.{symbols, max_file}
use rq_route_demo.Sender.{header_at, payload_size, send_sources, send_repairs}

-- Packet `j` of the source packets: the `j`th 1024 bytes of the file, or what is left of it.
abbrev pub source_packet : ℕ → List ℕ → ℕ → Packet
source_packet file_nbr file j =
    (header_at 0 file_nbr (length file) (j * 1024), slice file (j * 1024) 1024)

abbrev pub source_packets : ℕ → List ℕ → ℕ → ℕ → List Packet
source_packets file_nbr file zero j = []
source_packets file_nbr file (suc n) j =
    source_packet file_nbr file j ∷ source_packets file_nbr file n (j + 1)

-- Packet `j` of the repair packets, out of the symbols that the encoder made.
abbrev pub repair_packet : ℕ → ℕ → List ℕ → ℕ → Packet
repair_packet file_nbr fsiz repairs j =
    (header_at 1 file_nbr fsiz (j * 1024), slice repairs (j * 1024) 1024)

abbrev pub repair_packets : ℕ → ℕ → List ℕ → ℕ → ℕ → List Packet
repair_packets file_nbr fsiz repairs zero j = []
repair_packets file_nbr fsiz repairs (suc n) j =
    repair_packet file_nbr fsiz repairs j ∷ repair_packets file_nbr fsiz repairs n (j + 1)

-- The packets of a file, with `e` repair packets out of the symbols `repairs`.
abbrev pub packets : ℕ → ℕ → List ℕ → List ℕ → List Packet
packets e file_nbr file repairs =
    source_packets file_nbr file (symbols (length file)) 0
    ++ repair_packets file_nbr (length file) repairs e 0

take-min : (xs : List ℕ) (a b : ℕ) → a ≡ min b (length xs) → take a xs ≡ take b xs
take-min [] zero zero e = refl
take-min [] zero (suc b) e = refl
take-min [] (suc a) b e = absurd (omega arith)
take-min (x ∷ xs) zero zero e = refl
take-min (x ∷ xs) zero (suc b) e = absurd (omega arith)
take-min (x ∷ xs) (suc a) zero e = absurd (omega arith)
take-min (x ∷ xs) (suc a) (suc b) e = ap (λ l. x ∷ l) (take-min xs a b (omega arith))

-- A range inside the first `f` entries.
pub slice-take :
    (xs : List ℕ) (f off n : ℕ) → off + n ≤ f → slice (take f xs) off n ≡ slice xs off n
slice-take xs f zero zero h = refl
slice-take [] zero off n h = refl
slice-take [] (suc f) off n h = refl
slice-take (x ∷ xs) zero zero (suc n) h = absurd (omega arith)
slice-take (x ∷ xs) zero (suc off) n h = absurd (omega arith)
slice-take (x ∷ xs) (suc f) zero (suc n) h = ap (λ l. x ∷ l) (slice-take xs f zero n (omega arith))
slice-take (x ∷ xs) (suc f) (suc off) n h = slice-take xs f off n (omega arith)

module _ (file_nbr : ℕ) (file : List ℕ) (small : length file ≤ max_file) (src : List ℕ)
    (room : length file ≤ length src) (holds : take (length file) src ≡ file) where
  -- The bytes of source packet `j`, read from the source block.
  symbol_bytes :
      (j : ℕ)
      → j < symbols (length file)
      → (ltb 2036 (payload_size 1024 (length file) (j * 1024)) ≡ false)
        × (read_bytes src (j * 1024) (payload_size 1024 (length file) (j * 1024))
            ≡ ok (slice file (j * 1024) 1024))
  symbol_bytes j h =
      let f = length file in
      let off = j * 1024 in
      let size : payload_size 1024 f off ≡ min 1024 (f - off) = ground arith in
      let inside : off + min 1024 (f - off) ≤ f = omega arith in
      let bytes : slice src off (min 1024 (f - off)) ≡ slice file off 1024 =
        sym (slice-take src f off (min 1024 (f - off)) inside)
        ∙ ap (λ l. slice l off (min 1024 (f - off))) holds
        ∙ take-min (drop off file) (min 1024 (f - off)) 1024
            (omega (arith, length-drop off file)) in
      rw size (ground arith, ground (arith, bytes))

  pub send_sources-sends :
      (n j : ℕ)
      → j + n ≤ symbols (length file)
      → send_sources file_nbr (length file) 1024 src (length file) n j
        ≡ ok (true, source_packets file_nbr file n j)
  unfolding send_sources
  send_sources-sends zero j h = refl
  send_sources-sends (suc n) j h =
      let (fits, read) = symbol_bytes j (omega arith) in
      rw (mul_int-ok j 1024 (omega arith), fits, read, send_sources-sends n (j + 1) (omega arith))

pub send_repairs-sends :
    (file_nbr fsiz : ℕ) (repairs : List ℕ) (n j : ℕ)
    → (j + n) * 1024 ≤ length repairs
    → length repairs < 2 ^ 31
    → send_repairs file_nbr fsiz 1024 repairs n j
      ≡ ok (true, repair_packets file_nbr fsiz repairs n j)
unfolding send_repairs
send_repairs-sends file_nbr fsiz repairs zero j h small = refl
send_repairs-sends file_nbr fsiz repairs (suc n) j h small =
    let fits : leb (j * 1024 + 1024) (length repairs) ≡ true = ground arith in
    rw (
      mul_int-ok j 1024 (omega arith),
      fits,
      send_repairs-sends file_nbr fsiz repairs n (j + 1) (omega arith) small,
    )
