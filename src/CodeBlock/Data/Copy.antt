-- ===== src/CodeBlock/Data/Copy.antt =====
-- What `copy_source_syms` puts where.
use rq_route_demo.Base.{
  ℕ, ◌+◌, ◌*◌, ◌≤◌, ◌<◌, ◌≡◌, refl, subst, ◌∙◌, arith, true, false, List, [], ◌∷◌, mem, ◌==◌, leb,
  if◌then◌else◌, length, Bool-cases, inl, inr, ok, slice, blit, length-blit, slice-blit_self,
  slice-blit_before, slice-blit_after, length-slice, ◌>>=◌, read_bytes, memcpy,
}
use rq_route_demo.CodeBlock.{CodeBlockState}
use rq_route_demo.CodeBlock.Received.{Symbol, entries, distinct, ids, ids-entries}
use rq_route_demo.CodeBlock.Data.{copy_loop}

-- The bytes of symbol `i`, or `missing` where it was not received.
abbrev pub symbol_or : ℕ → List Symbol → List ℕ → List ℕ
symbol_or i [] missing = missing
symbol_or i ((id, bytes) ∷ l) missing = if i == id then bytes else symbol_or i l missing

pub symbol_or-absent :
    (i : ℕ) (l : List Symbol) (missing : List ℕ)
    → mem i (ids l) ≡ false
    → symbol_or i l missing ≡ missing
symbol_or-absent i [] missing h = refl
symbol_or-absent i ((id, bytes) ∷ l) missing h = ground (arith, symbol_or-absent i l missing)

pub mul-lt : (i e t : ℕ) → i < e → i * t + t ≤ e * t
mul-lt i e t h = grind arith

-- A symbol written at its place leaves the others.
slice-blit_other :
    (out : List ℕ) (e t i : ℕ) (bytes : List ℕ)
    → length bytes ≡ t
    → (i ≡ e → ⊥)
    → slice (blit out (e * t) bytes) (i * t) t ≡ slice out (i * t) t
slice-blit_other out e t i bytes ht ne = elim (Bool-cases (leb i e)) [
  | inl below ↦ slice-blit_before out (e * t) bytes (i * t) t (mul-lt i e t (ground arith))
  | inr above ↦
      slice-blit_after out (e * t) bytes (i * t) t (omega (arith, mul-lt e i t (ground arith)))
]

module _ (s : CodeBlockState) where
  pub record Copies (es : List ℕ) (j : ℕ) (out out' : List ℕ) : Type 0 where
    pub sized : length out' ≡ length out
    pub symbols :
        (i : ℕ)
        → i < s.k
        → slice out' (i * s.t) s.t
          ≡ symbol_or i (entries s.t s.syms_buf j es) (slice out (i * s.t) s.t)
    pub rest : (n : ℕ) → slice out' (s.k * s.t) n ≡ slice out (s.k * s.t) n

  -- One round for a source symbol: its bytes go to its place.
  module _ (e j : ℕ) (out : List ℕ) (source : leb s.k e ≡ false)
      (fits : s.t * j + s.t ≤ length s.syms_buf) (room : s.k * s.t ≤ length out) where
    abbrev bytes : List ℕ
    bytes = slice s.syms_buf (j * s.t) s.t

    abbrev written : List ℕ
    written = blit out (e * s.t) bytes

    length-bytes : length bytes ≡ s.t
    length-bytes = length-slice s.syms_buf (j * s.t) s.t (omega arith)

    in_place : e * s.t + s.t ≤ s.k * s.t
    in_place = mul-lt e s.k s.t (ground arith)

    copy_one : (read_bytes s.syms_buf (j * s.t) s.t >>= memcpy out (e * s.t)) ≡ ok written
    copy_one = ground (arith, length-bytes, in_place)

    slice-written_self : slice written (e * s.t) s.t ≡ bytes
    slice-written_self =
        subst (λ m. slice written (e * s.t) m ≡ bytes) length-bytes
          (slice-blit_self out (e * s.t) bytes (omega (arith, length-bytes, in_place)))

    copied-Copies :
        (es : List ℕ) (out' : List ℕ)
        → mem e es ≡ false
        → Copies es (j + 1) written out'
        → Copies (e ∷ es) j out out'
    copied-Copies es out' new c = record {
      sized = c.sized ∙ length-blit out (e * s.t) bytes;
      symbols = λ i h. c.symbols i h ∙ at_place i;
      rest = λ n.
          c.rest n
          ∙ slice-blit_after out (e * s.t) bytes (s.k * s.t) n
              (omega (arith, length-bytes, in_place));
    }
      where
        later : List Symbol
        later = entries s.t s.syms_buf (j + 1) es

        order : bytes ≡ slice s.syms_buf (s.t * j) s.t
        order = let swap : j * s.t ≡ s.t * j = omega arith in rw swap

        at_place :
            (i : ℕ)
            → symbol_or i later (slice written (i * s.t) s.t)
              ≡ symbol_or i (entries s.t s.syms_buf j (e ∷ es)) (slice out (i * s.t) s.t)
        at_place i = elim (Bool-cases (i == e)) [
          | inl same ↦
              let at_e : i ≡ e = ground arith in
              let absent : mem i (ids later) ≡ false =
                rw (ids-entries s.t s.syms_buf (j + 1) es, at_e) new in
              rw same (
                symbol_or-absent i later (slice written (i * s.t) s.t) absent
                ∙ rw at_e slice-written_self
                ∙ order)
          | inr other ↦
              let apart : i ≡ e → ⊥ = λ q. ground arith in
              rw (other, slice-blit_other out e s.t i bytes length-bytes apart)
        ]

  pub copy_loop-Copies :
      (es : List ℕ) (j : ℕ) (out : List ℕ)
      → distinct es ≡ true
      → s.t * (j + length es) ≤ length s.syms_buf
      → s.k * s.t ≤ length out
      → (out' : List ℕ) × (copy_loop s es j out ≡ ok out') × Copies es j out out'
  unfolding copy_loop
  copy_loop-Copies [] j out d fits room =
      (out, refl, record { sized = refl; symbols = λ i h. refl; rest = λ n. refl })
  copy_loop-Copies (e ∷ es) j out d fits room = elim (Bool-cases (leb s.k e)) [
    | inl repair ↦
        let (out', runs, c) = copy_loop-Copies es (j + 1) out (ground arith) (omega arith) room in
        (
          out',
          rw repair runs,
          record { sized = c.sized; symbols = λ i h. c.symbols i h ∙ ground arith; rest = c.rest },
        )
    | inr source ↦
        let here : s.t * j + s.t ≤ length s.syms_buf = omega arith in
        let there : s.k * s.t ≤ length (written e j out source here room) =
          omega (arith, length-blit out (e * s.t) (bytes e j out source here room)) in
        let (out', runs, c) =
          copy_loop-Copies es (j + 1) (written e j out source here room) (ground arith)
            (omega arith) there in
        (
          out',
          rw (source, copy_one e j out source here room) runs,
          copied-Copies e j out source here room es out' (ground arith) c,
        )
  ]
