-- ===== src/Tests/Repetition.antt =====
-- A systematic erasure code: repair symbols repeat the source symbols in turn. It decodes out of any symbol
-- of a block of one symbol, and out of the source symbols in order.
use rq_route_demo.Base.{
  ℕ, zero, suc, ◌+◌, ◌-◌, ◌*◌, ◌%◌, ◌≤◌, ◌<◌, ◌≡◌, ◌≢◌, refl, ap, ap₂, sym, subst, ◌∙◌, arith, Bool,
  true, false, ◌==◌, ◌&&◌, ◌||◌, if◌then◌else◌, Bool-cases, inl, inr, List, [], ◌∷◌, ◌++◌,
  append-nil, length, length-append, length-take, length-slice, take, take_all, take-append, drop,
  slice, blit, length-blit, slice-blit_within, get_elem?, some, ℤ, pos, negsuc,
}
use rq_route_demo.CodeBlock.Codec.{Codec}
use rq_route_demo.CodeBlock.Erasure.{ids_from, Symbols, View, AreSymbols, ErasureCode, Runs}
use rq_route_demo.CodeBlock.Data.Reconstruct.{AreSymbols-source}
use rq_route_demo.CodeBlock.Received.{pad, length-pad}

-- The identifiers count from `id`.
abbrev counts : ℕ → ℕ → List ℕ → Bool
counts id zero [] = true
counts id zero (x ∷ xs) = false
counts id (suc n) [] = false
counts id (suc n) (x ∷ xs) = x == id && counts (id + 1) n xs

counts-ids_from : (n id : ℕ) → counts id n (ids_from id n) ≡ true
counts-ids_from zero id = refl
counts-ids_from (suc n) id = ground (arith, counts-ids_from n (id + 1))

counts_lem : (n id : ℕ) (xs : List ℕ) → counts id n xs ≡ true → xs ≡ ids_from id n
counts_lem zero id [] h = refl
counts_lem zero id (x ∷ xs) h = cc
counts_lem (suc n) id [] h = cc
counts_lem (suc n) id (x ∷ xs) h =
    ap₂ (λ y ys. y ∷ ys) (ground arith) (counts_lem n (id + 1) xs (ground arith))

abbrev pub suffices : Symbols → Bool
suffices (k, []) = k == 0
suffices (k, x ∷ xs) = k == 1 || counts 0 k (x ∷ xs)

pub suffices-sources : (k : ℕ) → suffices (k, ids_from 0 k) ≡ true
suffices-sources zero = refl
suffices-sources (suc k) = ground (arith, counts-ids_from (suc k) 0)

-- The symbol with an identifier, of a source block.
abbrev pub repeated : ℕ → ℕ → List ℕ → ℕ → List ℕ
repeated k t src id = pad t (slice src (id % k * t) t)

length-repeated : (k t : ℕ) (src : List ℕ) (id : ℕ) → length (repeated k t src id) ≡ t
length-repeated k t src id =
    length-pad t (slice src (id % k * t) t) (omega (arith, length-take t (drop (id % k * t) src)))

pub repeated-systematic :
    (k t : ℕ) (src : List ℕ) (id : ℕ)
    → length src ≡ k * t
    → id < k
    → repeated k t src id ≡ slice src (id * t) t
repeated-systematic k t src id sized lt =
    let same : id % k ≡ id = grind arith in
    let inside : id * t + t ≤ k * t = grind arith in
    let whole = length-slice src (id * t) t (omega arith) in
    let none_left : t - length (slice src (id * t) t) ≡ 0 = omega (arith, whole) in
    rw (same, none_left) (append-nil (slice src (id * t) t))

-- The symbols, one behind the other.
abbrev joined : ℕ → ℕ → List ℕ → List ℕ → List ℕ
joined k t src [] = []
joined k t src (id ∷ ids) = repeated k t src id ++ joined k t src ids

length-joined : (k t : ℕ) (src ids : List ℕ) → length (joined k t src ids) ≡ length ids * t
length-joined k t src [] = omega arith
length-joined k t src (id ∷ ids) = omega (
  arith,
  length-append (repeated k t src id) (joined k t src ids),
  length-repeated k t src id,
  length-joined k t src ids,
)

slice-behind : (xs ys : List ℕ) (off n : ℕ) → slice (xs ++ ys) (length xs + off) n ≡ slice ys off n
slice-behind [] ys off n = ap (λ o. slice ys o n) (omega arith)
slice-behind (x ∷ xs) ys off n =
    let next : suc (length xs) + off ≡ suc (length xs + off) = omega arith in
    rw next (slice-behind xs ys off n)

joined-AreSymbols :
    (k t : ℕ) (src ids : List ℕ) → AreSymbols (repeated k t src) t ids (joined k t src ids)
joined-AreSymbols k t src [] i id h = cc
joined-AreSymbols k t src (x ∷ ids) zero id h =
    let same : x ≡ id = cc in
    let start : 0 * t ≡ 0 = omega arith in
    rw start (
      subst (λ n. take n (joined k t src (x ∷ ids)) ≡ repeated k t src x)
        (length-repeated k t src x) (take-append (repeated k t src x) (joined k t src ids))
      ∙ ap (repeated k t src) same)
joined-AreSymbols k t src (x ∷ ids) (suc i) id h =
    let n = length-repeated k t src x in
    let next : suc i * t ≡ length (repeated k t src x) + i * t = omega (arith, n) in
    rw next (
      slice-behind (repeated k t src x) (joined k t src ids) (i * t) t
      ∙ joined-AreSymbols k t src ids i id h)

-- What `RqInterCompile` returns, if the identifiers suffice or not.
abbrev pub compiled : View → Bool → ℤ × View
compiled c enough = if enough then (pos 0, record c { program = c.given }) else (negsuc 2, c)

abbrev pub repetition : Codec View
repetition = record {
  include_case = λ c k n_extra n_out t. (pos 0, c);
  inter_init = λ c k n_extra. (pos 0, record c { given = (k, []) });
  inter_add_ids = λ c id n. (pos 0, record c { given = (c.given.0, c.given.1 ++ ids_from id n) });
  inter_compile = λ c. compiled c (suffices c.given);
  inter_execute =
      λ c t syms. (pos 0, record c { block = (c.program.0, t, take (c.program.0 * t) syms) });
  out_init = λ c k. (pos 0, record c { out_given = (k, []) });
  out_add_ids =
      λ c id n. (pos 0, record c { out_given = (c.out_given.0, c.out_given.1 ++ ids_from id n) });
  out_compile = λ c. (pos 0, record c { out_program = c.out_given });
  out_execute = λ c t out. (pos 0, blit out 0 (joined c.block.0 t c.block.2 c.out_program.1), c);
  insuff_ids = negsuc 2;
}

-- A program that does not decode is none.
abbrev pub seen : View → View
seen c = record c { program = if suffices c.program then c.program else (0, []) }

-- The source block, out of symbols that suffice.
decodes :
    (k t : ℕ) (ids src syms : List ℕ)
    → suffices (k, ids) ≡ true
    → 0 < k
    → length src ≡ k * t
    → AreSymbols (repeated k t src) t ids syms
    → take (k * t) syms ≡ src
decodes k t [] src syms enough some_symbols sized are = absurd (ground arith)
decodes k t (x ∷ xs) src syms enough some_symbols sized are = elim (Bool-cases (k == 1)) [
  | inl one ↦
      let is_one : k ≡ 1 = ground arith in
      let first : 0 * t ≡ 0 = omega arith in
      let only : x % k * t ≡ 0 =
        let no_rest : x % 1 ≡ 0 = omega arith in rw (is_one, no_rest) (omega arith) in
      let size : k * t ≡ t = rw is_one (omega arith) in
      let none_left : t - length src ≡ 0 = omega (arith, sized, size) in
      let all : take t src ≡ src = take_all src t (omega (arith, sized, size)) in
      let here : slice syms (0 * t) t ≡ repeated k t src x = are 0 x refl in
      rw size (
        ap (λ o. slice syms o t) (sym first)
        ∙ here
        ∙ ap (λ o. pad t (slice src o t)) only
        ∙ ap (pad t) all
        ∙ rw none_left (append-nil src))
  | inr more ↦
      let from : x ∷ xs ≡ ids_from 0 k = counts_lem k 0 (x ∷ xs) (ground arith) in
      AreSymbols-source (repeated k t src) t k syms src
        (subst (λ l. AreSymbols (repeated k t src) t l syms) from are)
        (λ id lt. repeated-systematic k t src id sized lt) sized
]

pub compile_law :
    (c : View)
    → (repetition.inter_compile c).0 ≡ pos 0
    → seen (repetition.inter_compile c).1 ≡ record (seen c) { program = (seen c).given }
compile_law c done = elim (Bool-cases (suffices c.given)) [
  | inl enough ↦ rw (enough, enough) refl
  | inr more ↦ absurd (not_done more)
]
  where
    not_done : suffices c.given ≡ false → ⊥
    not_done more =
        let failed : negsuc 2 ≡ pos 0 = sym (ap (λ b. (compiled c b).0) more) ∙ done in cc

pub execute_law :
    (c : View) (t : ℕ) (syms : List ℕ) (k : ℕ) (ids src : List ℕ)
    → (seen c).program ≡ (k, ids)
    → 0 < k
    → length src ≡ k * t
    → AreSymbols (repeated k t src) t ids syms
    → seen (repetition.inter_execute c t syms).1 ≡ record (seen c) { block = (k, t, src) }
execute_law c t syms k ids src program some_symbols sized are =
    elim (Bool-cases (suffices c.program)) [
      | inl enough ↦
          let own : c.program ≡ (k, ids) =
            sym (ap (λ b. if b then c.program else (0, [])) enough) ∙ program in
          let held : (c.program.0, t, take (c.program.0 * t) syms) ≡ (k, t, src) =
            ap (λ q. (q.0, t, take (q.0 * t) syms)) own
            ∙ ap (λ l. (k, t, l))
                (decodes k t ids src syms (ap suffices (sym own) ∙ enough) some_symbols sized
                  are) in
          ap (λ b. seen (record c { block = b })) held
      | inr more ↦
          let nothing : Symbols = (0, []) in
          let own : Symbols = (k, ids) in
          let empty : nothing ≡ own =
            sym (ap (λ b. if b then c.program else (0, [])) more) ∙ program in
          let zero_symbols : 0 ≡ k = ap (λ q. q.0) empty in absurd (omega arith)
    ]

get_elem?-lt : (l : List ℕ) (i x : ℕ) → get_elem? l i ≡ some x → i < length l
get_elem?-lt [] i x h = cc
get_elem?-lt (y ∷ l) zero x h = omega arith
get_elem?-lt (y ∷ l) (suc i) x h = omega (arith, get_elem?-lt l i x h)

pub insuff-ne-zero : negsuc 2 ≢ pos 0
insuff-ne-zero h = cc

-- The symbols in the output.
pub written :
    (c : View) (t : ℕ) (out : List ℕ) (k : ℕ) (ids src : List ℕ)
    → c.out_program ≡ (k, ids)
    → c.block ≡ (k, t, src)
    → length ids * t ≤ length out
    → AreSymbols (repeated k t src) t ids (repetition.out_execute c t out).1
written c t out k ids src program block room i id at =
    let syms = joined k t src ids in
    let size = length-joined k t src ids in
    let lt = get_elem?-lt ids i id at in
    let inside : i * t + t ≤ length syms = grind arith in
    ap₂ (λ b p. slice (blit out 0 (joined b.0 t b.2 p.1)) (i * t) t) block program
    ∙ slice-blit_within out syms (i * t) t (omega arith) inside
    ∙ joined-AreSymbols k t src ids i id at

abbrev pub repetition-ErasureCode : ErasureCode repetition
repetition-ErasureCode = record {
  symbol = repeated;
  systematic = repeated-systematic;
  view = seen;
  init_law = λ c k n h. refl;
  add_law = λ c id n h. refl;
  not_success = insuff-ne-zero;
  compile_law = compile_law;
  sources_suffice =
      λ c k given. ap (λ b. (compiled c b).0) (ap suffices given ∙ suffices-sources k);
  execute_law = λ c t syms k ids src program some_symbols sized are h.
      execute_law c t syms k ids src program some_symbols sized are;
  out_init_law = λ c k h. refl;
  out_add_law = λ c id n h. refl;
  out_compile_law = λ c h. refl;
  out_execute_law = λ c t out k ids src program block room h i id at.
      written c t out k ids src program block room i id at;
}

pub repetition-Runs : Runs repetition
repetition-Runs = record {
  include_case = λ c k n_extra n_out t. (0, refl);
  inter_init = λ c k n. (0, refl);
  inter_add_ids = λ c id n. (0, refl);
  inter_execute = λ c t syms. (0, refl);
  out_init = λ c k. (0, refl);
  out_add_ids = λ c id n. (0, refl);
  out_compile = λ c. (0, refl);
  out_execute = λ c t out. (0, refl);
  out_sized = λ c t out. length-blit out 0 (joined c.block.0 t c.block.2 c.out_program.1);
}
