-- ===== src/CodeBlock/Erasure.antt =====
-- What the calls of the RaptorQ library do, as far as the program relies on it: a systematic erasure code.
-- The memory of a decoder is seen as the identifiers that it was given, the programs compiled from them,
-- and the source block that its intermediate symbols stand for.
use rq_route_demo.Base.{
  ℕ, zero, suc, ◌+◌, ◌*◌, ◌≤◌, ◌<◌, ◌≡◌, ◌≢◌, List, [], ◌∷◌, ◌++◌, length, slice, get_elem?, some,
  refl, ap, ◌∙◌, arith, ℤ, pos,
}
use rq_route_demo.CodeBlock.Codec.{Codec}

-- A code that is not negative.
abbrev pub IsCode : ℤ → Type 0
IsCode rc = (n : ℕ) × (rc ≡ pos n)

-- `n` identifiers from `id` on
abbrev pub ids_from : ℕ → ℕ → List ℕ
ids_from id zero = []
ids_from id (suc n) = id ∷ ids_from (id + 1) n

pub length-ids_from : (start n : ℕ) → length (ids_from start n) ≡ n
length-ids_from start zero = refl
length-ids_from start (suc n) = ap suc (length-ids_from (start + 1) n)

pub ids_from-get : (k start i : ℕ) → i < k → get_elem? (ids_from start k) i ≡ some (start + i)
ids_from-get zero start i h = absurd (omega arith)
ids_from-get (suc k) start zero h = ap some (omega arith)
ids_from-get (suc k) start (suc i) h =
    ids_from-get k (start + 1) i (omega arith) ∙ ap some (omega arith)

pub get-ids_from :
    (k start i id : ℕ) → get_elem? (ids_from start k) i ≡ some id → (id ≡ start + i) × (i < k)
get-ids_from zero start i id h = cc
get-ids_from (suc k) start zero id h = ground arith
get-ids_from (suc k) start (suc i) id h =
    let (is, lt) = get-ids_from k (start + 1) i id h in (omega arith, omega arith)

-- A number of source symbols, and identifiers.
abbrev pub Symbols : Type 0
Symbols = ℕ × List ℕ

-- The identifiers given for input and for output, the programs compiled from them, and the source block
-- with its number of symbols and the size of a symbol.
pub record View : Type 0 where
  pub given : Symbols
  pub program : Symbols
  pub block : ℕ × ℕ × List ℕ
  pub out_given : Symbols
  pub out_program : Symbols

-- The symbols in the buffer, of `t` bytes each, are those of `symbol` for the identifiers.
abbrev pub AreSymbols : (ℕ → List ℕ) → ℕ → List ℕ → List ℕ → Type 0
AreSymbols symbol t ids buf =
    (i id : ℕ) → get_elem? ids i ≡ some id → slice buf (i * t) t ≡ symbol id

pub record ErasureCode {C : Type 0} (rq : Codec C) : Type 0 where
  -- The symbol with an identifier, for a source block of `k` symbols of `t` bytes. The first `k` are those
  -- of the source block.
  pub symbol : ℕ → ℕ → List ℕ → ℕ → List ℕ
  pub systematic :
      (k t : ℕ) (src : List ℕ) (id : ℕ)
      → length src ≡ k * t
      → id < k
      → symbol k t src id ≡ slice src (id * t) t
  pub view : C → View
  -- A call that returns a code that is not negative has done the following.
  pub init_law :
      (c : C) (k n : ℕ)
      → IsCode (rq.inter_init c k n).0
      → view (rq.inter_init c k n).1 ≡ record (view c) { given = (k, []) }
  pub add_law :
      (c : C) (id n : ℕ)
      → IsCode (rq.inter_add_ids c id n).0
      → view (rq.inter_add_ids c id n).1
        ≡ record (view c) { given = ((view c).given.0, (view c).given.1 ++ ids_from id n) }
  pub not_success : rq.insuff_ids ≢ pos 0
  -- 0 says that the identifiers suffice to decode. Those of all source symbols do.
  pub compile_law :
      (c : C)
      → (rq.inter_compile c).0 ≡ pos 0
      → view (rq.inter_compile c).1 ≡ record (view c) { program = (view c).given }
  pub sources_suffice :
      (c : C) (k : ℕ) → (view c).given ≡ (k, ids_from 0 k) → (rq.inter_compile c).0 ≡ pos 0
  -- The intermediate symbols, out of the symbols of some source block.
  pub execute_law :
      (c : C) (t : ℕ) (syms : List ℕ) (k : ℕ) (ids src : List ℕ)
      → (view c).program ≡ (k, ids)
      → 0 < k
      → length src ≡ k * t
      → AreSymbols (symbol k t src) t ids syms
      → IsCode (rq.inter_execute c t syms).0
      → view (rq.inter_execute c t syms).1 ≡ record (view c) { block = (k, t, src) }
  pub out_init_law :
      (c : C) (k : ℕ)
      → IsCode (rq.out_init c k).0
      → view (rq.out_init c k).1 ≡ record (view c) { out_given = (k, []) }
  pub out_add_law :
      (c : C) (id n : ℕ)
      → IsCode (rq.out_add_ids c id n).0
      → view (rq.out_add_ids c id n).1 ≡ record (view c) {
        out_given = ((view c).out_given.0, (view c).out_given.1 ++ ids_from id n);
      }
  pub out_compile_law :
      (c : C)
      → IsCode (rq.out_compile c).0
      → view (rq.out_compile c).1 ≡ record (view c) { out_program = (view c).out_given }
  -- The symbols asked for, of the source block that the intermediate symbols stand for.
  pub out_execute_law :
      (c : C) (t : ℕ) (out : List ℕ) (k : ℕ) (ids src : List ℕ)
      → (view c).out_program ≡ (k, ids)
      → (view c).block ≡ (k, t, src)
      → length ids * t ≤ length out
      → IsCode (rq.out_execute c t out).0
      → AreSymbols (symbol k t src) t ids (rq.out_execute c t out).1

-- No call on the way from the symbols received to the source block fails, but for `RqInterCompile`.
pub record Runs {C : Type 0} (rq : Codec C) : Type 0 where
  pub include_case :
      (c : C) (k n_extra n_out t : ℕ) → IsCode (rq.include_case c k n_extra n_out t).0
  pub inter_init : (c : C) (k n : ℕ) → IsCode (rq.inter_init c k n).0
  pub inter_add_ids : (c : C) (id n : ℕ) → IsCode (rq.inter_add_ids c id n).0
  pub inter_execute : (c : C) (t : ℕ) (syms : List ℕ) → IsCode (rq.inter_execute c t syms).0
  pub out_init : (c : C) (k : ℕ) → IsCode (rq.out_init c k).0
  pub out_add_ids : (c : C) (id n : ℕ) → IsCode (rq.out_add_ids c id n).0
  pub out_compile : (c : C) → IsCode (rq.out_compile c).0
  pub out_execute : (c : C) (t : ℕ) (out : List ℕ) → IsCode (rq.out_execute c t out).0
  pub out_sized : (c : C) (t : ℕ) (out : List ℕ) → length (rq.out_execute c t out).1 ≡ length out
