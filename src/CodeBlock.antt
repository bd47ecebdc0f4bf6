-- ===== src/CodeBlock.antt =====
-- receiver/codeblockstate.h and receiver/codeblockstate.c: the symbols received of one code block.
-- An `int` here is a count, a size or an identifier of a symbol, none of which is negative; an array
-- is a list, and a write outside it is a fault.
pub mod Memory
pub mod Received
pub mod Invariant
pub mod Add
pub mod Codec
pub mod Erasure
pub mod Data
pub mod Sources
use rq_route_demo.Base.{
  ℕ, ◌+◌, ◌-◌, ◌*◌, ◌/◌, ◌%◌, Bool, List, length, replicate, set, none, some, Run, ok, fault, ◌>>=◌,
  ◌>>◌, assert, mul_int, out_of_bounds, division_by_zero, leb, ltb, ◌==◌, if◌then◌else◌, memcpy,
}
use rq_route_demo.Memory.{Malloc}
use rq_route_demo.HashTable.{Cells, Probe, duplicate, vacant, probe, h_mult}

-- `codeblockstate`; `esi` has `n_esi_max` entries, of which the first `n_esi` are in use, and symbol
-- number `i` lies at offset `T * i` of `syms_buf`.
pub record CodeBlockState : Type 0 where
  pub k : ℕ
  pub t : ℕ
  pub n_esi_max : ℕ
  pub n_esi : ℕ
  pub esi : List ℕ
  pub n_src_esi : ℕ
  pub hash_esi_sz : ℕ
  pub hash_esi : Cells
  pub syms_buf : List ℕ

-- The size of the hash table: two and a half times the symbols, and no multiple of `H_MULT`.
pub hash_size : ℕ → Run ℕ
hash_size n_esi_max = do
  n ← mul_int n_esi_max 5
  let size = n / 2
  ok (if size % h_mult == 0 then size + 1 else size)

-- `codeblockstate_init`
pub init : Malloc → ℕ → ℕ → Run CodeBlockState
init heap k t = do
  let n_esi_max = k + 30
  hash_esi_sz ← hash_size n_esi_max
  n_bytes ← mul_int t n_esi_max
  ok (record {
    k = k;
    t = t;
    n_esi_max = n_esi_max;
    n_esi = 0;
    esi = heap.block n_esi_max;
    n_src_esi = 0;
    hash_esi_sz = hash_esi_sz;
    hash_esi = replicate hash_esi_sz none;
    syms_buf = heap.block n_bytes;
  })

-- `a % b` of two values of type `int` that are not negative
pub mod_int : ℕ → ℕ → Run ℕ
mod_int a b = if b == 0 then fault division_by_zero else ok (a % b)

-- `esi[i] = v`
pub store_int : List ℕ → ℕ → ℕ → Run (List ℕ)
store_int xs i v = if ltb i (length xs) then ok (set xs i v) else fault out_of_bounds

-- The payload copied to `syms_buf + offs`, padded with zeros to a whole symbol.
pub copy_payload : List ℕ → ℕ → ℕ → List ℕ → Run (List ℕ)
copy_payload syms_buf offs t payload = do
  copied ← memcpy syms_buf offs payload
  if ltb (length payload) t
      then memcpy copied (length payload + offs) (replicate (t - length payload) 0)
      else ok copied

-- The end of `codeblockstate_add_sym`, from `S->hash_esi[hent] = sym_id` on.
pub record_sym : CodeBlockState → ℕ → List ℕ → ℕ → Run CodeBlockState
record_sym s sym_id payload hent = do
  esi ← store_int s.esi s.n_esi sym_id
  offs ← mul_int s.t s.n_esi
  syms_buf ← copy_payload s.syms_buf offs s.t payload
  ok (record s {
    hash_esi = set s.hash_esi hent (some sym_id);
    esi = esi;
    syms_buf = syms_buf;
    n_esi = s.n_esi + 1;
    n_src_esi = if ltb sym_id s.k then s.n_src_esi + 1 else s.n_src_esi;
  })

-- What `codeblockstate_add_sym` does once the search has ended.
pub insert_at : CodeBlockState → ℕ → List ℕ → Probe → Run CodeBlockState
insert_at s sym_id payload duplicate = ok s
insert_at s sym_id payload (vacant hent) = record_sym s sym_id payload hent

-- `codeblockstate_add_sym`
pub add_sym : CodeBlockState → ℕ → List ℕ → Run CodeBlockState
add_sym s sym_id payload = do
  assert (leb (length payload) s.t)
  if leb s.n_esi_max s.n_esi then ok s else do
    hash ← mul_int sym_id h_mult
    hent ← mod_int hash s.hash_esi_sz
    found ← probe s.hash_esi_sz s.hash_esi s.hash_esi_sz sym_id hent
    insert_at s sym_id payload found
