-- ===== src/CodeBlock/Invariant.antt =====
-- The well-formedness of a code block's state, and what `codeblockstate_init` returns.
use rq_route_demo.Base.{
  ℕ, ◌+◌, ◌*◌, ◌/◌, ◌%◌, ◌^◌, ◌≤◌, ◌<◌, ◌≡◌, ◌≢◌, refl, arith, true, ok, [], length, replicate,
  none, mul_int-ok, ◌==◌, if◌then◌else◌,
}
use rq_route_demo.Memory.{Malloc}
use rq_route_demo.HashTable.Index.{Indexes, empty-Indexes}
use rq_route_demo.CodeBlock.{CodeBlockState, init, hash_size}
use rq_route_demo.CodeBlock.Received.{used, count_source, distinct, received}

pub record IsValid (s : CodeBlockState) : Type 0 where
  -- room for 30 symbols beyond the `k` that decoding needs
  pub capacity : s.n_esi_max ≡ s.k + 30
  pub within : s.n_esi ≤ s.n_esi_max
  pub esi_sized : length s.esi ≡ s.n_esi_max
  pub buf_sized : length s.syms_buf ≡ s.t * s.n_esi_max
  pub buf_small : s.t * s.n_esi_max < 2 ^ 31
  -- The hash table is never full, and finds exactly the symbols that are in use.
  pub room : s.n_esi_max < s.hash_esi_sz
  pub index : Indexes s.hash_esi_sz s.hash_esi (used s)
  -- No symbol is held twice, and the source symbols are counted.
  pub no_repeat : distinct (used s) ≡ true
  pub sources : s.n_src_esi ≡ count_source s.k (used s)

hash_size-ok :
    (n : ℕ)
    → n * 5 < 2 ^ 31
    → 1 ≤ n
    → (size : ℕ) × (hash_size n ≡ ok size) × (n < size) × (size % 29 ≢ 0)
unfolding hash_size
hash_size-ok n h k = (
  (if n * 5 / 2 % 29 == 0 then n * 5 / 2 + 1 else n * 5 / 2),
  ground arith,
  ground arith,
  ground arith,
)

pub record Fresh (k t : ℕ) (s : CodeBlockState) : Type 0 where
  pub valid : IsValid s
  pub k_kept : s.k ≡ k
  pub t_kept : s.t ≡ t
  pub none_received : received s ≡ []

-- For sizes whose products fit in an `int`, `codeblockstate_init` returns a well-formed block of those
-- sizes that holds no symbol.
pub init-Fresh :
    (heap : Malloc) (k t : ℕ)
    → (k + 30) * 5 < 2 ^ 31
    → t * (k + 30) < 2 ^ 31
    → (s : CodeBlockState) × (init heap k t ≡ ok s) × Fresh k t s
unfolding init
init-Fresh heap k t hk ht =
    let (size, sized, room, _) = hash_size-ok (k + 30) hk (omega arith) in
    let s : CodeBlockState = fresh_state size in
    (
      s,
      rw (sized, mul_int-ok t (k + 30) ht),
      record {
        valid = record {
          capacity = refl;
          within = omega arith;
          esi_sized = heap.length-block (k + 30);
          buf_sized = heap.length-block (t * (k + 30));
          buf_small = ht;
          room = room;
          index = empty-Indexes size;
          no_repeat = refl;
          sources = refl;
        };
        k_kept = refl;
        t_kept = refl;
        none_received = refl;
      },
    )
  where
    fresh_state : ℕ → CodeBlockState
    fresh_state size = record {
      k = k;
      t = t;
      n_esi_max = k + 30;
      n_esi = 0;
      esi = heap.block (k + 30);
      n_src_esi = 0;
      hash_esi_sz = size;
      hash_esi = replicate size none;
      syms_buf = heap.block (t * (k + 30));
    }
