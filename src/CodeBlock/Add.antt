-- ===== src/CodeBlock/Add.antt =====
-- `codeblockstate_add_sym` against `receive`, its abstract description.
use rq_route_demo.Base.{
  ℕ, suc, ◌+◌, ◌-◌, ◌*◌, ◌^◌, ◌≤◌, ◌<◌, ◌≡◌, refl, sym, ◌∙◌, inl, inr, arith, true, false, ok, List,
  [], ◌∷◌, ◌++◌, length, set, some, leb, ltb, if◌then◌else◌, replicate, ◌>>=◌, length-replicate,
  mem, blit, blit-blit, append-nil, length-blit, length-set, take-set, length-take, Bool-cases,
}
use rq_route_demo.HashTable.{h_mult}
use rq_route_demo.HashTable.Index.{Indexes, search_lem, search_for}
use rq_route_demo.CodeBlock.{
  CodeBlockState, add_sym, insert_at, record_sym, copy_payload, store_int, mod_int,
}
use rq_route_demo.CodeBlock.Received.{
  used, received, receive, pad, ids-entries, length-entries, entries-blit-append, length-pad,
  distinct-append, count_source-append,
}
use rq_route_demo.CodeBlock.Invariant.{IsValid}

copy_payload-ok :
    (buf : List ℕ) (offs t : ℕ) (payload : List ℕ)
    → length payload ≤ t
    → offs + t ≤ length buf
    → copy_payload buf offs t payload ≡ ok (blit buf offs (pad t payload))
unfolding copy_payload
copy_payload-ok buf offs t payload h k = elim (Bool-cases (ltb (length payload) t)) [
  | inl short ↦ ground (
    arith,
    length-replicate {A = ℕ} (t - length payload) 0,
    length-blit buf offs payload,
    blit-blit buf offs payload (replicate (t - length payload) 0) (length payload + offs),
  )
  | inr full ↦
      let exact : t - length payload ≡ 0 = ground arith in
      rw (full, exact, append-nil) (ground arith)
]

pub length-used : {s : CodeBlockState} → IsValid s → length (used s) ≡ s.n_esi
length-used {s} v = omega (arith, length-take s.n_esi s.esi, v.within, v.esi_sized)

-- What one call does: it returns, keeps the invariant, and the symbols held become those of `receive`.
pub record Added (s : CodeBlockState) (id : ℕ) (payload : List ℕ) (s' : CodeBlockState)
    : Type 0 where
  pub valid : IsValid s'
  pub holds : received s' ≡ receive s.n_esi_max s.t (received s) id payload
  pub k_kept : s'.k ≡ s.k
  pub t_kept : s'.t ≡ s.t

module _ {s : CodeBlockState} (v : IsValid s) (id : ℕ) (payload : List ℕ)
    (fits : length payload ≤ s.t) where
  room_for : s.n_esi < s.n_esi_max → s.t * s.n_esi + s.t ≤ s.t * s.n_esi_max
  room_for h = grind arith

  after : ℕ → CodeBlockState
  after hent = record s {
    hash_esi = set s.hash_esi hent (some id);
    esi = set s.esi s.n_esi id;
    syms_buf = blit s.syms_buf (s.t * s.n_esi) (pad s.t payload);
    n_esi = s.n_esi + 1;
    n_src_esi = if ltb id s.k then s.n_src_esi + 1 else s.n_src_esi;
  }

  receive-new :
      s.n_esi < s.n_esi_max
      → mem id (used s) ≡ false
      → receive s.n_esi_max s.t (received s) id payload ≡ received s ++ (id, pad s.t payload) ∷ []
  unfolding receive
  receive-new free new =
      rw
        (
          length-entries s.t s.syms_buf 0 (used s),
          length-used v,
          ids-entries s.t s.syms_buf 0 (used s),
          new,
        )
        (ground arith)

  receive-known :
      mem id (used s) ≡ true → receive s.n_esi_max s.t (received s) id payload ≡ received s
  unfolding receive
  receive-known known = rw (ids-entries s.t s.syms_buf 0 (used s), known) (ground arith)

  receive-full :
      s.n_esi_max ≤ s.n_esi → receive s.n_esi_max s.t (received s) id payload ≡ received s
  unfolding receive
  receive-full full = rw (length-entries s.t s.syms_buf 0 (used s), length-used v) (ground arith)

  record_sym-Added :
      (hent : ℕ)
      → s.n_esi < s.n_esi_max
      → mem id (used s) ≡ false
      → Indexes s.hash_esi_sz (set s.hash_esi hent (some id)) (used s ++ id ∷ [])
      → (s' : CodeBlockState) × (record_sym s id payload hent ≡ ok s') × Added s id payload s'
  unfolding record_sym store_int after
  record_sym-Added hent free new index = (after hent, runs, added)
    where
      runs : record_sym s id payload hent ≡ ok (after hent)
      runs = ground (
        arith,
        v.esi_sized,
        room_for free,
        v.buf_small,
        v.buf_sized,
        copy_payload-ok s.syms_buf (s.t * s.n_esi) s.t payload,
      )

      used_after : used (after hent) ≡ used s ++ id ∷ []
      used_after =
          let next : s.n_esi + 1 ≡ suc s.n_esi = omega arith in
          rw next (take-set s.esi s.n_esi id (omega (arith, v.esi_sized)))

      added : Added s id payload (after hent)
      added = record {
        valid = record {
          capacity = v.capacity;
          within = omega arith;
          esi_sized = length-set s.esi s.n_esi id ∙ v.esi_sized;
          buf_sized = length-blit s.syms_buf (s.t * s.n_esi) (pad s.t payload) ∙ v.buf_sized;
          buf_small = v.buf_small;
          room = v.room;
          index = rw used_after index;
          no_repeat = rw used_after (distinct-append (used s) id v.no_repeat new);
          sources =
              rw (used_after, count_source-append s.k (used s) id, ← v.sources) (ground arith);
        };
        holds =
            rw used_after (
              entries-blit-append s.t s.syms_buf (used s) id s.n_esi (pad s.t payload)
                (sym (length-used v)) (length-pad s.t payload fits)
                (omega (arith, room_for free, v.buf_sized)))
            ∙ sym (receive-new free new);
        k_kept = refl;
        t_kept = refl;
      }

  kept : received s ≡ receive s.n_esi_max s.t (received s) id payload → Added s id payload s
  kept e = record { valid = v; holds = e; k_kept = refl; t_kept = refl }

  full_stops : leb s.n_esi_max s.n_esi ≡ true → add_sym s id payload ≡ ok s
  unfolding add_sym
  full_stops full = ground arith

  searches :
      id * h_mult < 2 ^ 31
      → leb s.n_esi_max s.n_esi ≡ false
      → add_sym s id payload ≡ (search_for s.hash_esi_sz s.hash_esi id >>= insert_at s id payload)
  unfolding add_sym mod_int
  searches small free = ground (arith, v.room)

  -- On a well-formed block, for a payload of at most one symbol and an identifier whose product with
  -- the hash multiplier fits in an `int`: `codeblockstate_add_sym` returns without a fault, the block
  -- stays well-formed and keeps its sizes, and the symbols it holds become those of `receive`.
  pub add_sym_refines :
      id * h_mult < 2 ^ 31
      → (s' : CodeBlockState) × (add_sym s id payload ≡ ok s') × Added s id payload s'
  unfolding insert_at
  add_sym_refines small = elim (Bool-cases (leb s.n_esi_max s.n_esi)) [
    | inl full ↦ (s, full_stops full, kept (sym (receive-full (ground arith))))
    | inr free ↦ elim (search_lem v.index (omega (arith, length-used v, v.room, v.within)) id) [
      | inl (known, e) ↦ (s, rw (searches small free, e), kept (sym (receive-known known)))
      | inr (new, (i, e, lt, index)) ↦
          let (s', runs, added) = record_sym-Added i (ground arith) new index in
          (s', rw (searches small free, e) runs, added)
    ]
  ]
