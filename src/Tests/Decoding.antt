-- ===== src/Tests/Decoding.antt =====
-- Code blocks that hold repair symbols only: one that can be decoded, and one that cannot.
use rq_route_demo.Base.{
  ℕ, ◌*◌, ◌≤◌, ◌<◌, ◌≡◌, refl, ap, sym, ◌∙◌, true, false, List, [], ◌∷◌, length, take, ok, pos,
  arith,
}
use rq_route_demo.CodeBlock.{CodeBlockState}
use rq_route_demo.CodeBlock.Add.{Added, add_sym_refines, length-used}
use rq_route_demo.CodeBlock.Data.{get_data}
use rq_route_demo.CodeBlock.Data.Decode.{get_data_decodes, get_data_insufficient}
use rq_route_demo.CodeBlock.Data.Recover.{Recovered}
use rq_route_demo.CodeBlock.Erasure.{View}
use rq_route_demo.CodeBlock.Invariant.{Fresh, init-Fresh}
use rq_route_demo.CodeBlock.Received.{receive, received, used, ids, ids-entries}
use rq_route_demo.Tests.{zero_heap}
use rq_route_demo.Tests.Repairs.{fresh}
use rq_route_demo.Tests.Repetition.{
  suffices, compiled, repetition, repetition-ErasureCode, repetition-Runs,
}

abbrev out : List ℕ
out = 9 ∷ 9 ∷ 9 ∷ 9 ∷ []

abbrev bytes : List ℕ
bytes = 5 ∷ 6 ∷ []

-- A block of one source symbol of two bytes, as it is set up.
abbrev one : CodeBlockState
one = (init-Fresh zero_heap 1 2 (omega arith) (omega arith)).0

one-Fresh : Fresh 1 2 one
one-Fresh = (init-Fresh zero_heap 1 2 (omega arith) (omega arith)).2

-- With a repair symbol.
abbrev held : CodeBlockState
held = (add_sym_refines one-Fresh.valid 1 bytes (omega (arith, one-Fresh.t_kept)) (omega arith)).0

held-Added : Added one 1 bytes held
held-Added =
    (add_sym_refines one-Fresh.valid 1 bytes (omega (arith, one-Fresh.t_kept)) (omega arith)).2

held-received : received held ≡ (1, bytes) ∷ []
unfolding receive
held-received =
    held-Added.holds
    ∙ rw (one-Fresh.none_received, one-Fresh.t_kept, one-Fresh.valid.capacity, one-Fresh.k_kept)
        refl

held-used : used held ≡ 1 ∷ []
held-used = sym (ids-entries held.t held.syms_buf 0 (used held)) ∙ ap ids held-received

held-k : held.k ≡ 1
held-k = held-Added.k_kept ∙ one-Fresh.k_kept

held-t : held.t ≡ 2
held-t = held-Added.t_kept ∙ one-Fresh.t_kept

held-enough : held.k ≤ held.n_esi
held-enough = omega (arith, held-k, length-used held-Added.valid, ap length held-used)

decodable :
    (m : View)
    → (repetition-ErasureCode.view m).given ≡ (held.k, used held)
    → (repetition.inter_compile m).0 ≡ pos 0
decodable m given =
    let solved : suffices (held.k, used held) ≡ true = rw (held-k, held-used) refl in
    ap (λ b. (compiled m b).0) (ap suffices given ∙ solved)

get_data_decodes_example :
    (out' : List ℕ) × (c' : View) × (get_data repetition held out fresh ≡ ok (true, out', c'))
    × (take (held.k * held.t) out' ≡ bytes)
get_data_decodes_example =
    get_data_decodes repetition repetition-ErasureCode repetition-Runs held-Added.valid out fresh
      (rw (held-k, held-t) (omega arith)) bytes (rw held-k (omega arith)) held-enough
      (rw (held-k, held-t) refl) (rw (held-received, held-k, held-t) (refl, tt)) decodable

-- A block of two source symbols of one byte, with two repair symbols.
abbrev two : CodeBlockState
two = (init-Fresh zero_heap 2 1 (omega arith) (omega arith)).0

two-Fresh : Fresh 2 1 two
two-Fresh = (init-Fresh zero_heap 2 1 (omega arith) (omega arith)).2

abbrev first : CodeBlockState
first =
    (add_sym_refines two-Fresh.valid 2 (7 ∷ []) (omega (arith, two-Fresh.t_kept)) (omega arith)).0

first-Added : Added two 2 (7 ∷ []) first
first-Added =
    (add_sym_refines two-Fresh.valid 2 (7 ∷ []) (omega (arith, two-Fresh.t_kept)) (omega arith)).2

first-received : received first ≡ (2, 7 ∷ []) ∷ []
unfolding receive
first-received =
    first-Added.holds
    ∙ rw (two-Fresh.none_received, two-Fresh.t_kept, two-Fresh.valid.capacity, two-Fresh.k_kept)
        refl

first-t : first.t ≡ 1
first-t = first-Added.t_kept ∙ two-Fresh.t_kept

first-k : first.k ≡ 2
first-k = first-Added.k_kept ∙ two-Fresh.k_kept

abbrev second : CodeBlockState
second = (add_sym_refines first-Added.valid 3 (8 ∷ []) (omega (arith, first-t)) (omega arith)).0

second-Added : Added first 3 (8 ∷ []) second
second-Added =
    (add_sym_refines first-Added.valid 3 (8 ∷ []) (omega (arith, first-t)) (omega arith)).2

second-received : received second ≡ (2, 7 ∷ []) ∷ (3, 8 ∷ []) ∷ []
unfolding receive
second-received =
    second-Added.holds ∙ rw (first-received, first-t, first-Added.valid.capacity, first-k) refl

second-used : used second ≡ 2 ∷ 3 ∷ []
second-used = sym (ids-entries second.t second.syms_buf 0 (used second)) ∙ ap ids second-received

second-k : second.k ≡ 2
second-k = second-Added.k_kept ∙ first-k

second-t : second.t ≡ 1
second-t = second-Added.t_kept ∙ first-t

second-enough : second.k ≤ second.n_esi
second-enough = omega (arith, second-k, length-used second-Added.valid, ap length second-used)

second-missing : second.n_src_esi < second.k
second-missing = rw (second-Added.valid.sources, second-used, second-k) (omega arith)

insufficient :
    (m : View)
    → (repetition-ErasureCode.view m).given ≡ (second.k, used second)
    → (repetition.inter_compile m).0 ≡ repetition.insuff_ids
insufficient m given =
    let unsolved : suffices (second.k, used second) ≡ false = rw (second-k, second-used) refl in
    ap (λ b. (compiled m b).0) (ap suffices given ∙ unsolved)

get_data_insufficient_example :
    (out' : List ℕ) × (c' : View) × (get_data repetition second out fresh ≡ ok (false, out', c'))
    × Recovered second out out'
get_data_insufficient_example =
    get_data_insufficient repetition repetition-ErasureCode repetition-Runs second-Added.valid out
      fresh (rw (second-k, second-t) (omega arith)) second-enough second-missing insufficient
