-- ===== src/Tests/Blocks.antt =====
-- Inputs for the theorems on parameters, the hash table and code blocks.
use rq_route_demo.Base.{
  ℕ, ◌+◌, ◌*◌, ◌≤◌, ◌<◌, ◌≡◌, refl, ap, sym, ◌∙◌, inl, true, leb, List, [], ◌∷◌, length, take,
  replicate, ok, none, pos, arith,
}
use rq_route_demo.Params.{param_deriv, pd_max_k}
use rq_route_demo.Params.Exact.{
  param_deriv_lem, param_deriv_capacity, outcome, accepts, single_block,
}
use rq_route_demo.HashTable.Index.{Searched, empty-Indexes, search_lem}
use rq_route_demo.CodeBlock
use rq_route_demo.CodeBlock.{CodeBlockState, add_sym}
use rq_route_demo.CodeBlock.Received.{receive, received, used, ids, ids-entries}
use rq_route_demo.CodeBlock.Invariant.{Fresh, init-Fresh}
use rq_route_demo.CodeBlock.Add.{Added, add_sym_refines}
use rq_route_demo.CodeBlock.Data.{get_data}
use rq_route_demo.CodeBlock.Data.Recover.{Recovered, get_data_copies, get_data_complete}
use rq_route_demo.Tests.{zero_heap, idle}

small :
    param_deriv (pos 2500)
    ≡ ok (record { t = 1024; n_srcsym_tot = 3; n_cb = 1; k_large = 3; n_large = 1 })
small = accepts 2500 (omega arith) (omega arith)

param_deriv_lem_example : param_deriv (pos 51200001) ≡ outcome (pos 51200001)
param_deriv_lem_example = param_deriv_lem (pos 51200001) (omega arith) (omega arith)

param_deriv_capacity_example :
    let p = single_block 2500 in
    (p.t ≡ 1024)
    × (p.n_cb ≡ 1)
    × (p.n_large ≡ 1)
    × (p.n_srcsym_tot ≡ p.k_large)
    × (1 ≤ p.k_large)
    × (p.k_large ≤ pd_max_k)
    × (2500 ≤ p.k_large * p.t)
    × (p.k_large * p.t < 2500 + p.t)
param_deriv_capacity_example =
    param_deriv_capacity (pos 2500) {p = single_block 2500} (omega arith) (omega arith) small

search_lem_example : Searched 3 (replicate 3 none) [] 8
search_lem_example = search_lem (empty-Indexes 3) (omega arith) 8

init-Fresh_example : (s : CodeBlockState) × (CodeBlock.init zero_heap 2 4 ≡ ok s) × Fresh 2 4 s
init-Fresh_example = init-Fresh zero_heap 2 4 (omega arith) (omega arith)

-- A block of one source symbol of two bytes, as it is set up.
abbrev block : CodeBlockState
block = (init-Fresh zero_heap 1 2 (omega arith) (omega arith)).0

block-Fresh : Fresh 1 2 block
block-Fresh = (init-Fresh zero_heap 1 2 (omega arith) (omega arith)).2

abbrev bytes : List ℕ
bytes = 5 ∷ 6 ∷ []

fits : length bytes ≤ block.t
fits = omega (arith, block-Fresh.t_kept)

add_sym_refines_example :
    (s : CodeBlockState) × (add_sym block 0 bytes ≡ ok s) × Added block 0 bytes s
add_sym_refines_example = add_sym_refines block-Fresh.valid 0 bytes fits (omega arith)

-- The same block with its one symbol received.
abbrev full : CodeBlockState
full = (add_sym_refines block-Fresh.valid 0 bytes fits (omega arith)).0

full-Added : Added block 0 bytes full
full-Added = (add_sym_refines block-Fresh.valid 0 bytes fits (omega arith)).2

full-holds : received full ≡ (0, bytes) ∷ []
unfolding receive
full-holds =
    full-Added.holds
    ∙ rw
        (
          block-Fresh.none_received, block-Fresh.t_kept, block-Fresh.valid.capacity,
          block-Fresh.k_kept,
        )
        refl

full-used : used full ≡ 0 ∷ []
full-used = sym (ids-entries full.t full.syms_buf 0 (used full)) ∙ ap ids full-holds

full-k : full.k ≡ 1
full-k = full-Added.k_kept ∙ block-Fresh.k_kept

full-t : full.t ≡ 2
full-t = full-Added.t_kept ∙ block-Fresh.t_kept

all_there : full.k ≤ full.n_src_esi
all_there = rw (full-Added.valid.sources, full-used, full-k) (omega arith)

abbrev out : List ℕ
out = 9 ∷ 9 ∷ 9 ∷ []

room : full.k * full.t ≤ length out
room = rw (full-k, full-t) (omega arith)

get_data_copies_example :
    (out' : List ℕ) × (get_data idle full out tt ≡ ok (leb full.k full.n_src_esi, out', tt))
    × Recovered full out out'
get_data_copies_example = get_data_copies idle full-Added.valid out tt room (inl all_there)

get_data_complete_example :
    (out' : List ℕ) × (get_data idle full out tt ≡ ok (true, out', tt))
    × (take (full.k * full.t) out' ≡ bytes)
get_data_complete_example =
    get_data_complete idle full-Added.valid out tt room bytes all_there (rw (full-k, full-t) refl)
      (rw (full-holds, full-k, full-t) ((λ h. refl), tt))
