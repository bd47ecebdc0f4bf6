-- ===== src/HashTable.antt =====
-- The hash table of received symbols in receiver/codeblockstate.c: open addressing with linear
-- probing. `none` is the entry -1, which no symbol identifier equals.
pub mod Probing
pub mod Index
use rq_route_demo.Base.{
  ℕ, zero, suc, ◌+◌, ◌*◌, ◌%◌, Run, ok, fault, no_fuel, out_of_bounds, Option, none, some, List,
  get_elem?, ◌==◌, if◌then◌else◌,
}

abbrev pub Cells : Type 0
Cells = List (Option ℕ)

-- Multiplier for hashing, `H_MULT`.
abbrev pub h_mult : ℕ
h_mult = 29

-- Where the search for a symbol ends: at its entry, or at the free entry that it gets.
pub data Probe : Type 0 where
  duplicate : Probe
  vacant : ℕ → Probe

-- `if (++hent == S->hash_esi_sz) hent = 0;`
pub next_slot : ℕ → ℕ → ℕ
next_slot size hent = if hent + 1 == size then 0 else hent + 1

-- The loop of `codeblockstate_add_sym`. A table with a free entry is searched in fewer rounds than it
-- has entries, so `add_sym` gives it that many as fuel.
pub probe : ℕ → Cells → ℕ → ℕ → ℕ → Run Probe
probe zero cells size sym_id hent = fault no_fuel
probe (suc fuel) cells size sym_id hent =
    let rest = probe fuel cells size sym_id (next_slot size hent) in
    elim (get_elem? cells hent) [
      | none ↦ fault out_of_bounds
      | some none ↦ ok (vacant hent)
      | some (some x) ↦ let again = rest in if x == sym_id then ok duplicate else again
    ]
