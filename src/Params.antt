-- ===== src/Params.antt =====
-- utils/param_deriv.h and utils/param_deriv.c: the code parameters of a file.
pub mod Exact
use rq_route_demo.Base.{
  ℕ, Bool, Run, ok, ◌>>=◌, ◌>>◌, assert, ◌&&◌, ℤ, pos, pos_part, leb_ℤ, eqb_ℤ, add_int, sub_int,
  prod_int, div_int,
}

-- Symbol size in bytes, `PD_T`.
abbrev pub pd_t : ℕ
pd_t = 1024

-- `PD_MAX_K`
abbrev pub pd_max_k : ℕ
pd_max_k = 50000

-- `coding_params`. The assertions of `param_deriv` leave no negative value in it.
pub record CodingParams : Type 0 where
  pub t : ℕ
  pub n_srcsym_tot : ℕ
  pub n_cb : ℕ
  pub k_large : ℕ
  pub n_large : ℕ

pub ceildiv : ℤ → ℤ → Run ℤ
ceildiv a b = do s ← add_int a b; n ← sub_int s (pos 1); div_int n b

-- The checks at the end of `param_deriv`: `1 <= n_large && n_large <= n_cb`, and that the large and
-- the small code blocks hold all source symbols.
pub check_params : ℤ → ℤ → ℤ → ℤ → Run (Unit {0})
check_params n_srcsym_tot n_cb k_large n_large = do
  assert (leb_ℤ (pos 1) n_large && leb_ℤ n_large n_cb)
  large ← prod_int k_large n_large
  k_small ← sub_int k_large (pos 1)
  n_small ← sub_int n_cb n_large
  small ← prod_int k_small n_small
  total ← add_int large small
  assert (eqb_ℤ total n_srcsym_tot)

-- The returned parameters stand for the 0 that `param_deriv` always returns and for `*ret`.
pub param_deriv : ℤ → Run CodingParams
param_deriv file_size = do
  n_srcsym_tot ← ceildiv file_size (pos pd_t)
  n_cb ← ceildiv n_srcsym_tot (pos pd_max_k)
  assert (eqb_ℤ n_cb (pos 1))
  k_large ← ceildiv n_srcsym_tot n_cb
  total ← prod_int k_large n_cb
  n_small ← sub_int total n_srcsym_tot
  n_large ← sub_int n_cb n_small
  check_params n_srcsym_tot n_cb k_large n_large
  ok (record {
    t = pd_t;
    n_srcsym_tot = pos_part n_srcsym_tot;
    n_cb = pos_part n_cb;
    k_large = pos_part k_large;
    n_large = pos_part n_large;
  })
