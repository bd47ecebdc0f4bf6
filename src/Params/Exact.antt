-- ===== src/Params/Exact.antt =====
-- Which file sizes `param_deriv` accepts, and the parameters that it gives them.
use rq_route_demo.Base.{
  ℕ, ◌+◌, ◌-◌, ◌*◌, ◌/◌, ◌^◌, ◌≤◌, ◌<◌, ◌≡◌, refl, arith, ok, fault, ℤ, pos, negsuc, int_overflow,
  assert_failed, sub_ℕ, prod_int, sub_int, pos_part, neg_part, Run, ◌==◌, if◌then◌else◌, leb, ltb,
}
use rq_route_demo.Params.{CodingParams, ceildiv, check_params, param_deriv, pd_t, pd_max_k}

-- The number of symbols that a file fills, the last one perhaps in part.
abbrev pub symbols : ℕ → ℕ
symbols f = (f + 1023) / 1024

-- The largest file that one code block holds.
abbrev pub max_file : ℕ
max_file = 51200000

ceildiv-t : (a : ℕ) → a + 1024 < 2 ^ 31 → ceildiv (pos a) (pos pd_t) ≡ ok (pos (symbols a))
unfolding ceildiv
ceildiv-t a k = ground arith

ceildiv-max_k :
    (a : ℕ) → a + 50000 < 2 ^ 31 → ceildiv (pos a) (pos pd_max_k) ≡ ok (pos ((a + 49999) / 50000))
unfolding ceildiv
ceildiv-max_k a k = ground arith

ceildiv-one : (a : ℕ) → a + 1 < 2 ^ 31 → ceildiv (pos a) (pos 1) ≡ ok (pos a)
unfolding ceildiv
ceildiv-one a k = ground arith

-- A quotient of a negative number is rounded up to zero or stays negative.
ceildiv-neg :
    (a : ℕ) → a < 2 ^ 31 → ceildiv (negsuc a) (pos pd_t) ≡ ok (sub_ℕ 0 ((a - 1022) / 1024))
unfolding ceildiv
ceildiv-neg a h = ground arith

ceildiv-neg_max_k :
    (n : ℕ) → n < 2 ^ 31 → ceildiv (sub_ℕ 0 n) (pos pd_max_k) ≡ ok (sub_ℕ 0 ((n - 49999) / 50000))
unfolding ceildiv
ceildiv-neg_max_k n h = ground arith

check_params-single :
    (n : ℕ) → 0 < n → n < 2 ^ 31 → check_params (pos n) (pos 1) (pos n) (pos 1) ≡ ok tt
unfolding check_params
check_params-single n h k = ground arith

prod_int-one : (n : ℕ) → n < 2 ^ 31 → prod_int (pos n) (pos 1) ≡ ok (pos n)
prod_int-one n h = ground arith

sub_int_self : (n : ℕ) → n < 2 ^ 31 → sub_int (pos n) (pos n) ≡ ok (pos 0)
sub_int_self n h = ground arith

ceildiv-overflow : (a : ℕ) → 2 ^ 31 ≤ a + 1024 → ceildiv (pos a) (pos pd_t) ≡ fault int_overflow
unfolding ceildiv
ceildiv-overflow a h = ground arith

abbrev pub single_block : ℕ → CodingParams
single_block f = record {
  t = 1024;
  n_srcsym_tot = symbols f;
  n_cb = 1;
  k_large = symbols f;
  n_large = 1;
}

pub accepts : (f : ℕ) → 0 < f → f ≤ max_file → param_deriv (pos f) ≡ ok (single_block f)
unfolding param_deriv
accepts f h k =
    let one : (symbols f + 49999) / 50000 ≡ 1 = omega arith in
    rw (
      ceildiv-t f (omega arith),
      ceildiv-max_k (symbols f) (omega arith),
      one,
      ceildiv-one (symbols f) (omega arith),
      prod_int-one (symbols f) (omega arith),
      sub_int_self (symbols f) (omega arith),
      check_params-single (symbols f) (omega arith) (omega arith),
    )

rejects_large :
    (f : ℕ) → max_file < f → f + 1024 < 2 ^ 31 → param_deriv (pos f) ≡ fault assert_failed
unfolding param_deriv
rejects_large f h k = rw (ceildiv-t f k, ceildiv-max_k (symbols f) (omega arith)) (ground arith)

rejects_neg : (a : ℕ) → a < 2 ^ 31 → param_deriv (negsuc a) ≡ fault assert_failed
unfolding param_deriv
rejects_neg a k =
    rw (ceildiv-neg a k, ceildiv-neg_max_k ((a - 1022) / 1024) (omega arith)) (ground arith)

overflows : (f : ℕ) → 2 ^ 31 ≤ f + 1024 → param_deriv (pos f) ≡ fault int_overflow
unfolding param_deriv
overflows f h = rw (ceildiv-overflow f h)

rejects_zero : param_deriv (pos 0) ≡ fault assert_failed
unfolding param_deriv ceildiv
rejects_zero = refl

-- The parameters of one code block from 1 to `max_file` bytes, else a failed assertion, or an overflow
-- near the end of the range of `int`.
abbrev pub outcome : ℤ → Run CodingParams
outcome (negsuc a) = fault assert_failed
outcome (pos f) =
    if f == 0
    then fault assert_failed
    else if leb f max_file
    then ok (single_block f)
    else if ltb (f + 1024) (2 ^ 31)
    then fault assert_failed
    else fault int_overflow

-- For every file size that an `int` holds, `param_deriv` does what `outcome` says.
pub param_deriv_lem :
    (x : ℤ) → pos_part x < 2 ^ 31 → neg_part x ≤ 2 ^ 31 → param_deriv x ≡ outcome x
param_deriv_lem (negsuc a) h k = rejects_neg a k
param_deriv_lem (pos f) h k = ground (arith, rejects_zero, accepts f, rejects_large f, overflows f)

-- Whenever `param_deriv` returns for a size that an `int` holds: there is one code block of 1 to 50000
-- symbols of 1024 bytes, it holds the file, and the padding is less than one symbol.
pub param_deriv_capacity :
    (x : ℤ) {p : CodingParams}
    → pos_part x < 2 ^ 31
    → neg_part x ≤ 2 ^ 31
    → param_deriv x ≡ ok p
    → (p.t ≡ 1024)
      × (p.n_cb ≡ 1)
      × (p.n_large ≡ 1)
      × (p.n_srcsym_tot ≡ p.k_large)
      × (1 ≤ p.k_large)
      × (p.k_large ≤ pd_max_k)
      × (pos_part x ≤ p.k_large * p.t)
      × (p.k_large * p.t < pos_part x + p.t)
param_deriv_capacity x h k e = ground (arith, param_deriv_lem x)
