-- ===== src/Clock/Carry.antt =====
-- Times are kept with less than a second of nanoseconds.
use rq_route_demo.Base.{
  ℕ, ◌+◌, ◌*◌, ◌-◌, ◌<◌, ◌≡◌, refl, ap, ◌∙◌, arith, true, false, leb, Bool-cases, inl, inr, ok,
  >>=-ok, if◌then◌else◌, ℤ, pos, negsuc, ◌+ℤ◌, ◌-ℤ◌, leb_ℤ, to_int,
}
use rq_route_demo.Clock.{Doubles, Timespec, giga, full_second, carry, add_delta_to}

-- The time of `sec` seconds and `t` nanoseconds, with `c` full seconds of these carried over.
abbrev pub Carried : ℤ → ℕ → Timespec → Type 0
Carried sec t ts =
    (c : ℕ) × (n : ℕ) × (ts.tv_sec ≡ sec +ℤ pos c)
    × (ts.tv_nsec ≡ pos n)
    × (n < giga)
    × (n + c * giga ≡ t)

plus_zero : (a : ℤ) → a ≡ a +ℤ pos 0
plus_zero (pos n) = ground arith
plus_zero (negsuc n) = ground arith

full_second_lem :
    (sec : ℤ) (n : ℕ)
    → n < giga
    → full_second sec (pos n) ≡ ok (record { tv_sec = sec +ℤ pos 1; tv_nsec = pos n })
unfolding full_second
full_second_lem sec n few =
    let small : leb_ℤ (pos giga) (pos n) ≡ false = ground arith in rw small refl

carry_lem :
    (sec : ℤ) (t : ℕ)
    → t < 2 * giga
    → (ts : Timespec) × (carry (record { tv_sec = sec; tv_nsec = pos t }) ≡ ok ts)
      × Carried sec t ts
unfolding carry
carry_lem sec t few = elim (Bool-cases (leb giga t)) [
  | inl more ↦
      let enough : leb_ℤ (pos giga) (pos t) ≡ true = ground arith in
      let left : (pos t -ℤ pos giga) ≡ pos (t - giga) = ground arith in
      (
        record { tv_sec = sec +ℤ pos 1; tv_nsec = pos (t - giga) },
        ap
              (λ c.
                if c
                then full_second sec (pos t -ℤ pos giga)
                else ok (record { tv_sec = sec; tv_nsec = pos t }))
              enough
            ∙ ap (full_second sec) left
            ∙ full_second_lem sec (t - giga) (omega arith),
        (1, t - giga, refl, refl, omega arith, ground arith),
      )
  | inr less ↦
      let fits : leb_ℤ (pos giga) (pos t) ≡ false = ground arith in
      (
        record { tv_sec = sec; tv_nsec = pos t },
        rw fits refl,
        (0, t, plus_zero sec, refl, ground arith, omega arith),
      )
]

module _ {D : Type 0} (double : Doubles D) where
  -- If the whole seconds of `delta` fit in an `int`, and the nanoseconds with those of the rest of `delta`
  -- are computed as an integer from 0 to below two seconds: `add_delta_to` returns, no assertion fails, and
  -- the result has less than a second of nanoseconds, with the full second carried over, if there is one.
  pub add_delta_to-Carried :
      (ts : Timespec) (delta : D) (whole : ℤ) (t : ℕ)
      → to_int (double.floor delta) ≡ ok whole
      → double.truncate (
          double.add
            (double.of_int ts.tv_nsec)
            (double.mul (double.sub delta (double.of_int whole)) (double.of_int (pos giga))))
        ≡ pos t
      → t < 2 * giga
      → (ts' : Timespec) × (add_delta_to double ts delta ≡ ok ts')
        × Carried (ts.tv_sec +ℤ whole) t ts'
  unfolding add_delta_to
  add_delta_to-Carried ts delta whole t fits nsec few =
      let (ts', runs, carried) = carry_lem (ts.tv_sec +ℤ whole) t few in
      (ts', >>=-ok (to_int (double.floor delta)) _ whole fits ∙ rw nsec runs, carried)
