-- ===== src/Clock.antt =====
-- utils/timeutil.c: times, and their differences in seconds. `D` is the type `double`, whose operations
-- are those of the machine, and are given as a record.
pub mod Carry
use rq_route_demo.Base.{
  ℕ, ◌^◌, Bool, true, false, Run, ok, ◌>>=◌, ◌>>◌, assert, if◌then◌else◌, ℤ, pos, ◌+ℤ◌, ◌-ℤ◌, leb_ℤ,
  to_int,
}

pub record Doubles (D : Type 0) : Type 0 where
  -- the conversion of an integer
  pub of_int : ℤ → D
  pub add : D → D → D
  pub sub : D → D → D
  pub mul : D → D → D
  pub div : D → D → D
  pub less : D → D → Bool
  pub less_eq : D → D → Bool
  pub equal : D → D → Bool
  -- the greatest integer below
  pub floor : D → ℤ
  -- the least integer above
  pub ceil : D → ℤ
  -- the conversion to an integer
  pub truncate : D → ℤ

-- `struct timespec`
pub record Timespec : Type 0 where
  pub tv_sec : ℤ
  pub tv_nsec : ℤ

-- 1000000000
abbrev pub giga : ℕ
giga = 10 ^ 9

-- One second more, and the nanoseconds that are left.
pub full_second : ℤ → ℤ → Run Timespec
full_second tv_sec tv_nsec = do
  assert (if leb_ℤ (pos giga) tv_nsec then false else true)
  ok (record { tv_sec = tv_sec +ℤ pos 1; tv_nsec = tv_nsec })

-- The end of `add_delta_to`.
pub carry : Timespec → Run Timespec
unfolding full_second
carry ts =
    if leb_ℤ (pos giga) ts.tv_nsec then full_second ts.tv_sec (ts.tv_nsec -ℤ pos giga) else ok ts

module _ {D : Type 0} (double : Doubles D) where
  -- `get_timespec_from_seconds`
  pub get_timespec_from_seconds : D → Timespec
  get_timespec_from_seconds secs =
      let tv_sec = double.truncate secs in
      record {
        tv_sec = tv_sec;
        tv_nsec =
            double.truncate
              (double.mul (double.sub secs (double.of_int tv_sec)) (double.of_int (pos giga)));
      }

  -- `sleep_frac`: the argument of `nanosleep`.
  pub sleep_frac : D → Timespec
  unfolding get_timespec_from_seconds
  sleep_frac time_sec = get_timespec_from_seconds time_sec

  -- `get_delta_seconds`
  pub get_delta_seconds : Timespec → Timespec → D
  get_delta_seconds a b =
      double.add (double.of_int (a.tv_sec -ℤ b.tv_sec))
        (double.div (double.of_int (a.tv_nsec -ℤ b.tv_nsec)) (double.of_int (pos giga)))

  -- `add_delta_to`
  pub add_delta_to : Timespec → D → Run Timespec
  unfolding carry
  add_delta_to ts delta = do
    delta_int ← to_int (double.floor delta)
    let delta_frac = double.sub delta (double.of_int delta_int)
    let nsec =
        double.add (double.of_int ts.tv_nsec) (double.mul delta_frac (double.of_int (pos giga)))
    carry (record { tv_sec = ts.tv_sec +ℤ delta_int; tv_nsec = double.truncate nsec })
