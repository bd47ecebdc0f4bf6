-- ===== src/Base/Faults.antt =====
-- What the C code can do besides returning: `Fault` names each way in which a run goes wrong.
use Prim.Native.Nat.{ℕ, ◌*◌, ◌^◌, ◌<◌}
use mathlib.Core.Path.{◌≡◌, refl, subst}
use mathlib.Core.Bool.{Bool, true, false}
use native.Mathlib.Omega.{arith}
use rq_route_demo.Base.Tests.{ltb, if◌then◌else◌}

-- A failed `assert`, overflow of a signed integer, a division by zero, an access outside an array,
-- a use of a null pointer, a `free` of what is not allocated, a loop that has used up its fuel, and
-- `exit(n)`.
pub data Fault : Type 0 where
  assert_failed int_overflow division_by_zero out_of_bounds null_pointer invalid_free no_fuel :
      Fault
  exits : ℕ → Fault

pub data Run {ℓ} (A : Type ℓ) : Type ℓ where
  ok : A → Run A
  fault : Fault → Run A

infixl 5 ◌>>=◌ ◌>>◌
abbrev pub ◌>>=◌ {ℓ κ} : {A : Type ℓ} → {B : Type κ} → (run : Run A) → (next : A → Run B) → Run B
fault why >>= next = fault why
ok x >>= next = next x

abbrev pub ◌>>◌ {ℓ} : {B : Type ℓ} → Run (Unit {0}) → Run B → Run B
m >> k = m >>= λ _. k

-- `assert(b)`
abbrev pub assert : Bool → Run (Unit {0})
assert true = ok tt
assert false = fault assert_failed

-- The product of two non-negative values of type `int`.
abbrev pub mul_int : ℕ → ℕ → Run ℕ
mul_int a b = if ltb (a * b) (2 ^ 31) then ok (a * b) else fault int_overflow

pub >>=-ok {ℓ κ} :
    {A : Type ℓ} {B : Type κ} (run : Run A) (next : A → Run B) (x : A)
    → run ≡ ok x
    → (run >>= next) ≡ next x
>>=-ok run next x e = rw e

-- Inversion of a successful bind.
pub >>=-eq-ok {ℓ κ} :
    {A : Type ℓ} {B : Type κ} (run : Run A) (next : A → Run B) {b : B}
    → (run >>= next) ≡ ok b
    → (x : A) × (run ≡ ok x) × (next x ≡ ok b)
>>=-eq-ok (fault why) next returns = cc
>>=-eq-ok (ok x) next returns = (x, refl, returns)

pub assert-eq-ok : (b : Bool) {u : Unit {0}} → assert b ≡ ok u → b ≡ true
assert-eq-ok true h = refl
assert-eq-ok false h = cc

pub mul_int-ok : (a b : ℕ) → a * b < 2 ^ 31 → mul_int a b ≡ ok (a * b)
mul_int-ok a b h = ground arith

-- What holds of the result, if there is one.
abbrev pub Whenever {ℓ} : {A : Type ℓ} → (A → Type 0) → Run A → Type 0
Whenever P (fault why) = Unit {0}
Whenever P (ok x) = P x

pub Whenever-bind {ℓ κ} :
    {A : Type ℓ} {B : Type κ} (P : B → Type 0) (run : Run A) (next : A → Run B)
    → ((x : A) → Whenever P (next x))
    → Whenever P (run >>= next)
Whenever-bind P (fault why) next h = tt
Whenever-bind P (ok x) next h = h x

pub Whenever-then {ℓ κ} :
    {A : Type ℓ} {B : Type κ} (Q : A → Type 0) (P : B → Type 0) (run : Run A) (next : A → Run B)
    → Whenever Q run
    → ((x : A) → Q x → Whenever P (next x))
    → Whenever P (run >>= next)
Whenever-then Q P (fault why) next q h = tt
Whenever-then Q P (ok x) next q h = h x q

pub Whenever-ok {ℓ} :
    {A : Type ℓ} (P : A → Type 0) {run : Run A} {x : A} → Whenever P run → run ≡ ok x → P x
Whenever-ok P {run} h e = subst (Whenever P) e h

pub Whenever-if {ℓ} :
    {A : Type ℓ} (P : A → Type 0) (b : Bool) (m n : Run A)
    → Whenever P m
    → Whenever P n
    → Whenever P (if b then m else n)
Whenever-if P true m n h k = h
Whenever-if P false m n h k = k

pub Whenever-imp {ℓ} :
    {A : Type ℓ} (P Q : A → Type 0) (run : Run A)
    → Whenever P run
    → ((x : A) → P x → Q x)
    → Whenever Q run
Whenever-imp P Q (fault why) h f = tt
Whenever-imp P Q (ok x) h f = f x h
