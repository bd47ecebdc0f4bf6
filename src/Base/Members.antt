-- ===== src/Base/Members.antt =====
-- Membership of a number in a list, as a test.
use Prim.Native.Nat.{ℕ, zero, suc}
use mathlib.Core.Path.{◌≡◌, refl}
use mathlib.Core.Bool.{Bool, true, false, ◌||◌}
use mathlib.Core.List.{List, [], ◌∷◌, ◌++◌}
use mathlib.Core.Option.{some}
use native.Mathlib.Omega.{arith}
use rq_route_demo.Base.Tests.{◌==◌}
use rq_route_demo.Base.Lists.{get_elem?}

abbrev pub mem : ℕ → List ℕ → Bool
mem a [] = false
mem a (x ∷ xs) = a == x || mem a xs

pub mem-append : (a : ℕ) (xs ys : List ℕ) → mem a (xs ++ ys) ≡ (mem a xs || mem a ys)
mem-append a [] ys = refl
mem-append a (x ∷ xs) ys = ground (arith, mem-append a xs ys)

pub mem_of_get_elem? : (xs : List ℕ) (i a : ℕ) → get_elem? xs i ≡ some a → mem a xs ≡ true
mem_of_get_elem? [] i a h = cc
mem_of_get_elem? (x ∷ xs) zero a h = ground arith
mem_of_get_elem? (x ∷ xs) (suc i) a h = ground (arith, mem_of_get_elem? xs i a)
