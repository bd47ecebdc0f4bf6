-- ===== src/Base/Update.antt =====
-- Reading an array after a write, with a test in place of the two laws.
use Prim.Native.Nat.{ℕ, ◌<◌}
use mathlib.Core.Path.{◌≡◌}
use mathlib.Core.List.{List}
use mathlib.Core.Option.{some}
use native.Mathlib.Omega.{arith}
use rq_route_demo.Base.Tests.{◌==◌, if◌then◌else◌}
use rq_route_demo.Base.Lists.{length, get_elem?, set, get_elem?-set_self, get_elem?-set_ne}

pub get_elem?-set :
    {A : Type 0} (xs : List A) (i j : ℕ) (v : A)
    → i < length xs
    → get_elem? (set xs i v) j ≡ (if i == j then some v else get_elem? xs j)
get_elem?-set xs i j v h = ground (arith, get_elem?-set_self xs i v, get_elem?-set_ne xs i j v)
