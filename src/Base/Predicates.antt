-- ===== src/Base/Predicates.antt =====
-- A predicate on all elements of a list, and membership with the place kept.
use mathlib.Core.Path.{◌≡◌, sym, subst}
use mathlib.Core.Logic.{◌⊎◌, inl, inr}
use mathlib.Core.List.{List, [], ◌∷◌, ◌++◌}

module _ {A : Type 0} where
  abbrev pub Every : (A → Type 0) → List A → Type 0
  Every P [] = Unit {0}
  Every P (x ∷ xs) = P x × Every P xs

  abbrev pub Has : A → List A → Type 0
  Has a [] = ⊥
  Has a (x ∷ xs) = (a ≡ x) ⊎ Has a xs

  pub Every-append :
      (P : A → Type 0) (xs ys : List A) → Every P xs → Every P ys → Every P (xs ++ ys)
  Every-append P [] ys p q = q
  Every-append P (x ∷ xs) ys p q = (p.0, Every-append P xs ys p.1 q)

  pub Every-Has : (P : A → Type 0) (a : A) (xs : List A) → Every P xs → Has a xs → P a
  Every-Has P a [] p h = absurd h
  Every-Has P a (x ∷ xs) p (inl e) = subst P (sym e) p.0
  Every-Has P a (x ∷ xs) p (inr h) = Every-Has P a xs p.1 h

  pub Every-imp : (P Q : A → Type 0) (xs : List A) → ((a : A) → P a → Q a) → Every P xs → Every Q xs
  Every-imp P Q [] f p = tt
  Every-imp P Q (x ∷ xs) f p = (f x p.0, Every-imp P Q xs f p.1)
