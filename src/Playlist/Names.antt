-- ===== src/Playlist/Names.antt =====
-- The names of a playlist, taken one by one.
use rq_route_demo.Base.{
  subst, ℕ, ◌<◌, ◌≡◌, refl, ap, arith, List, [], ◌∷◌, length, length-append, none, some, Every,
  Bool-cases, inl, inr, ◌⊎◌,
}
use rq_route_demo.Playlist.{newline, hash_sign, starts_with}
use rq_route_demo.Playlist.Lines.{IsLine, print, names, first_name}

-- The first name, what is behind it, and the other names.
pub record Splits (n : ℕ) (ls : List (List ℕ)) : Type 0 where
  pub name : List ℕ
  pub rest : List (List ℕ)
  pub first : first_name ls ≡ some (name, rest)
  pub others : names ls ≡ name ∷ names rest
  pub lines : Every (IsLine n) rest
  pub shorter : length (print rest) < length (print ls)
  pub fewer : length rest < length ls

pub first_name-cases :
    (n : ℕ) (ls : List (List ℕ))
    → Every (IsLine n) ls
    → ((first_name ls ≡ none) × (names ls ≡ [])) ⊎ Splits n ls
first_name-cases n [] v = inl (refl, refl)
first_name-cases n (l ∷ ls) (v, vs) = elim (Bool-cases (starts_with hash_sign l)) [
  | inr name ↦ inr (record {
    name = l;
    rest = ls;
    first = rw name;
    others = rw name;
    lines = vs;
    shorter = omega (arith, length-append l (newline ∷ print ls));
    fewer = omega arith;
  })
  | inl comment ↦ elim (first_name-cases n ls vs) [
    | inl (e, f) ↦ inl (rw comment e, rw comment f)
    | inr s ↦ inr (record {
      name = s.name;
      rest = s.rest;
      first = rw comment s.first;
      others = rw comment s.others;
      lines = s.lines;
      shorter = omega (arith, s.shorter, length-append l (newline ∷ print ls));
      fewer = omega (arith, s.fewer);
    })
  ]
]

-- What holds of all lines holds of the first name and of the lines behind it.
pub first_name-Every :
    (P : List ℕ → Type 0) (ls : List (List ℕ)) {name : List ℕ} {rest : List (List ℕ)}
    → Every P ls
    → first_name ls ≡ some (name, rest)
    → P name × Every P rest
first_name-Every P [] h e = cc
first_name-Every P (l ∷ ls) {name} {rest} (h, hs) e = elim (Bool-cases (starts_with hash_sign l)) [
  | inl comment ↦ first_name-Every P ls hs (rw comment at e)
  | inr other ↦
      let first : some (l, ls) ≡ some (name, rest) = rw other at e in
      (
        subst P (ap (λ o. elim o [ none ↦ l | some p ↦ p.0 ]) first) h,
        subst (Every P) (ap (λ o. elim o [ none ↦ ls | some p ↦ p.1 ]) first) hs,
      )
]
