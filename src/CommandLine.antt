-- ===== src/CommandLine.antt =====
-- The options of the two programs. What `getopt` returns is a parameter: the letters in order, each with
-- its `optarg`.
use rq_route_demo.Base.{
  ℕ, ◌≡◌, refl, Bool, true, false, List, [], ◌∷◌, Option, none, some, ◌==◌, if◌then◌else◌,
}

-- What one call of `getopt` gives: the letter, or `?`, and `optarg`.
abbrev pub Opt : Type 0
Opt = ℕ × List ℕ

-- The argument of the last option with a letter.
abbrev pub last_arg : ℕ → List Opt → Option (List ℕ)
last_arg c [] = none
last_arg c ((letter, arg) ∷ opts) = elim (last_arg c opts) [
  | some later ↦ some later
  | none ↦ if letter == c then some arg else none
]

-- What an option sets a variable to, or what it was before.
abbrev pub chosen {ℓ} : {A : Type ℓ} → (List ℕ → A) → Option (List ℕ) → A → A
chosen read none before = before
chosen read (some arg) before = read arg

-- One more option in front.
pub chosen-cons {ℓ} :
    {A : Type ℓ} (read : List ℕ → A) (c letter : ℕ) (arg : List ℕ) (opts : List Opt) (before : A)
    → chosen read (last_arg c ((letter, arg) ∷ opts)) before
      ≡ chosen read (last_arg c opts) (if letter == c then read arg else before)
chosen-cons read c letter arg opts before = by_later (last_arg c opts) (letter == c)
  where
    by_later :
        (later : Option (List ℕ)) (same : Bool)
        → chosen read
            (elim later [ some x ↦ some x | none ↦ if same then some arg else none ])
            before
          ≡ chosen read later (if same then read arg else before)
    by_later none true = refl
    by_later none false = refl
    by_later (some x) same = refl
