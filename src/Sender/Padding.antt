-- ===== src/Sender/Padding.antt =====
-- A file as whole symbols, the last one filled up with zeros.
use rq_route_demo.Base.{
  ℕ, zero, suc, ◌+◌, ◌-◌, ◌*◌, ◌≤◌, ◌≡◌, refl, ap, sym, ◌∙◌, arith, List, [], ◌∷◌, ◌++◌, length,
  length-append, length-replicate, take, replicate, slice, slice-replicate,
}
use rq_route_demo.Params.Exact.{symbols}
use rq_route_demo.CodeBlock.Received.{pad}

-- The file, filled up with zeros to whole symbols.
abbrev pub padded : List ℕ → List ℕ
padded file = file ++ replicate (symbols (length file) * 1024 - length file) 0

pad-take_nil : (n : ℕ) → pad n (take n []) ≡ replicate n 0
pad-take_nil zero = refl
pad-take_nil (suc n) = let all : suc n - 0 ≡ suc n = omega arith in rw all

pad-take :
    (xs : List ℕ) (n m : ℕ) → n ≤ length xs + m → pad n (take n xs) ≡ take n (xs ++ replicate m 0)
pad-take [] n m h = pad-take_nil n ∙ sym (slice-replicate m 0 n 0 (omega arith))
pad-take (x ∷ xs) zero m h = refl
pad-take (x ∷ xs) (suc n) m h =
    let less : suc n - suc (length (take n xs)) ≡ n - length (take n xs) = omega arith in
    rw less (ap (λ l. x ∷ l) (pad-take xs n m (omega arith)))

-- A piece of a file, padded, is a piece of the padded file.
pub pad-slice :
    (xs : List ℕ) (off n m : ℕ)
    → off + n ≤ length xs + m
    → pad n (slice xs off n) ≡ slice (xs ++ replicate m 0) off n
pad-slice xs zero n m h = pad-take xs n m (omega arith)
pad-slice [] (suc off) n m h = pad-take_nil n ∙ sym (slice-replicate m (suc off) n 0 (omega arith))
pad-slice (x ∷ xs) (suc off) n m h = pad-slice xs off n m (omega arith)

pub length-padded : (file : List ℕ) → length (padded file) ≡ symbols (length file) * 1024
length-padded file =
    let n = symbols (length file) * 1024 - length file in
    omega (arith, length-append file (replicate n 0), length-replicate {A = ℕ} n 0)
