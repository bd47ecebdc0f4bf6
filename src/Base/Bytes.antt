-- ===== src/Base/Bytes.antt =====
-- Blocks of memory as lists of bytes: `memcpy`, `memset` and reading a range.
use Prim.Native.Nat.{ℕ, zero, suc, ◌+◌, ◌*◌, ◌≤◌, ◌<◌}
use mathlib.Core.Path.{◌≡◌, refl, ap, ◌∙◌}
use mathlib.Core.List.{List, [], ◌∷◌, ◌++◌}
use mathlib.Core.Bool.{true}
use native.Mathlib.Omega.{arith}
use rq_route_demo.Base.Tests.{leb, ◌==◌, if◌then◌else◌}
use rq_route_demo.Base.Lists.{
  length, take, drop, replicate, length-take, length-drop, length-append, take-append, drop-append,
}
use rq_route_demo.Base.Faults.{Run, ok, fault, out_of_bounds}

-- The string that stands in an array: the bytes before the first NUL.
abbrev pub c_str : List ℕ → List ℕ
c_str [] = []
c_str (c ∷ cs) = let rest = c_str cs in if c == 0 then [] else c ∷ rest

-- `src` written over `buf` from offset `off`; what does not fit is dropped.
pub blit : List ℕ → ℕ → List ℕ → List ℕ
blit [] off src = []
blit (b ∷ buf) (suc off) src = b ∷ blit buf off src
blit (b ∷ buf) zero [] = b ∷ buf
blit (b ∷ buf) zero (x ∷ src) = x ∷ blit buf zero src

-- `len` bytes of `buf` from offset `off`
abbrev pub slice : List ℕ → ℕ → ℕ → List ℕ
slice buf off len = take len (drop off buf)

-- `memcpy(buf + off, src, length src)`
abbrev pub memcpy : List ℕ → ℕ → List ℕ → Run (List ℕ)
memcpy buf off src =
    if leb (off + length src) (length buf) then ok (blit buf off src) else fault out_of_bounds

-- The source of a `memcpy`: `n` bytes from `buf + off`.
abbrev pub read_bytes : List ℕ → ℕ → ℕ → Run (List ℕ)
read_bytes buf off n =
    if leb (off + n) (length buf) then ok (slice buf off n) else fault out_of_bounds

pub memcpy-ok :
    (buf : List ℕ) (off : ℕ) (src : List ℕ)
    → off + length src ≤ length buf
    → memcpy buf off src ≡ ok (blit buf off src)
memcpy-ok buf off src h = ground arith

pub length-blit : (buf : List ℕ) (off : ℕ) (src : List ℕ) → length (blit buf off src) ≡ length buf
unfolding blit
length-blit [] off src = refl
length-blit (b ∷ buf) (suc off) src = ap suc (length-blit buf off src)
length-blit (b ∷ buf) zero [] = refl
length-blit (b ∷ buf) zero (x ∷ src) = ap suc (length-blit buf zero src)

blit-nil : (buf : List ℕ) → blit buf 0 [] ≡ buf
unfolding blit
blit-nil [] = refl
blit-nil (b ∷ buf) = refl

-- The bytes just written.
pub slice-blit_self :
    (buf : List ℕ) (off : ℕ) (src : List ℕ)
    → off + length src ≤ length buf
    → slice (blit buf off src) off (length src) ≡ src
unfolding blit
slice-blit_self [] zero [] h = refl
slice-blit_self [] zero (x ∷ src) h = absurd (omega arith)
slice-blit_self [] (suc off) src h = absurd (omega arith)
slice-blit_self (b ∷ buf) (suc off) src h = slice-blit_self buf off src (omega arith)
slice-blit_self (b ∷ buf) zero [] h = refl
slice-blit_self (b ∷ buf) zero (x ∷ src) h =
    ap (λ l. x ∷ l) (slice-blit_self buf zero src (omega arith))

-- Bytes before the range that is written stay.
pub slice-blit_before :
    (buf : List ℕ) (off : ℕ) (src : List ℕ) (i n : ℕ)
    → i + n ≤ off
    → slice (blit buf off src) i n ≡ slice buf i n
unfolding blit
slice-blit_before buf off src i zero h = refl
slice-blit_before [] off src i (suc n) h = refl
slice-blit_before (b ∷ buf) (suc off) src zero (suc n) h =
    ap (λ l. b ∷ l) (slice-blit_before buf off src zero n (omega arith))
slice-blit_before (b ∷ buf) (suc off) src (suc i) (suc n) h =
    slice-blit_before buf off src i (suc n) (omega arith)
slice-blit_before (b ∷ buf) zero src i (suc n) h = absurd (omega arith)

-- Bytes behind the range that is written stay.
pub slice-blit_after :
    (buf : List ℕ) (off : ℕ) (src : List ℕ) (i n : ℕ)
    → off + length src ≤ i
    → slice (blit buf off src) i n ≡ slice buf i n
unfolding blit
slice-blit_after [] off src i n h = refl
slice-blit_after (b ∷ buf) (suc off) src zero n h = absurd (omega arith)
slice-blit_after (b ∷ buf) (suc off) src (suc i) n h =
    slice-blit_after buf off src i n (omega arith)
slice-blit_after (b ∷ buf) zero [] i n h = refl
slice-blit_after (b ∷ buf) zero (x ∷ src) zero n h = absurd (omega arith)
slice-blit_after (b ∷ buf) zero (x ∷ src) (suc i) n h =
    slice-blit_after buf zero src i n (omega arith)

pub length-slice : (buf : List ℕ) (off n : ℕ) → off + n ≤ length buf → length (slice buf off n) ≡ n
length-slice buf off n h = omega (arith, length-take n (drop off buf), length-drop off buf)

-- Two writes, one behind the other, are one write.
pub blit-blit :
    (buf : List ℕ) (off : ℕ) (xs ys : List ℕ) (behind : ℕ)
    → behind ≡ off + length xs
    → blit (blit buf off xs) behind ys ≡ blit buf off (xs ++ ys)
unfolding blit
blit-blit [] off xs ys behind e = refl
blit-blit (b ∷ buf) (suc off) xs ys zero e = absurd (omega arith)
blit-blit (b ∷ buf) (suc off) xs ys (suc behind) e =
    ap (λ l. b ∷ l) (blit-blit buf off xs ys behind (omega arith))
blit-blit (b ∷ buf) zero [] ys behind e = let here : behind ≡ 0 = omega arith in rw here
blit-blit (b ∷ buf) zero (x ∷ xs) ys zero e = absurd (omega arith)
blit-blit (b ∷ buf) zero (x ∷ xs) ys (suc behind) e =
    ap (λ l. x ∷ l) (blit-blit buf zero xs ys behind (omega arith))

-- What was written from the start of a block on.
pub slice-blit_within :
    (buf src : List ℕ) (i n : ℕ)
    → length src ≤ length buf
    → i + n ≤ length src
    → slice (blit buf 0 src) i n ≡ slice src i n
unfolding blit
slice-blit_within buf src i zero h k = refl
slice-blit_within [] [] i (suc n) h k = absurd (omega arith)
slice-blit_within [] (x ∷ src) i (suc n) h k = absurd (omega arith)
slice-blit_within (b ∷ buf) [] i (suc n) h k = absurd (omega arith)
slice-blit_within (b ∷ buf) (x ∷ src) zero (suc n) h k =
    ap (λ l. x ∷ l) (slice-blit_within buf src zero n (omega arith) (omega arith))
slice-blit_within (b ∷ buf) (x ∷ src) (suc i) (suc n) h k =
    slice-blit_within buf src i (suc n) (omega arith) (omega arith)

pub slice-replicate : (m i n x : ℕ) → i + n ≤ m → slice (replicate m x) i n ≡ replicate n x
slice-replicate m i zero x h = refl
slice-replicate zero i (suc n) x h = absurd (omega arith)
slice-replicate (suc m) zero (suc n) x h =
    ap (λ l. x ∷ l) (slice-replicate m zero n x (omega arith))
slice-replicate (suc m) (suc i) (suc n) x h = slice-replicate m i (suc n) x (omega arith)

pub take-add : (xs : List ℕ) (a b : ℕ) → take (a + b) xs ≡ take a xs ++ slice xs a b
take-add xs zero b = let e : 0 + b ≡ b = omega arith in rw e
take-add [] (suc a) zero = let e : suc a + 0 ≡ suc a = omega arith in rw e
take-add [] (suc a) (suc b) = let e : suc a + suc b ≡ suc (a + suc b) = omega arith in rw e
take-add (x ∷ xs) (suc a) b =
    let e : suc a + b ≡ suc (a + b) = omega arith in rw e (ap (λ l. x ∷ l) (take-add xs a b))

-- Two blocks whose pieces of `t` bytes agree.
pub take_of_slices :
    (xs ys : List ℕ) (k t : ℕ)
    → ((i : ℕ) → i < k → slice xs (i * t) t ≡ slice ys (i * t) t)
    → take (k * t) xs ≡ take (k * t) ys
take_of_slices xs ys zero t h = let e : 0 * t ≡ 0 = omega arith in rw e
take_of_slices xs ys (suc k) t h =
    let e : suc k * t ≡ k * t + t = omega arith in
    rw (
      e,
      take-add xs (k * t) t,
      take-add ys (k * t) t,
      take_of_slices xs ys k t (λ i lt. h i (omega arith)),
      h k (omega arith),
    )

pub take_all : (xs : List ℕ) (n : ℕ) → length xs ≤ n → take n xs ≡ xs
take_all [] zero h = refl
take_all [] (suc n) h = refl
take_all (x ∷ xs) zero h = absurd (omega arith)
take_all (x ∷ xs) (suc n) h = ap (λ l. x ∷ l) (take_all xs n (omega arith))

take-nil : (n : ℕ) → take {A = ℕ} n [] ≡ []
take-nil zero = refl
take-nil (suc n) = refl

-- A range read in two pieces.
pub slice-add :
    (buf : List ℕ) (off a b : ℕ) → slice buf off (a + b) ≡ slice buf off a ++ slice buf (off + a) b
slice-add buf zero a b = let e : 0 + a ≡ a = omega arith in rw e (take-add buf a b)
slice-add [] (suc off) a b =
    let e : suc off + a ≡ suc (off + a) = omega arith in
    rw (e, take-nil a, take-nil b, take-nil (a + b))
slice-add (x ∷ buf) (suc off) a b =
    let e : suc off + a ≡ suc (off + a) = omega arith in rw e (slice-add buf off a b)

-- A write over the bytes behind `xs`.
pub blit-append : (xs ys src : List ℕ) → blit (xs ++ ys) (length xs) src ≡ xs ++ blit ys 0 src
unfolding blit
blit-append [] ys src = refl
blit-append (x ∷ xs) ys src = ap (λ l. x ∷ l) (blit-append xs ys src)

pub blit_covers :
    (ys src : List ℕ) → length src ≤ length ys → blit ys 0 src ≡ src ++ drop (length src) ys
unfolding blit
blit_covers [] [] h = refl
blit_covers [] (x ∷ src) h = absurd (omega arith)
blit_covers (y ∷ ys) [] h = refl
blit_covers (y ∷ ys) (x ∷ src) h = ap (λ l. x ∷ l) (blit_covers ys src (omega arith))

pub memcpy-append :
    (xs ys src : List ℕ)
    → length src ≤ length ys
    → memcpy (xs ++ ys) (length xs) src ≡ ok (xs ++ (src ++ drop (length src) ys))
memcpy-append xs ys src h =
    memcpy-ok (xs ++ ys) (length xs) src (omega (arith, length-append xs ys))
    ∙ ap ok (blit-append xs ys src ∙ ap (λ l. xs ++ l) (blit_covers ys src h))

pub read_bytes-append :
    (xs ys zs : List ℕ) → read_bytes (xs ++ (ys ++ zs)) (length xs) (length ys) ≡ ok ys
read_bytes-append xs ys zs =
    let inside : leb (length xs + length ys) (length (xs ++ (ys ++ zs))) ≡ true =
      ground (arith, length-append xs (ys ++ zs), length-append ys zs) in
    rw inside
      (ap (λ l. ok (take (length ys) l)) (drop-append xs (ys ++ zs)) ∙ ap ok (take-append ys zs))
