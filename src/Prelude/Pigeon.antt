-- ===== src/Prelude/Pigeon.antt =====
-- A list of distinct numbers below `n` has at most `n` of them.
use Prim.Native.Nat.{ℕ, zero, suc, ◌+◌, ◌<◌, ◌≤◌}
use mathlib.Core.Path.{◌≡◌, refl, ap}
use mathlib.Core.Logic.{◌≢◌, inl, inr}
use mathlib.Core.Bool.{true, false}
use mathlib.Core.List.{List, [], ◌∷◌, ◌++◌}
use native.Mathlib.Omega.{arith}
use smor.Prelude.Tests.{◌==◌, if◌then◌else◌, Bool-cases}
use smor.Prelude.Lists.{
  length, has, Distinct, has-append, range_from, has-range_from, range_from-Distinct,
  length-range_from, length-append,
}

-- the list without its first `a`
abbrev pub erase : ℕ → List ℕ → List ℕ
erase a [] = []
erase a (x ∷ xs) = if x == a then xs else x ∷ erase a xs

length-erase : (a : ℕ) (xs : List ℕ) → length xs ≤ length (erase a xs) + 1
length-erase a [] = omega arith
length-erase a (x ∷ xs) = ground (arith, length-erase a xs)

has-of-erase : (j a : ℕ) (xs : List ℕ) → has j xs ≡ false → has j (erase a xs) ≡ false
has-of-erase j a [] h = refl
has-of-erase j a (x ∷ xs) h = ground (arith, has-of-erase j a xs)

pub has-erase :
    (j a : ℕ) (xs : List ℕ) → Distinct xs → has j (erase a xs) ≡ true → (has j xs ≡ true) × (j ≢ a)
has-erase j a [] d h = ground arith
has-erase j a (x ∷ xs) d h = ground (arith, has-erase j a xs d.1)

pub erase-Distinct : (a : ℕ) (xs : List ℕ) → Distinct xs → Distinct (erase a xs)
erase-Distinct a [] d = tt
erase-Distinct a (x ∷ xs) d = ground (arith, erase-Distinct a xs d.1, has-of-erase x a xs d.0)

pub length-erase_of_has :
    (a : ℕ) (xs : List ℕ) → has a xs ≡ true → length (erase a xs) + 1 ≡ length xs
length-erase_of_has a [] h = absurd (ground arith)
length-erase_of_has a (x ∷ xs) h = ground (arith, length-erase_of_has a xs)

pub length-le_of_Distinct :
    (n : ℕ) (xs : List ℕ) → Distinct xs → ((j : ℕ) → has j xs ≡ true → j < n) → length xs ≤ n
length-le_of_Distinct n [] d h = omega arith
length-le_of_Distinct zero (x ∷ xs) d h = absurd (ground (arith, h x))
length-le_of_Distinct (suc n) (x ∷ xs) d h = omega (
  arith,
  length-erase n (x ∷ xs),
  length-le_of_Distinct n (erase n (x ∷ xs)) (erase-Distinct n (x ∷ xs) d)
      (λ j i. ground (arith, has-erase j n (x ∷ xs) d i, h j)),
)

pub eq_of_test : (a b : ℕ) → (a == b) ≡ true → a ≡ b
eq_of_test a b h = ground arith

-- a number of a list stands somewhere in it
pub has-split :
    (a : ℕ) (xs : List ℕ)
    → has a xs ≡ true
    → (ys zs : List ℕ) × (xs ≡ ys ++ a ∷ zs) × (erase a xs ≡ ys ++ zs)
has-split a [] h = absurd (ground arith)
has-split a (x ∷ xs) h = elim (Bool-cases (x == a)) [
  | inl here ↦ ([], xs, ap (λ y. y ∷ xs) (eq_of_test x a here), rw here refl)
  | inr later ↦
      let (ys, zs, e, f) = has-split a xs (ground (arith, later)) in
      (x ∷ ys, zs, ap (λ l. x ∷ l) e, rw later (ap (λ l. x ∷ l) f))
]

pub has-erase_ne : (j a : ℕ) (xs : List ℕ) → j ≢ a → has j (erase a xs) ≡ has j xs
has-erase_ne j a [] ne = refl
has-erase_ne j a (x ∷ xs) ne = ground (arith, has-erase_ne j a xs)

pub append-Distinct :
    (xs ys : List ℕ)
    → Distinct xs
    → Distinct ys
    → ((j : ℕ) → has j xs ≡ true → has j ys ≡ false)
    → Distinct (xs ++ ys)
append-Distinct [] ys d e apart = e
append-Distinct (x ∷ xs) ys d e apart = (
  ground (arith, has-append x xs ys, d.0, apart x),
  append-Distinct xs ys (d.1) e (λ j h. ground (arith, apart j)),
)

-- distinct numbers from `lo` up to `n`
pub length-le_of_range :
    (lo n : ℕ) (xs : List ℕ)
    → lo ≤ n
    → Distinct xs
    → ((j : ℕ) → has j xs ≡ true → (lo ≤ j) × (j < n))
    → length xs + lo ≤ n
length-le_of_range lo n xs le d inside =
    let small = range_from 0 lo in
    let away : (j : ℕ) → has j xs ≡ true → has j small ≡ false =
      λ j h. ground (arith, inside j, has-range_from j 0 lo) in
    let all =
      length-le_of_Distinct n (xs ++ small)
        (append-Distinct xs small d (range_from-Distinct 0 lo) away)
        (λ j h. ground (arith, has-append j xs small, inside j, has-range_from j 0 lo)) in
    omega (arith, all, length-append {0} xs small, length-range_from 0 lo)
