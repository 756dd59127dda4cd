-- ===== src/Prelude/Lists.antt =====
-- Lists measured and indexed by native numbers, membership as a test, and arrays as functions.
use Prim.Native.Nat.{ℕ, zero, suc, ◌+◌, ◌<◌, ◌≤◌}
use mathlib.Core.Path.{◌≡◌, refl, ap}
use mathlib.Core.Bool.{Bool, true, false, ◌||◌}
use mathlib.Core.List.{List, [], ◌∷◌, ◌++◌, map}
use native.Mathlib.Omega.{arith}
use smor.Prelude.Tests.{◌==◌, if◌then◌else◌}

module _ {ℓ} {A : Type ℓ} where
  abbrev pub length : List A → ℕ
  length [] = 0
  length (x ∷ xs) = suc (length xs)

  abbrev pub get_or : List A → ℕ → A → A
  get_or [] i d = d
  get_or (x ∷ xs) zero d = x
  get_or (x ∷ xs) (suc i) d = get_or xs i d

  pub length-append : (xs ys : List A) → length (xs ++ ys) ≡ length xs + length ys
  length-append [] ys = omega arith
  length-append (x ∷ xs) ys = omega (arith, length-append xs ys)

  -- an array in memory after `a[i] = v`
  abbrev pub update : (ℕ → A) → ℕ → A → ℕ → A
  update f i v j = if j == i then v else f j

  abbrev pub replicate : ℕ → A → List A
  replicate zero a = []
  replicate (suc n) a = a ∷ replicate n a

  pub length-replicate : (n : ℕ) (a : A) → length (replicate n a) ≡ n
  length-replicate zero a = refl
  length-replicate (suc n) a = ap suc (length-replicate n a)

abbrev pub has : ℕ → List ℕ → Bool
has a [] = false
has a (x ∷ xs) = (a == x) || has a xs

-- no number twice
abbrev pub Distinct : List ℕ → Type 0
Distinct [] = Unit
Distinct (x ∷ xs) = (has x xs ≡ false) × Distinct xs

-- i, i + 1, ..., n numbers
abbrev pub range_from : ℕ → ℕ → List ℕ
range_from i zero = []
range_from i (suc n) = i ∷ range_from (i + 1) n

pub length-range_from : (i n : ℕ) → length (range_from i n) ≡ n
length-range_from i zero = refl
length-range_from i (suc n) = ap suc (length-range_from (i + 1) n)

pub has-range_from : (j i n : ℕ) → has j (range_from i n) ≡ true → (i ≤ j) × (j < i + n)
has-range_from j i zero h = ground arith
has-range_from j i (suc n) h = ground (arith, has-range_from j (i + 1) n)

pub range_from-has : (j i n : ℕ) → i ≤ j → j < i + n → has j (range_from i n) ≡ true
range_from-has j i zero p q = absurd (omega arith)
range_from-has j i (suc n) p q = ground (arith, range_from-has j (i + 1) n)

pub not-has-range_from : (j i n : ℕ) → j < i → has j (range_from i n) ≡ false
not-has-range_from j i zero p = refl
not-has-range_from j i (suc n) p = ground (arith, not-has-range_from j (i + 1) n)

pub range_from-Distinct : (i n : ℕ) → Distinct (range_from i n)
range_from-Distinct i zero = tt
range_from-Distinct i (suc n) =
    (not-has-range_from i (i + 1) n (omega arith), range_from-Distinct (i + 1) n)

pub has-append : (a : ℕ) (xs ys : List ℕ) → has a (xs ++ ys) ≡ (has a xs || has a ys)
has-append a [] ys = refl
has-append a (x ∷ xs) ys = ground (arith, has-append a xs ys)

pub has-middle : (a b : ℕ) (xs ys : List ℕ) → has a (xs ++ ys) ≡ true → has a (xs ++ b ∷ ys) ≡ true
has-middle a b xs ys h = ground (arith, has-append a xs ys, has-append a xs (b ∷ ys))

pub Distinct-snoc :
    (xs : List ℕ) (a : ℕ) → Distinct xs → has a xs ≡ false → Distinct (xs ++ (a ∷ []))
Distinct-snoc [] a d out = (refl, tt)
Distinct-snoc (x ∷ xs) a d out =
    (ground (arith, has-append x xs (a ∷ []), d.0), Distinct-snoc xs a (d.1) (ground arith))

module _ {ℓ} {A : Type ℓ} where
  pub append-nil : (xs : List A) → xs ++ [] ≡ xs
  append-nil [] = refl
  append-nil (x ∷ xs) = ap (λ l. x ∷ l) (append-nil xs)

  pub append-snoc : (xs : List A) (a : A) (ys : List A) → (xs ++ (a ∷ [])) ++ ys ≡ xs ++ (a ∷ ys)
  append-snoc [] a ys = refl
  append-snoc (x ∷ xs) a ys = ap (λ l. x ∷ l) (append-snoc xs a ys)

pub length-map {ℓ κ} :
    {A : Type ℓ} {B : Type κ} (xs : List A) (f : A → B) → length (map f xs) ≡ length xs
length-map [] f = refl
length-map (x ∷ xs) f = ap suc (length-map xs f)
