-- ===== src/Prelude/Bits.antt =====
-- Masks: `x & (2^k - 1)` is `x % 2^k`, and `x | y` is `x + y` for `y` below `2^k` that divides `x`.
use Prim.Native.Nat.{
  ℕ, zero, suc, ◌+◌, ◌-◌, ◌*◌, ◌/◌, ◌%◌, ◌^◌, ◌≤◌, ◌<◌, min, max, bit_and, bit_or, digits,
  bit_and-bitwise, bit_or-bitwise,
}
use mathlib.Core.Path.{◌≡◌, refl, ap}
use mathlib.Core.Logic.{◌≢◌}
use native.Mathlib.Nat.{mul_assoc, mul_comm, pow-suc, pow-zero, one-le-pow}
use native.Mathlib.Omega.{arith}

-- the digit-by-digit conjunction with fuel for `a`
abbrev conj : ℕ → ℕ → ℕ → ℕ
conj fuel a b = digits (λ _. zero) min fuel a b

conj_enough : (f g a b : ℕ) → a ≤ f → a ≤ g → conj f a b ≡ conj g a b
conj_enough zero zero zero b p q = refl
conj_enough zero (suc g) zero b p q = refl
conj_enough (suc f) zero zero b p q = refl
conj_enough (suc f) (suc g) zero b p q = refl
conj_enough zero g (suc a) b p q = absurd (omega arith)
conj_enough (suc f) zero (suc a) b p q = absurd (omega arith)
conj_enough (suc f) (suc g) (suc a) b p q =
    omega (arith, conj_enough f g (suc a / 2) (b / 2) (omega arith) (omega arith))

-- the lowest digit, and the rest
bit_and_digit : (a b : ℕ) → bit_and a b ≡ min (a % 2) (b % 2) + 2 * bit_and (a / 2) (b / 2)
bit_and_digit zero b = omega (arith, bit_and-bitwise 0 b, bit_and-bitwise 0 (b / 2))
bit_and_digit (suc a) b = omega (
  arith,
  bit_and-bitwise (suc a) b,
  bit_and-bitwise (suc a / 2) (b / 2),
  conj_enough (suc a / 2) a (suc a / 2) (b / 2) (omega arith) (omega arith),
)

no_digits : (bound a : ℕ) → a < bound → bit_and a 0 ≡ 0
no_digits zero a h = absurd (omega arith)
no_digits (suc bound) zero h = refl
no_digits (suc bound) (suc a) h =
    omega (arith, bit_and_digit (suc a) 0, no_digits bound (suc a / 2) (omega arith))

half_mod : (a m : ℕ) → 0 < m → a % (2 * m) ≡ a % 2 + 2 * (a / 2 % m)
half_mod a m pos = grind arith

pub bit_and_mask : (k a : ℕ) → bit_and a (2 ^ k - 1) ≡ a % 2 ^ k
bit_and_mask zero a = omega (arith, pow-zero 2, no_digits (a + 1) a (omega arith))
bit_and_mask (suc k) a =
    let positive = one-le-pow k 2 (omega arith) in
    let odd : (2 ^ suc k - 1) % 2 ≡ 1 = omega (arith, pow-suc 2 k) in
    let halved : (2 ^ suc k - 1) / 2 ≡ 2 ^ k - 1 = omega (arith, pow-suc 2 k) in
    let doubled : 2 ^ suc k ≡ 2 * 2 ^ k = omega (arith, pow-suc 2 k) in
    rw (bit_and_digit a (2 ^ suc k - 1), odd, halved, bit_and_mask k (a / 2), doubled)
      (omega (arith, half_mod a (2 ^ k) positive))

-- the digit-by-digit disjunction with fuel for `a`
abbrev disj : ℕ → ℕ → ℕ → ℕ
disj fuel a b = digits (λ c. c) max fuel a b

disj_enough : (f g a b : ℕ) → a ≤ f → a ≤ g → disj f a b ≡ disj g a b
disj_enough zero zero a b p q = refl
disj_enough zero (suc g) zero b p q = refl
disj_enough (suc f) zero zero b p q = refl
disj_enough (suc f) (suc g) zero b p q = refl
disj_enough zero (suc g) (suc a) b p q = absurd (omega arith)
disj_enough (suc f) zero (suc a) b p q = absurd (omega arith)
disj_enough (suc f) (suc g) (suc a) b p q =
    omega (arith, disj_enough f g (suc a / 2) (b / 2) (omega arith) (omega arith))

bit_or_digit : (a b : ℕ) → bit_or a b ≡ max (a % 2) (b % 2) + 2 * bit_or (a / 2) (b / 2)
bit_or_digit zero b = omega (arith, bit_or-bitwise 0 b, bit_or-bitwise 0 (b / 2))
bit_or_digit (suc a) b = omega (
  arith,
  bit_or-bitwise (suc a) b,
  bit_or-bitwise (suc a / 2) (b / 2),
  disj_enough (suc a / 2) a (suc a / 2) (b / 2) (omega arith) (omega arith),
)

nothing_or : (bound a : ℕ) → a < bound → bit_or a 0 ≡ a
nothing_or zero a h = absurd (omega arith)
nothing_or (suc bound) zero h = refl
nothing_or (suc bound) (suc a) h =
    omega (arith, bit_or_digit (suc a) 0, nothing_or bound (suc a / 2) (omega arith))

-- a multiple of `2^k` and a number below it have no digit in common
pub bit_or_add : (k c b : ℕ) → b < 2 ^ k → bit_or (2 ^ k * c) b ≡ 2 ^ k * c + b
bit_or_add zero c b h = ground (arith, pow-zero 2, nothing_or (c + 1) c (omega arith))
bit_or_add (suc k) c b h =
    let doubled : 2 ^ suc k * c ≡ 2 * (2 ^ k * c) =
      rw (pow-suc 2 k, mul_comm (2 ^ k) 2) (mul_assoc 2 (2 ^ k) c) in
    let half : (2 ^ suc k * c) / 2 ≡ 2 ^ k * c = omega (arith, doubled) in
    rw (bit_or_digit (2 ^ suc k * c) b, half, bit_or_add k c (b / 2) (omega (arith, pow-suc 2 k)))
      (omega (arith, doubled))

or_swap : (bound a b : ℕ) → a + b < bound → bit_or a b ≡ bit_or b a
or_swap zero a b h = absurd (omega arith)
or_swap (suc bound) zero zero h = refl
or_swap (suc bound) zero (suc b) h = omega (
  arith,
  bit_or_digit 0 (suc b),
  bit_or_digit (suc b) 0,
  or_swap bound 0 (suc b / 2) (omega arith),
)
or_swap (suc bound) (suc a) b h = omega (
  arith,
  bit_or_digit (suc a) b,
  bit_or_digit b (suc a),
  or_swap bound (suc a / 2) (b / 2) (omega arith),
)

pub bit_or_comm : (a b : ℕ) → bit_or a b ≡ bit_or b a
bit_or_comm a b = or_swap (a + b + 1) a b (omega arith)

-- the digit at `k`
unfoldable pub digit : (a k : ℕ) → ℕ
digit a zero = a % 2
digit a (suc k) = digit (a / 2) k

pub digit-or : (k a b : ℕ) → digit (bit_or a b) k ≡ max (digit a k) (digit b k)
unfolding digit
digit-or zero a b = omega (arith, bit_or_digit a b)
digit-or (suc k) a b =
    let half : bit_or a b / 2 ≡ bit_or (a / 2) (b / 2) = omega (arith, bit_or_digit a b) in
    rw half (digit-or k (a / 2) (b / 2))

digit-zero : (k : ℕ) → digit 0 k ≡ 0
unfolding digit
digit-zero zero = refl
digit-zero (suc k) = digit-zero k

pub digit-pow_same : (k : ℕ) → digit (2 ^ k) k ≡ 1
unfolding digit
digit-pow_same zero = refl
digit-pow_same (suc k) =
    let half : 2 ^ suc k / 2 ≡ 2 ^ k = omega (arith, pow-suc 2 k) in rw half (digit-pow_same k)

pub digit-pow_ne : (k j : ℕ) → j ≢ k → digit (2 ^ j) k ≡ 0
unfolding digit
digit-pow_ne zero zero ne = absurd (ne refl)
digit-pow_ne zero (suc j) ne = omega (arith, pow-suc 2 j)
digit-pow_ne (suc k) zero ne = digit-zero k
digit-pow_ne (suc k) (suc j) ne =
    let half : 2 ^ suc j / 2 ≡ 2 ^ j = omega (arith, pow-suc 2 j) in
    rw half (digit-pow_ne k j (λ e. ne (ap suc e)))

mod_suc : (n a : ℕ) → a % 2 ^ suc n ≡ a % 2 + 2 * (a / 2 % 2 ^ n)
mod_suc n a =
    let doubled : 2 ^ suc n ≡ 2 * 2 ^ n = omega (arith, pow-suc 2 n) in
    rw doubled (half_mod a (2 ^ n) (one-le-pow n 2 (omega arith)))

pub digit-mod : (n k a : ℕ) → k < n → digit (a % 2 ^ n) k ≡ digit a k
unfolding digit
digit-mod zero k a h = absurd (omega arith)
digit-mod (suc n) zero a h = omega (arith, mod_suc n a)
digit-mod (suc n) (suc k) a h =
    let half : a % 2 ^ suc n / 2 ≡ a / 2 % 2 ^ n = omega (arith, mod_suc n a) in
    rw half (digit-mod n k (a / 2) (omega arith))

pub digit_le : (k a : ℕ) → digit a k ≤ 1
unfolding digit
digit_le zero a = omega arith
digit_le (suc k) a = digit_le k (a / 2)

digit-le : (k a : ℕ) → digit a k ≡ 1 → 2 ^ k ≤ a
unfolding digit
digit-le zero a h = omega (arith, h, pow-zero 2)
digit-le (suc k) a h = omega (arith, pow-suc 2 k, digit-le k (a / 2) h)

half_sub : (j a : ℕ) → 2 ^ suc j ≤ a → (a - 2 ^ suc j) / 2 ≡ a / 2 - 2 ^ j
half_sub j a h = omega (arith, pow-suc 2 j, h)

-- a digit 1 that is taken away
pub digit-sub_same : (k a : ℕ) → digit a k ≡ 1 → digit (a - 2 ^ k) k ≡ 0
unfolding digit
digit-sub_same zero a h = omega (arith, h, pow-zero 2)
digit-sub_same (suc k) a h = rw (half_sub k a (digit-le (suc k) a h)) (digit-sub_same k (a / 2) h)

pub digit-sub_ne : (k j a : ℕ) → digit a j ≡ 1 → j ≢ k → digit (a - 2 ^ j) k ≡ digit a k
unfolding digit
digit-sub_ne zero zero a h ne = absurd (ne refl)
digit-sub_ne zero (suc j) a h ne = omega (arith, pow-suc 2 j, digit-le (suc j) a h)
digit-sub_ne (suc k) zero a h ne = let half : (a - 1) / 2 ≡ a / 2 = omega (arith, h) in rw half refl
digit-sub_ne (suc k) (suc j) a h ne =
    rw (half_sub j a (digit-le (suc j) a h)) (digit-sub_ne k j (a / 2) h (λ e. ne (ap suc e)))
