-- ===== src/Slab/Shift.antt =====
-- src/slab.h, ceil_pow2: the exponent of the least power of two that is not below a size.
use native.Mathlib.Nat.{pow-suc, pow-zero, pow-le-pow_right, one-le-pow}
use native.Mathlib.Decide.{dec_lt}
use smor.Prelude.{
  ℕ, zero, suc, ◌-◌, ◌*◌, ◌/◌, ◌^◌, ◌≤◌, ◌<◌, ◌≡◌, refl, ◌∙◌, ap, false, arith, done, sub32, ◌==◌,
}
use smor.Slab.{bit_length, ceil_pow2}

lt-pow-bit_length : (fuel n : ℕ) → n < 2 ^ fuel → n < 2 ^ bit_length fuel n
unfolding bit_length
lt-pow-bit_length zero n h = h
lt-pow-bit_length (suc fuel) n h =
    ground
      (arith, pow-suc 2 fuel, pow-suc 2 (bit_length fuel (n / 2)), lt-pow-bit_length fuel (n / 2))

bit_length-zero : (fuel : ℕ) → bit_length fuel 0 ≡ 0
unfolding bit_length
bit_length-zero zero = refl
bit_length-zero (suc fuel) = refl

pow-bit_length-le : (fuel n : ℕ) → 0 < n → n < 2 ^ fuel → 2 ^ bit_length fuel n ≤ 2 * n
unfolding bit_length
pow-bit_length-le zero n pos h = absurd (omega (arith, pow-zero 2))
pow-bit_length-le (suc fuel) n pos h = elim (dec_lt 0 (n / 2)) [
  | yes more ↦ ground (
    arith,
    pow-suc 2 fuel,
    pow-suc 2 (bit_length fuel (n / 2)),
    pow-bit_length-le fuel (n / 2) more,
  )
  | no last ↦
      let half : n / 2 ≡ 0 = omega arith in
      let one : (n == 0) ≡ false = ground arith in rw (one, half, bit_length-zero) (omega arith)
]

-- For every size from 2 to 2 ^ 32 - 1, `ceil_pow2` is the exponent of the least power of two that
-- is not below the size.
pub ceil_pow2_least :
    (x : ℕ) → 2 ≤ x → x < 2 ^ 32 → (k : ℕ) × (ceil_pow2 x ≡ done k) × (x ≤ 2 ^ k) × (2 ^ k < 2 * x)
unfolding ceil_pow2
ceil_pow2_least x low high =
    let less : sub32 x 1 ≡ x - 1 = omega arith in
    let some_bits : (sub32 x 1 == 0) ≡ false = ground arith in
    (
      bit_length 32 (x - 1),
      rw (some_bits, less),
      omega (arith, lt-pow-bit_length 32 (x - 1) (omega arith)),
      omega (arith, pow-bit_length-le 32 (x - 1) (omega arith) (omega arith)),
    )

pow_unique : (j k : ℕ) → 2 ^ k ≤ 2 ^ j → 2 ^ j < 2 * 2 ^ k → j ≡ k
pow_unique j k low high = elim (dec_lt j k) [
  | yes p ↦ absurd (
      omega (
        arith,
        pow-suc 2 j,
        pow-le-pow_right {n = 2} (omega arith) p,
        one-le-pow j 2 (omega arith),
      ))
  | no q ↦ elim (dec_lt k j) [
    | yes p ↦ absurd (omega (arith, pow-suc 2 k, pow-le-pow_right {n = 2} (omega arith) p))
    | no r ↦ omega arith
  ]
]

pub ceil_pow2-pow : (k : ℕ) → 0 < k → k < 32 → ceil_pow2 (2 ^ k) ≡ done k
ceil_pow2-pow k pos lt =
    let (j, e, low, high) =
      ceil_pow2_least (2 ^ k) (omega (arith, pow-le-pow_right {n = 2} (omega arith) pos)) (
        omega (
          arith,
          pow-suc 2 k,
          pow-le-pow_right {n = 2} (omega arith) lt,
          one-le-pow k 2 (omega arith),
        )) in
    e ∙ ap done (pow_unique j k low high)
