-- ===== src/Printf/Decimal.antt =====
-- src/vsprintf.c: number and skip_atoi undo one another.
use native.Mathlib.Nat.{mod-lt, pow-suc}
use smor.Prelude.{
  ℕ, zero, suc, ◌+◌, ◌-◌, ◌*◌, ◌/◌, ◌%◌, ◌^◌, ◌≤◌, ◌<◌, ◌≡◌, refl, ap, ◌∙◌, arith, true, false,
  Bool-cases, inl, inr, ◌==◌, ltb, lt→ltb, le→ltb, if◌then◌else◌, List, [], ◌∷◌, length, append-nil,
  done,
}
use smor.Printf.{no_flags, is_digit, digit, skip_atoi, number_digits, reversed, number}

skip_digit :
    (i d : ℕ) (s : List ℕ)
    → d < 10
    → i * 10 + d + 48 < 2 ^ 31
    → skip_atoi i (digit false d ∷ s) ≡ skip_atoi (i * 10 + d) s
unfolding skip_atoi
skip_digit i d s h fits =
    let small : ltb d 10 ≡ true = ground arith in
    let is : is_digit (48 + d) ≡ true = ground arith in
    let value : i * 10 + (48 + d) - 48 ≡ i * 10 + d = omega arith in
    let sum : ltb (i * 10 + (48 + d)) (2 ^ 31) ≡ true = lt→ltb _ _ (omega arith) in
    rw (small, is, sum, value) refl

skip_atoi-reversed :
    (fuel num : ℕ) (s : List ℕ)
    → num < 10 ^ fuel
    → num + 48 < 2 ^ 31
    → skip_atoi 0 (reversed (number_digits fuel false num 10) s) ≡ skip_atoi num s
unfolding skip_atoi reversed number_digits
skip_atoi-reversed zero num s h fits = ap (λ n. skip_atoi n s) (omega arith)
skip_atoi-reversed (suc fuel) num s h fits = elim (Bool-cases (num == 0)) [
  | inl none ↦ let e : num ≡ 0 = ground (arith, none) in rw (none, e) refl
  | inr more ↦
      let step : skip_atoi (num / 10) (digit false (num % 10) ∷ s) ≡ skip_atoi num s =
        skip_digit (num / 10) (num % 10) s (mod-lt num {m = 10} (omega arith)) (omega (arith, fits))
        ∙ ap (λ n. skip_atoi n s) (omega arith) in
      rw more (
        skip_atoi-reversed fuel (num / 10) (digit false (num % 10) ∷ s)
          (omega (arith, pow-suc 10 fuel)) (omega (arith, fits))
        ∙ step)
]

length-number_digits :
    (fuel k num : ℕ) → num < 10 ^ k → length (number_digits fuel false num 10) ≤ k
unfolding number_digits
length-number_digits zero k num h = omega arith
length-number_digits (suc fuel) zero num h =
    let none : (num == 0) ≡ true = ground arith in rw none (omega arith)
length-number_digits (suc fuel) (suc k) num h = elim (Bool-cases (num == 0)) [
  | inl none ↦ rw none (omega arith)
  | inr more ↦
      rw more (omega (arith, length-number_digits fuel k (num / 10) (omega (arith, pow-suc 10 k))))
]

-- the digits that `number` stores in `tmp`
abbrev tmp_of : ℕ → List ℕ
tmp_of num = if num == 0 then 48 ∷ [] else number_digits 64 false num 10

tmp_of-length : (num : ℕ) → num < 2 ^ 64 → length (tmp_of num) ≤ 20
tmp_of-length num h = elim (Bool-cases (num == 0)) [
  | inl none ↦ rw none (omega arith)
  | inr more ↦ rw more (length-number_digits 64 20 num (omega arith))
]

skip_atoi-tmp_of :
    (num : ℕ) → num + 48 < 2 ^ 31 → skip_atoi 0 (reversed (tmp_of num) []) ≡ done (num, [])
unfolding skip_atoi reversed
skip_atoi-tmp_of num h = elim (Bool-cases (num == 0)) [
  | inl none ↦ rw none (ap (λ n. done (n, [])) (ground (arith, none)))
  | inr more ↦ rw more (skip_atoi-reversed 64 num [] (omega arith) h)
]

all_digits : (n : ℕ) → (if ltb 0 n then n else 0) ≡ n
all_digits n = ground arith

plain_text : (num : ℕ) → num < 2 ^ 64 → number num 10 0 0 no_flags ≡ done (reversed (tmp_of num) [])
unfolding number
plain_text num h =
    let short : ltb 36 (length (tmp_of num)) ≡ false =
      le→ltb 36 (length (tmp_of num)) (omega (arith, tmp_of-length num h)) in
    let digits : (if ltb 0 (length (tmp_of num)) then length (tmp_of num) else 0)
        ≡ length (tmp_of num) =
      all_digits (length (tmp_of num)) in
    let pad : 0 - 0 - 0 - length (tmp_of num) ≡ 0 = omega arith in
    let zeros : length (tmp_of num) - length (tmp_of num) ≡ 0 = omega arith in
    rw (digits, pad, zeros, short) (ap done (append-nil (reversed (tmp_of num) [])))

-- For every number below 2 ^ 31 - 48, `number` with base 10 and no flag, width or precision returns a
-- text, and `skip_atoi` reads the number back from it, to the text's end, without an overflow.
pub skip_atoi-number :
    (num : ℕ)
    → num + 48 < 2 ^ 31
    → (s : List ℕ) × (number num 10 0 0 no_flags ≡ done s) × (skip_atoi 0 s ≡ done (num, []))
skip_atoi-number num h =
    (reversed (tmp_of num) [], plain_text num (omega (arith, h)), skip_atoi-tmp_of num h)
