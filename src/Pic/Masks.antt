-- ===== src/Pic/Masks.antt =====
-- src/pic.c: which interrupts the masks let through.
use Prim.Native.Nat.{bit_or}
use smor.Prelude.{
  ℕ, ◌-◌, ◌/◌, ◌%◌, ◌^◌, ◌<◌, ◌≤◌, ◌≡◌, ◌≢◌, ◌⊎◌, inl, inr, refl, ◌==◌, ltb, lt→ltb, ltb→lt, le→ltb,
  Bool, true, false, [], if◌then◌else◌, ◌∷◌, ◌++◌, done, arith, digit, digit-or, digit-mod,
  digit-pow_same, digit-pow_ne, digit-sub_same, digit-sub_ne, digit_le, Bool-cases, eq_of_test,
}
use smor.Pic.{
  Pic, clear_bit, set_bit, slave_irq, master_slave, pic_enable_irq, pic_disable_irq, write_masks,
}

-- The interrupt `k` is let through: its own digit of the mask is 0, and for the second controller's
-- interrupts so is the digit of the input that it is connected to.
unfoldable pub Delivers : (mask k : ℕ) → Type 0
Delivers mask k = (digit mask k ≡ 0) × ((k < slave_irq) ⊎ (digit mask master_slave ≡ 0))

cleared :
    (b : Bool) (mask j k : ℕ)
    → (digit mask j == 1) ≡ b
    → (j == k) ≡ false
    → digit (if b then mask - 2 ^ j else mask) k ≡ digit mask k
cleared true mask j k one ne =
    digit-sub_ne k j mask (eq_of_test (digit mask j) 1 one) (λ e. ground (arith, ne, e))
cleared false mask j k one ne = refl

cleared_same :
    (b : Bool) (mask k : ℕ)
    → (digit mask k == 1) ≡ b
    → digit (if b then mask - 2 ^ k else mask) k ≡ 0
cleared_same true mask k one = digit-sub_same k mask (eq_of_test (digit mask k) 1 one)
cleared_same false mask k zero_digit = ground (arith, zero_digit, digit_le k mask)

clear_bit-digit : (mask j k : ℕ) → digit (clear_bit mask j) k ≡ (if j == k then 0 else digit mask k)
clear_bit-digit mask j k = elim (Bool-cases (j == k)) [
  | inl same ↦
      let e = eq_of_test j k same in rw same (rw e (cleared_same (digit mask k == 1) mask k refl))
  | inr other ↦ rw other (cleared (digit mask j == 1) mask j k refl other)
]

set_bit-digit :
    (mask j k : ℕ) → k < 16 → digit (set_bit mask j) k ≡ (if j == k then 1 else digit mask k)
set_bit-digit mask j k lt =
    let kept = digit-mod 16 k (bit_or mask (2 ^ j)) lt in
    let both = digit-or k mask (2 ^ j) in
    elim (Bool-cases (j == k)) [
      | inl same ↦
          let one : digit (2 ^ j) k ≡ 1 = rw (eq_of_test j k same) (digit-pow_same k) in
          rw same (omega (arith, kept, both, one, digit_le k mask))
      | inr other ↦
          let none = digit-pow_ne k j (λ e. ground (arith, other, e)) in
          rw other (omega (arith, kept, both, none))
    ]

-- the bytes that the two controllers get, the first one's first
pub Writes : (p p' : Pic) → Type 0
Writes p p' =
    p'.outputs
    ≡ (p.outputs ++ ((0x21, p'.irq_mask % 2 ^ 8 % 2 ^ 8) ∷ []))
      ++ ((0xA1, p'.irq_mask / 2 ^ 8 % 2 ^ 8 % 2 ^ 8) ∷ [])

-- `p'` is `p` with the interrupt `irq` let through
pub record Enabled (irq : ℕ) (p p' : Pic) : Type 0 where
  pub written : Writes p p'
  pub delivered : Delivers p'.irq_mask irq
  pub still : (k : ℕ) → Delivers p.irq_mask k → Delivers p'.irq_mask k
  pub others : (k : ℕ) → k ≢ irq → k ≢ master_slave → digit p'.irq_mask k ≡ digit p.irq_mask k

-- For an interrupt of the two controllers, `pic_enable_irq` writes both masks, and then the interrupt
-- is let through, those that were let through still are, and no digit but its own and that of the
-- input between the controllers changes.
pub pic_enable_irq-Enabled :
    (irq : ℕ) (p : Pic)
    → irq < 16
    → (p' : Pic) × (pic_enable_irq irq p ≡ done p') × Enabled irq p p'
unfolding pic_enable_irq Writes Delivers
pic_enable_irq-Enabled irq p lt =
    let mask = clear_bit p.irq_mask irq in
    let all = clear_bit-digit p.irq_mask irq in
    let too = clear_bit-digit mask master_slave in
    elim (Bool-cases (ltb irq slave_irq)) [
      | inl first ↦ (
        write_masks (record p { irq_mask = mask }),
        rw (first, lt→ltb irq 32 (omega arith)) refl,
        record {
          written = refl;
          delivered = (ground (arith, all irq), inl (ltb→lt irq slave_irq first));
          still = λ k d. (
            ground (arith, all k, d.0),
            elim (d.1) [ inl l ↦ inl l | inr z ↦ inr (ground (arith, all master_slave, z)) ],
          );
          others = λ k n1 n2. ground (arith, all k, n1);
        },
      )
      | inr second ↦ (
        write_masks (record p { irq_mask = clear_bit mask master_slave }),
        rw (second, lt→ltb irq 32 (omega arith)) refl,
        record {
          written = refl;
          delivered = (ground (arith, all irq, too irq), inr (ground (arith, too master_slave)));
          still =
              λ k d. (ground (arith, all k, too k, d.0), inr (ground (arith, too master_slave)));
          others = λ k n1 n2. ground (arith, all k, too k, n1, n2);
        },
      )
    ]

-- Disabling an interrupt of the first controller but the input that the second one is connected to
-- takes only that interrupt away.
pub pic_disable_irq-first :
    (irq : ℕ) (p : Pic)
    → irq < slave_irq
    → irq ≢ master_slave
    → (p' : Pic) × (pic_disable_irq irq p ≡ done p')
      × Writes p p'
      × (digit p'.irq_mask irq ≡ 1)
      × ((k : ℕ) → k < 16 → k ≢ irq → digit p'.irq_mask k ≡ digit p.irq_mask k)
unfolding pic_disable_irq Writes
pic_disable_irq-first irq p lt ne =
    let all = set_bit-digit p.irq_mask irq in
    (
      write_masks (record p { irq_mask = set_bit p.irq_mask irq }),
      rw (lt→ltb irq slave_irq lt, lt→ltb irq 32 (omega arith)) refl,
      refl,
      ground (arith, all irq (omega arith)),
      λ k h n. ground (arith, all k h, n),
    )

-- Disabling one interrupt of the second controller also masks the input that it is connected to: no
-- interrupt of the second controller is let through any more.
pub pic_disable_irq-second :
    (irq : ℕ) (p : Pic)
    → slave_irq ≤ irq
    → irq < 16
    → (p' : Pic) × (pic_disable_irq irq p ≡ done p')
      × Writes p p'
      × ((k : ℕ) → slave_irq ≤ k → ¬ Delivers p'.irq_mask k)
unfolding pic_disable_irq Writes Delivers
pic_disable_irq-second irq p ge lt =
    let mask = set_bit p.irq_mask irq in
    let cascade = set_bit-digit mask master_slave master_slave (omega arith) in
    (
      write_masks (record p { irq_mask = set_bit mask master_slave }),
      rw (le→ltb irq slave_irq ge, lt→ltb irq 32 (omega arith)) refl,
      refl,
      λ k h d. elim (d.1) [
        | inl first ↦ omega (arith, first, h)
        | inr let_in ↦ ground (arith, cascade, let_in)
      ],
    )
