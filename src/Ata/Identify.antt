-- ===== src/Ata/Identify.antt =====
-- src/ata.c: the identification of a disk.
use Prim.Native.Nat.{bit_or}
use smor.Prelude.{
  ℕ, zero, suc, ◌+◌, ◌*◌, ◌/◌, ◌%◌, ◌^◌, ◌<◌, ◌≡◌, refl, ◌∙◌, ap, inl, inr, Bool, true, false, not,
  ◌&&◌, ◌||◌, ◌==◌, if◌then◌else◌, none, Outcome, done, arith, bit_or_add, Bool-cases,
}
use native.Mathlib.Nat.{mul_comm}
use smor.Ata.{
  Ports, ata_primary_io, has_bit, ata_id_u64, read_byte, await_ident, ask_ident, identify,
}

-- the words of a number, the lowest first
unfoldable pub IsWords : (id : ℕ → ℕ) → (n value : ℕ) → Type 0
IsWords id n value =
    (id n ≡ value % 2 ^ 16)
    × (id (n + 1) ≡ value / 2 ^ 16 % 2 ^ 16)
    × (id (n + 2) ≡ value / 2 ^ 32 % 2 ^ 16)
    × (id (n + 3) ≡ value / 2 ^ 48 % 2 ^ 16)

or_add : (k c b : ℕ) → b < 2 ^ k → bit_or (c * 2 ^ k) b ≡ c * 2 ^ k + b
or_add k c b lt = rw (mul_comm c (2 ^ k)) (bit_or_add k c b lt)

-- A number of 64 bits is read back from its words.
pub ata_id_u64-words :
    (id : ℕ → ℕ) (n value : ℕ) → value < 2 ^ 64 → IsWords id n value → ata_id_u64 id n ≡ value
unfolding ata_id_u64 IsWords
ata_id_u64-words id n value lt (w0, w1, w2, w3) =
    let top = or_add 48 (id (n + 3)) (id (n + 2) * 2 ^ 32) (omega (arith, w2)) in
    let mid : bit_or (id (n + 3) * 2 ^ 48 + id (n + 2) * 2 ^ 32) (id (n + 1) * 2 ^ 16)
        ≡ id (n + 3) * 2 ^ 48 + id (n + 2) * 2 ^ 32 + id (n + 1) * 2 ^ 16 =
      ap (λ x. bit_or x (id (n + 1) * 2 ^ 16)) (omega arith)
      ∙ or_add 32 (id (n + 3) * 2 ^ 16 + id (n + 2)) (id (n + 1) * 2 ^ 16) (omega (arith, w1))
      ∙ omega arith in
    let low : bit_or (id (n + 3) * 2 ^ 48 + id (n + 2) * 2 ^ 32 + id (n + 1) * 2 ^ 16) (id n)
        ≡ id (n + 3) * 2 ^ 48 + id (n + 2) * 2 ^ 32 + id (n + 1) * 2 ^ 16 + id n =
      ap (λ x. bit_or x (id n)) (omega arith)
      ∙ or_add 16 (id (n + 3) * 2 ^ 32 + id (n + 2) * 2 ^ 16 + id (n + 1)) (id n)
          (omega (arith, w0))
      ∙ omega arith in
    rw (top, mid, low) (omega (arith, w0, w1, w2, w3))

-- one round of the loop that waits, by what the status says
stops :
    {S : Type 0} (e b d : Bool) (s1 : S) (rest : Outcome (Bool × S))
    → (e || (not b && d)) ≡ true
    → (if e then done (true, s1) else (if not b && d then done (false, s1) else rest))
      ≡ done (e, s1)
stops e b d s1 rest h = ground arith

goes_on :
    {S : Type 0} (e b d : Bool) (s1 : S) (rest : Outcome (Bool × S))
    → (e || (not b && d)) ≡ false
    → (if e then done (true, s1) else (if not b && d then done (false, s1) else rest)) ≡ rest
goes_on e b d s1 rest h = ground arith

-- an error, or data without being busy
abbrev pub answers : (status : ℕ) → Bool
answers status = has_bit status 0 || (not (has_bit status 7) && has_bit status 3)

module _ {S : Type 0} (p : Ports S) where
  -- the state and the status after `n` more reads of the status
  unfoldable pub polled : ℕ → S → S
  polled zero s = s
  polled (suc n) s = polled n (read_byte p 7 s).1

  unfoldable pub status_at : ℕ → S → ℕ
  status_at n s = (read_byte p 7 (polled n s)).0

  await_ident-first :
      (n fuel : ℕ) (s : S)
      → n < fuel
      → ((i : ℕ) → i < n → answers (status_at i s) ≡ false)
      → answers (status_at n s) ≡ true
      → await_ident p fuel s ≡ done (has_bit (status_at n s) 0, polled (suc n) s)
  unfolding await_ident polled status_at
  await_ident-first n zero s lt before now = absurd (omega (arith, lt))
  await_ident-first zero (suc fuel) s lt before now =
      let status = (read_byte p 7 s).0 in
      stops (has_bit status 0) (has_bit status 7) (has_bit status 3) (read_byte p 7 s).1 _ now
  await_ident-first (suc n) (suc fuel) s lt before now =
      let (status, s1) = read_byte p 7 s in
      goes_on (has_bit status 0) (has_bit status 7) (has_bit status 3) s1 (await_ident p fuel s1)
        (before 0 (omega arith))
      ∙ await_ident-first n fuel s1 (omega (arith, lt)) (λ i h. before (suc i) (omega (arith, h)))
          now

  -- the word that the data port gives after `n` others
  unfoldable pub after_words : ℕ → S → S
  after_words zero s = s
  after_words (suc n) s = after_words n (p.inw ata_primary_io s).1

  -- If the first answer is an error, or there is no disk, `identify` ends without an identification.
  pub identify-none :
      (n fuel : ℕ) (s : S)
      → n < fuel
      → ((i : ℕ) → i < n → answers (status_at i (read_byte p 7 (ask_ident p s)).1) ≡ false)
      → has_bit (status_at n (read_byte p 7 (ask_ident p s)).1) 0 ≡ true
      → (s' : S) × (identify p fuel s ≡ done (true, none, s'))
  unfolding identify
  identify-none n fuel s lt before failed =
      let (status, s1) = read_byte p 7 (ask_ident p s) in
      let now : answers (status_at n s1) ≡ true = rw failed refl in
      elim (Bool-cases (status == 0)) [
        | inl absent ↦ (s1, rw absent refl)
        | inr there ↦
            (polled (suc n) s1, rw (there, await_ident-first n fuel s1 lt before now, failed) refl)
      ]
