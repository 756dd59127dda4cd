-- ===== src/Acpi/Rsdp.antt =====
-- src/acpi.c, acpi_find_rsdp: the search for the root pointer.
use smor.Prelude.{
  ℕ, zero, suc, ◌+◌, ◌*◌, ◌≤◌, ◌<◌, ◌≡◌, refl, ap, ◌∙◌, ◌⊎◌, inl, inr, Bool, true, false, ◌==◌,
  lt→ltb, le→ltb, if◌then◌else◌, done, arith, Bool-cases,
}
use smor.Bytes.{read64, add_bytes}
use smor.Kernel.{kernel_base}
use smor.Acpi.{acpi_rsdp_signature, find_rsdp_from, acpi_find_rsdp}

-- the signature is at `p`
abbrev pub is_signed : (mem : ℕ → ℕ) → ℕ → Bool
is_signed mem p = read64 mem p == acpi_rsdp_signature

-- `found` is the first of `n` paragraphs from `p` on with the signature, if the sum of its 20 bytes is
-- 0; it is 0 if that sum is not 0, or if no paragraph has the signature
abbrev pub IsRsdp : (mem : ℕ → ℕ) → (p n found : ℕ) → Type 0
IsRsdp mem p n found =
    ((k : ℕ) × (k < n)
      × (is_signed mem (p + 16 * k) ≡ true)
      × ((j : ℕ) → j < k → is_signed mem (p + 16 * j) ≡ false)
      × (found ≡ (if add_bytes 8 20 mem (p + 16 * k) 0 == 0 then p + 16 * k else 0)))
    ⊎ ((found ≡ 0) × ((j : ℕ) → j < n → is_signed mem (p + 16 * j) ≡ false))

module _ (mem : ℕ → ℕ) (p : ℕ) where
  next : (k : ℕ) → p + 16 + 16 * k ≡ p + 16 * suc k
  next k = omega arith

  here : p + 16 * 0 ≡ p
  here = omega arith

  earlier :
      (k : ℕ)
      → is_signed mem p ≡ false
      → ((j : ℕ) → j < k → is_signed mem (p + 16 + 16 * j) ≡ false)
      → (j : ℕ) → j < suc k
      → is_signed mem (p + 16 * j) ≡ false
  earlier k unsigned before zero h = ap (is_signed mem) here ∙ unsigned
  earlier k unsigned before (suc j) h = rw (← next j) (before j (omega arith))

  IsRsdp-suc :
      (n found : ℕ)
      → is_signed mem p ≡ false
      → IsRsdp mem (p + 16) n found
      → IsRsdp mem p (suc n) found
  IsRsdp-suc n found unsigned r = elim r [
    | inl (k, lt, is, before, at) ↦
        inl (suc k, omega arith, rw (← next k) is, earlier k unsigned before, rw (← next k) at)
    | inr (null, before) ↦ inr (null, earlier n unsigned before)
  ]

find_rsdp_from-IsRsdp :
    (fuel n : ℕ) (mem : ℕ → ℕ) (p stop : ℕ)
    → n < fuel
    → stop ≤ p + 16 * n
    → p + 16 * n < stop + 16
    → (found : ℕ) × (find_rsdp_from fuel mem p stop ≡ done found) × IsRsdp mem p n found
unfolding find_rsdp_from
find_rsdp_from-IsRsdp zero n mem p stop lt lo hi = absurd (omega arith)
find_rsdp_from-IsRsdp (suc fuel) zero mem p stop lt lo hi =
    (0, rw (le→ltb p stop (omega arith)) refl, inr (refl, λ j h. absurd (omega arith)))
find_rsdp_from-IsRsdp (suc fuel) (suc n) mem p stop lt lo hi = elim (Bool-cases (is_signed mem p)) [
  | inl is ↦ (
    if add_bytes 8 20 mem p 0 == 0 then p else 0,
    rw (lt→ltb p stop (omega arith), is) refl,
    inl (0, omega arith, rw (here mem p) is, λ j h. absurd (omega arith), rw (here mem p) refl),
  )
  | inr unsigned ↦
      (let (found, run, r) =
          find_rsdp_from-IsRsdp fuel n mem (p + 16) stop (omega arith) (omega arith)
            (omega arith) in
        (
          found,
          rw (lt→ltb p stop (omega arith), unsigned) run,
          IsRsdp-suc mem p n found unsigned r,
        ))
]

-- `acpi_find_rsdp` ends, and searches all of the 8192 paragraphs of the BIOS area, up to the first
-- signature: a signature whose checksum is wrong ends the search without a result.
pub acpi_find_rsdp-IsRsdp :
    (fuel : ℕ) (mem : ℕ → ℕ)
    → 8192 < fuel
    → (found : ℕ) × (acpi_find_rsdp fuel mem ≡ done found)
      × IsRsdp mem (kernel_base + 0xe0000) 8192 found
unfolding acpi_find_rsdp
acpi_find_rsdp-IsRsdp fuel mem enough =
    find_rsdp_from-IsRsdp fuel 8192 mem (kernel_base + 0xe0000) (kernel_base + 0xfffff) enough
      (omega arith) (omega arith)
