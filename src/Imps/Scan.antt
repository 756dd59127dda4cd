-- ===== src/Imps/Scan.antt =====
-- src/imps.c, imps_checksum, imps_scan and imps_find.
use smor.Prelude.{
  ℕ, zero, suc, ◌+◌, ◌*◌, ◌%◌, ◌^◌, ◌<◌, ◌≡◌, ◌≢◌, refl, ap, ◌∙◌, ◌⊎◌, inl, inr, true, false, ◌==◌,
  ne→==, done, arith, Bool-cases, sub32,
}
use smor.Bytes.{read8, read16, add_bytes}
use smor.Kernel.{kernel_vaddr}
use smor.Imps.{imps_checksum, imps_check_fps, imps_scan, imps_find}

-- the sum of `n` bytes
pub sum_bytes : ℕ → (mem : ℕ → ℕ) → ℕ → ℕ
sum_bytes zero mem p = 0
sum_bytes (suc n) mem p = read8 mem p + sum_bytes n mem (p + 1)

-- a sum on 32 bits has the low 8 bits of the sum
add_bytes-sum :
    (n : ℕ) (mem : ℕ → ℕ) (p sum : ℕ)
    → add_bytes 32 n mem p sum % 2 ^ 8 ≡ (sum + sum_bytes n mem p) % 2 ^ 8
unfolding add_bytes sum_bytes
add_bytes-sum zero mem p sum = omega arith
add_bytes-sum (suc n) mem p sum =
    add_bytes-sum n mem (p + 1) ((sum + read8 mem p) % 2 ^ 32) ∙ omega arith

-- The checksum is the sum of the bytes modulo 256, however many they are.
pub imps_checksum-sum :
    (mem : ℕ → ℕ) (base len : ℕ) → imps_checksum mem base len ≡ sum_bytes len mem base % 2 ^ 8
unfolding imps_checksum
imps_checksum-sum mem base len = add_bytes-sum len mem base 0 ∙ omega arith

-- `found` is the first of `n` paragraphs of 16 bytes from `addr` on that holds the structure, or 0 if
-- none does
abbrev pub IsFirstFps : (mem : ℕ → ℕ) → (addr n found : ℕ) → Type 0
IsFirstFps mem addr n found =
    ((k : ℕ) × (k < n)
      × (found ≡ addr + 16 * k)
      × (imps_check_fps mem found ≡ true)
      × ((j : ℕ) → j < k → imps_check_fps mem (addr + 16 * j) ≡ false))
    ⊎ ((found ≡ 0) × ((j : ℕ) → j < n → imps_check_fps mem (addr + 16 * j) ≡ false))

IsFirstFps-suc :
    (mem : ℕ → ℕ) (addr n found : ℕ)
    → imps_check_fps mem addr ≡ false
    → IsFirstFps mem (addr + 16) n found
    → IsFirstFps mem addr (suc n) found
IsFirstFps-suc mem addr n found no_fps f = elim f [
  | inl (k, lt, at, is, before) ↦ inl (suc k, omega arith, omega arith, is, earlier k before)
  | inr (null, before) ↦ inr (null, earlier n before)
]
  where
    earlier :
        (k : ℕ)
        → ((j : ℕ) → j < k → imps_check_fps mem (addr + 16 + 16 * j) ≡ false)
        → (j : ℕ) → j < suc k
        → imps_check_fps mem (addr + 16 * j) ≡ false
    earlier k before zero h = ap (imps_check_fps mem) (omega arith) ∙ no_fps
    earlier k before (suc j) h = ap (imps_check_fps mem) (omega arith) ∙ before j (omega arith)

-- `imps_scan` over a number of whole paragraphs ends, and finds the first structure.
pub imps_scan-IsFirstFps :
    (fuel n : ℕ) (mem : ℕ → ℕ) (addr : ℕ)
    → n < fuel
    → 16 * n < 2 ^ 32
    → (found : ℕ) × (imps_scan fuel mem addr (16 * n) ≡ done found) × IsFirstFps mem addr n found
unfolding imps_scan
imps_scan-IsFirstFps zero n mem addr lt small = absurd (omega arith)
imps_scan-IsFirstFps (suc fuel) zero mem addr lt small =
    (0, refl, inr (refl, λ j h. absurd (omega arith)))
imps_scan-IsFirstFps (suc fuel) (suc n) mem addr lt small =
    elim (Bool-cases (imps_check_fps mem addr)) [
      | inl is ↦ (
        addr,
        rw (ne→== (16 * suc n) 0 (omega arith), is) refl,
        inl (0, omega arith, omega arith, is, λ j h. absurd (omega arith)),
      )
      | inr not_here ↦
          (let (found, run, first) =
              imps_scan-IsFirstFps fuel n mem (addr + 16) (omega arith) (omega arith) in
            let left : sub32 (16 * suc n) 16 ≡ 16 * n = omega arith in
            (
              found,
              rw (ne→== (16 * suc n) 0 (omega arith), not_here, left) run,
              IsFirstFps-suc mem addr n found not_here first,
            ))
    ]

-- in a region that does not begin at 0, a structure is found where it is, and 0 means that none is
-- there
fps_found :
    (mem : ℕ → ℕ) (addr n found : ℕ)
    → addr ≢ 0
    → IsFirstFps mem addr n found
    → (found ≢ 0 → imps_check_fps mem found ≡ true)
      × (found ≡ 0 → (j : ℕ) → j < n → imps_check_fps mem (addr + 16 * j) ≡ false)
fps_found mem addr n found ne f = elim f [
  | inl (k, lt, at, is, before) ↦ (λ nz. is, λ z. absurd (omega arith))
  | inr (null, before) ↦ (λ nz. absurd (nz null), λ z. before)
]

-- no structure in the `n` paragraphs from `addr` on
abbrev pub Nowhere : (mem : ℕ → ℕ) → (addr n : ℕ) → Type 0
Nowhere mem addr n = (j : ℕ) → j < n → imps_check_fps mem (addr + 16 * j) ≡ false

-- the three regions that are searched
abbrev pub ebda : (mem : ℕ → ℕ) → ℕ
ebda mem = kernel_vaddr (read16 mem (kernel_vaddr 0x40E) * 2 ^ 4)

abbrev pub last_kilobyte : ℕ
last_kilobyte = kernel_vaddr (639 * 1024)

abbrev pub bios_rom : ℕ
bios_rom = kernel_vaddr 0xF0000

-- `imps_find` ends. What it returns is a valid structure, or 0 if there is none in any of the three
-- regions.
pub imps_find_complete :
    (fuel : ℕ) (mem : ℕ → ℕ)
    → 4096 < fuel
    → (found : ℕ) × (imps_find fuel mem ≡ done found)
      × (found ≢ 0 → imps_check_fps mem found ≡ true)
      × (found ≡ 0
          → Nowhere mem (ebda mem) 64 × Nowhere mem last_kilobyte 64 × Nowhere mem bios_rom 4096)
unfolding imps_find
imps_find_complete fuel mem enough =
    let (f1, run1, first1) =
      imps_scan-IsFirstFps fuel 64 mem (ebda mem) (omega arith) (omega arith) in
    let (f2, run2, first2) =
      imps_scan-IsFirstFps fuel 64 mem last_kilobyte (omega arith) (omega arith) in
    let (f3, run3, first3) =
      imps_scan-IsFirstFps fuel 4096 mem bios_rom (omega arith) (omega arith) in
    let (is1, none1) = fps_found mem (ebda mem) 64 f1 (omega arith) first1 in
    let (is2, none2) = fps_found mem last_kilobyte 64 f2 (omega arith) first2 in
    let (is3, none3) = fps_found mem bios_rom 4096 f3 (omega arith) first3 in
    elim (Bool-cases (f1 == 0)) [
      | inr some1 ↦ (f1, rw (run1, some1) refl, is1, λ z. absurd (ground arith))
      | inl zero1 ↦ elim (Bool-cases (f2 == 0)) [
        | inr some2 ↦ (f2, rw (run1, zero1, run2, some2) refl, is2, λ z. absurd (ground arith))
        | inl zero2 ↦ (
          f3,
          rw (run1, zero1, run2, zero2, run3) refl,
          is3,
          λ z. (none1 (ground arith), none2 (ground arith), none3 z),
        )
      ]
    ]
