-- ===== src/Bytes.antt =====
-- Words of memory, lowest byte first, and the sums of bytes that src/imps.c and src/acpi.c check.
use smor.Prelude.{ℕ, zero, suc, ◌+◌, ◌*◌, ◌%◌, ◌^◌}

abbrev pub read8 : (mem : ℕ → ℕ) → ℕ → ℕ
read8 mem a = mem a % 2 ^ 8

abbrev pub read16 : (mem : ℕ → ℕ) → ℕ → ℕ
read16 mem a = read8 mem a + 2 ^ 8 * read8 mem (a + 1)

abbrev pub read32 : (mem : ℕ → ℕ) → ℕ → ℕ
read32 mem a = read16 mem a + 2 ^ 16 * read16 mem (a + 2)

abbrev pub read64 : (mem : ℕ → ℕ) → ℕ → ℕ
read64 mem a = read32 mem a + 2 ^ 32 * read32 mem (a + 4)

-- the loops over the bytes of a table, which add to a `w`-bit `sum`: the rounds left, the address
unfoldable pub add_bytes : (w : ℕ) → ℕ → (mem : ℕ → ℕ) → (p sum : ℕ) → ℕ
add_bytes w zero mem p sum = sum
add_bytes w (suc n) mem p sum = add_bytes w n mem (p + 1) ((sum + read8 mem p) % 2 ^ w)
