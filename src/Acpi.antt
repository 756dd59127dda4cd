-- ===== src/Acpi.antt =====
-- src/acpi.c: the system description tables. `mem` is memory as the kernel reads it, the tables that
-- `acpi_init` maps included; the calls that map them go to VmBoot, and what the tables say to
-- LocalApic and IoApic.
pub mod Rsdp
pub mod Madt
mod Tests
use smor.Prelude.{
  ℕ, zero, suc, ◌+◌, ◌-◌, ◌*◌, ◌/◌, ◌%◌, ◌^◌, Bool, true, false, ◌==◌, ltb, if◌then◌else◌, Outcome,
  done, hang, ◌>>=◌, u32, sub32,
}
use smor.Bytes.{read8, read32, read64, add_bytes}
use smor.Kernel.{kernel_base}
use smor.VmBoot.{BootTables, vm_boot_map_range, vm_boot_unmap_range}
use smor.IoApic.{IoApic, io_apic_register, io_apic_add_iovr}
use smor.LocalApic.{LocalApic, local_apic_register, local_apic_add_cpu}

pub record Apics : Type 0 where
  pub local : LocalApic
  pub io : IoApic

-- `RSD PTR `
abbrev pub acpi_rsdp_signature : ℕ
acpi_rsdp_signature = 0x2052545020445352

-- the loop of `acpi_find_rsdp`, which ends at a checksum that fails; the result is 0 for NULL, and
-- `sizeof(struct acpi_rsdp_t)` is 20
pub find_rsdp_from : ℕ → (mem : ℕ → ℕ) → (ptr stop : ℕ) → Outcome ℕ
unfolding add_bytes
find_rsdp_from zero mem ptr stop = hang
find_rsdp_from (suc fuel) mem ptr stop =
    let rest = find_rsdp_from fuel mem (ptr + 16) stop in
    let found = if add_bytes 8 20 mem ptr 0 == 0 then ptr else 0 in
    if ltb ptr stop
    then (if read64 mem ptr == acpi_rsdp_signature then done found else rest)
    else done 0

pub acpi_find_rsdp : ℕ → (mem : ℕ → ℕ) → Outcome ℕ
acpi_find_rsdp fuel mem =
    find_rsdp_from fuel mem (kernel_base + 0x000e0000) (kernel_base + 0x000fffff)

pub acpi_sdt_check : (mem : ℕ → ℕ) → (hdr : ℕ) → Bool
unfolding add_bytes
acpi_sdt_check mem hdr = add_bytes 8 (read32 mem (hdr + 4)) mem hdr 0 == 0

-- the body of the loop of `acpi_parse_madt`, at the entry `ptr`
pub parse_apic : (mem : ℕ → ℕ) → (ptr : ℕ) → Apics → Outcome Apics
parse_apic mem ptr a =
    let type = read8 mem ptr in
    if type == 0
    then (local_apic_add_cpu (read8 mem (ptr + 3)) a.local >>= λ l. done (record a { local = l }))
    else if type == 1
    then done
        (record a { io = io_apic_register (read32 mem (ptr + 4)) (read32 mem (ptr + 8)) a.io })
    else if type == 2
    then (io_apic_add_iovr (read8 mem (ptr + 2)) (read8 mem (ptr + 3)) (read32 mem (ptr + 4)) a.io
        >>= λ io. done (record a { io = io }))
    else done a

pub parse_apics : ℕ → (mem : ℕ → ℕ) → (ptr stop : ℕ) → Apics → Outcome Apics
parse_apics zero mem ptr stop a = hang
parse_apics (suc fuel) mem ptr stop a =
    let rest =
      (parse_apic mem ptr a >>= λ a1. parse_apics fuel mem (ptr + read8 mem (ptr + 1)) stop a1) in
    if ltb ptr stop then rest else done a

-- `sizeof(struct acpi_sdt_header_t)` is 36 and `sizeof(struct acpi_madt_t)` is 44
pub acpi_parse_madt : ℕ → (mem : ℕ → ℕ) → (madt : ℕ) → Apics → Outcome Apics
acpi_parse_madt fuel mem madt a =
    parse_apics fuel mem (madt + 44) (madt + read32 mem (madt + 4))
      (record a { local = local_apic_register (read32 mem (madt + 36)) a.local })

-- `APIC`
abbrev pub acpi_apic_signature : ℕ
acpi_apic_signature = 0x43495041

pub acpi_parse_sdt : ℕ → (mem : ℕ → ℕ) → (sdt : ℕ) → Apics → Outcome Apics
acpi_parse_sdt fuel mem sdt a =
    if read32 mem sdt == acpi_apic_signature then acpi_parse_madt fuel mem sdt a else done a

-- the loop over the addresses of a root table, of `width` bytes each: the number left, their place
pub parse_sdts : (fuel width : ℕ) → ℕ → (mem : ℕ → ℕ) → (p : ℕ) → Apics → Outcome Apics
parse_sdts fuel width zero mem p a = done a
parse_sdts fuel width (suc n) mem p a = do
  a1 ← acpi_parse_sdt fuel mem (if width == 4 then read32 mem p else read64 mem p) a
  parse_sdts fuel width n mem (p + width) a1

-- `length - 36` on `uint64_t`, as an `unsigned int` after the shift
pub acpi_parse_rsdt : ℕ → (mem : ℕ → ℕ) → (rsdt : ℕ) → Apics → Outcome Apics
acpi_parse_rsdt fuel mem rsdt a =
    parse_sdts fuel 4 (u32 ((read32 mem (rsdt + 4) + 2 ^ 64 - 36) % 2 ^ 64 / 4)) mem (rsdt + 36) a

pub acpi_parse_xsdt : ℕ → (mem : ℕ → ℕ) → (xsdt : ℕ) → Apics → Outcome Apics
acpi_parse_xsdt fuel mem xsdt a =
    parse_sdts fuel 8 (u32 ((read32 mem (xsdt + 4) + 2 ^ 64 - 36) % 2 ^ 64 / 8)) mem (xsdt + 36) a

-- a root table at `addr`: its header is mapped, then all of it; it is parsed if its checksum is right,
-- and unmapped
pub with_root :
    (addr : ℕ)
    → (mem : ℕ → ℕ) → (parse : Apics → Outcome Apics) → Apics
    → BootTables
    → Outcome (Apics × BootTables)
with_root addr mem parse a m = do
  m1 ← vm_boot_map_range addr addr 36 m
  m2 ← vm_boot_map_range addr addr (read32 mem (addr + 4)) m1
  a1 ← (if acpi_sdt_check mem addr then parse a else done a)
  m3 ← vm_boot_unmap_range addr (read32 mem (addr + 4)) m2
  done (a1, m3)

pub acpi_init : ℕ → (mem : ℕ → ℕ) → Apics → BootTables → Outcome (Bool × Apics × BootTables)
acpi_init fuel mem a m = do
  rsdp ← acpi_find_rsdp fuel mem
  let revision = read8 mem (rsdp + 15)
  let rsdt = read32 mem (rsdp + 16)
  let xsdt = read64 mem (rsdp + 24)
  let first = with_root rsdt mem (acpi_parse_rsdt fuel mem rsdt) a m
  let second = with_root xsdt mem (acpi_parse_xsdt fuel mem xsdt) a m
  if rsdp == 0
      then done (false, a, m)
      else if revision == 0
      then (first >>= λ r. done (true, r.0, r.1))
      else if revision == 2
      then (if add_bytes 8 (read32 mem (rsdp + 20)) mem rsdp 0 == 0
          then (second >>= λ r. done (true, r.0, r.1))
          else done (true, a, m))
      else done (true, a, m)
