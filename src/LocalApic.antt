-- ===== src/LocalApic.antt =====
-- src/local_apic.c: the processors that the firmware names, and the registers of a processor's own
-- interrupt controller. Its registers are cells of 32 bits; the
-- loops that wait until ICRLO is not pending are left out, since nothing here changes what they read.
use Prim.Native.Nat.{bit_or}
use smor.Prelude.{
  ℕ, ◌+◌, ◌*◌, ◌/◌, ◌%◌, ◌^◌, ltb, if◌then◌else◌, update, List, ◌∷◌, Outcome, done, undefined,
  check, ◌>>=◌, ◌>>◌, u8, u32,
}
use smor.Thread.{Machine, cpu_splhi, cpu_splx}
use smor.VmBoot.{BootTables, vm_boot_map_range}

abbrev pub max_cpus : ℕ
max_cpus = 16

pub record LocalApicCpu : Type 0 where
  pub apic_id : ℕ
  pub flags : ℕ

-- `regs` is what `local_apic_write` has stored at the offsets, `written` the writes as the controller
-- sees them, each an offset and a value, the last one first
pub record LocalApic : Type 0 where
  pub local_apic_addr : ℕ
  pub num_cpus : ℕ
  pub cpus : ℕ → LocalApicCpu
  pub regs : ℕ → ℕ
  pub written : List (ℕ × ℕ)

pub local_apic_register : (addr : ℕ) → LocalApic → LocalApic
local_apic_register addr a = record a { local_apic_addr = addr }

unfoldable pub local_apic_add_cpu : (apic_id : ℕ) → LocalApic → Outcome LocalApic
local_apic_add_cpu apic_id a = do
  check (ltb a.num_cpus max_cpus)
  let cpu : LocalApicCpu = record { apic_id = u8 apic_id; flags = 0 }
  done (record a { num_cpus = a.num_cpus + 1; cpus = update a.cpus a.num_cpus cpu })

abbrev pub local_apic_write : (reg value : ℕ) → LocalApic → LocalApic
local_apic_write reg value a = record a {
  regs = update a.regs reg (u32 value);
  written = (reg, u32 value) ∷ a.written;
}

abbrev pub lapic_id : ℕ
lapic_id = 0x20

abbrev pub lapic_icrlo : ℕ
lapic_icrlo = 0x300

abbrev pub lapic_icrhi : ℕ
lapic_icrhi = 0x310

-- `1 << apic_id`, undefined in C where an int of 32 bits does not hold the result
abbrev pub bit_of : (apic_id : ℕ) → Outcome ℕ
bit_of apic_id = if ltb apic_id 31 then done (2 ^ apic_id) else undefined

-- LDR_LOGICAL_LAPIC_MASK keeps 8 bits.
pub local_apic_init : LocalApic → BootTables → Outcome (LocalApic × BootTables)
local_apic_init a m = do
  m1 ← vm_boot_map_range a.local_apic_addr a.local_apic_addr 0x1000 m
  let apic_id = a.regs lapic_id / 2 ^ 24
  bit ← bit_of apic_id
  let logical_apic_id = bit % 2 ^ 8
  let ready = local_apic_write 0xF0 (2 ^ 8 + 0xFF) (
      local_apic_write 0xD0 (logical_apic_id * 2 ^ 24)
        (local_apic_write 0xE0 0xFFFFFFFF (local_apic_write 0x80 0 a)))
  done (ready, m1)

unfoldable pub local_apic_id : LocalApic → Machine → ℕ × Machine
local_apic_id a m = let (spl, m1) = cpu_splhi m in (a.regs lapic_id / 2 ^ 24, cpu_splx spl m1)

pub local_apic_eoi : LocalApic → LocalApic
local_apic_eoi a = local_apic_write 0xB0 0 a

-- the two halves of the interrupt command, the high one first, with interrupts disabled
unfoldable pub send_command : (hi lo : ℕ) → LocalApic → Machine → LocalApic × Machine
send_command hi lo a m =
    let (spl, m1) = cpu_splhi m in
    (local_apic_write lapic_icrlo lo (local_apic_write lapic_icrhi hi a), cpu_splx spl m1)

-- ICR_INIT, ICR_STARTUP and ICR_ASSERT; the flags that are 0 are left out
unfoldable pub local_apic_ipi_init : (apic_id : ℕ) → LocalApic → Machine → LocalApic × Machine
unfolding send_command
local_apic_ipi_init apic_id a m = send_command (apic_id * 2 ^ 24) (0x500 + 0x4000) a m

unfoldable pub local_apic_ipi_start : (apic_id : ℕ) → LocalApic → Machine → LocalApic × Machine
unfolding send_command
local_apic_ipi_start apic_id a m = send_command (apic_id * 2 ^ 24) (0x8 + 0x600 + 0x4000) a m

pub local_apic_ipi_shorthand : (vector shorthand : ℕ) → LocalApic → Machine → LocalApic × Machine
unfolding send_command
local_apic_ipi_shorthand vector shorthand a m =
    send_command 0 (bit_or (bit_or (vector % 2 ^ 8) 0x4000) shorthand) a m

pub local_apic_ipi_self : (vector : ℕ) → LocalApic → Machine → LocalApic × Machine
unfolding local_apic_ipi_shorthand
local_apic_ipi_self vector a m = local_apic_ipi_shorthand vector 0x40000 a m

pub local_apic_ipi_broadcast : (vector : ℕ) → LocalApic → Machine → LocalApic × Machine
unfolding local_apic_ipi_shorthand
local_apic_ipi_broadcast vector a m = local_apic_ipi_shorthand vector 0xC0000 a m

pub local_apic_ipi_all : (vector : ℕ) → LocalApic → Machine → LocalApic × Machine
unfolding local_apic_ipi_shorthand
local_apic_ipi_all vector a m = local_apic_ipi_shorthand vector 0x80000 a m
