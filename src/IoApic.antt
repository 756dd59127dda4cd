-- ===== src/IoApic.antt =====
-- src/io_apic.c: the redirection table of the interrupt controller. A register is a cell of 32 bits
-- behind the select and window registers, which are written under the lock.
pub mod Table
pub mod Mask
use Prim.Native.Nat.{bit_or}
use smor.VmBoot.{BootTables, vm_boot_map_range}
use smor.Prelude.{
  ℕ, zero, suc, ◌+◌, ◌*◌, ◌/◌, ◌%◌, ◌^◌, ◌==◌, ltb, if◌then◌else◌, update, List, [], ◌∷◌, ◌++◌,
  length, Outcome, done, check, ◌>>=◌, ◌>>◌, u32, u64,
}
use smor.Thread.{Machine, cpu_splhi, cpu_splx, spinlock_lock, spinlock_unlock}

pub record IoApicIovr : Type 0 where
  pub bus : ℕ
  pub irq : ℕ
  pub gsi : ℕ

-- `iovr` holds the first `io_apic_num_iovr` overrides
pub record IoApic : Type 0 where
  pub io_apic_addr : ℕ
  pub id : ℕ
  pub ver : ℕ
  pub num_redtbl : ℕ
  pub gsi_base : ℕ
  pub regs : ℕ → ℕ
  pub lock : ℕ
  pub iovr : List IoApicIovr

abbrev pub ioredtbl : ℕ
ioredtbl = 0x10

abbrev pub interrupt_off : ℕ
interrupt_off = 2 ^ 16

abbrev pub destmod_logical : ℕ
destmod_logical = 2 ^ 11

abbrev pub io_apic_read : IoApic → (reg : ℕ) → ℕ
io_apic_read a reg = a.regs (reg % 2 ^ 8)

abbrev pub io_apic_write : (reg value : ℕ) → IoApic → IoApic
io_apic_write reg value a = record a { regs = update a.regs (reg % 2 ^ 8) value }

unfoldable pub io_apic_register : (addr gsi_base : ℕ) → IoApic → IoApic
io_apic_register addr gsi_base a = record a { io_apic_addr = addr; gsi_base = gsi_base }

abbrev pub max_io_apic_iovr : ℕ
max_io_apic_iovr = 16

unfoldable pub io_apic_add_iovr : (bus irq gsi : ℕ) → IoApic → Outcome IoApic
io_apic_add_iovr bus irq gsi a = do
  check (ltb (length a.iovr) max_io_apic_iovr)
  let v : IoApicIovr = record { bus = bus; irq = irq; gsi = gsi }
  done (record a { iovr = a.iovr ++ (v ∷ []) })

pub io_apic_redtbl_get : IoApic → (index : ℕ) → ℕ
io_apic_redtbl_get a index =
    let lo = io_apic_read a (ioredtbl + index * 2) in
    let hi = io_apic_read a (ioredtbl + index * 2 + 1) in lo + u64 (hi * 2 ^ 32)

pub io_apic_redtbl_set : (index value : ℕ) → IoApic → IoApic
io_apic_redtbl_set index value a =
    io_apic_write (ioredtbl + index * 2 + 1) (u32 (value / 2 ^ 32))
      (io_apic_write (ioredtbl + index * 2) (u32 value) a)

-- the first override of the interrupt
unfoldable pub override_in : List IoApicIovr → (irq : ℕ) → ℕ
override_in [] irq = irq
override_in (v ∷ iovr) irq = let rest = override_in iovr irq in if v.irq == irq then v.gsi else rest

unfoldable pub io_apic_interrupt_override : IoApic → (irq : ℕ) → ℕ
unfolding override_in
io_apic_interrupt_override a irq = override_in a.iovr irq

-- The flags that are 0 in the source are left out of the entry.
pub redtbl_entry : (vector cpu_mask : ℕ) → ℕ
redtbl_entry vector cpu_mask =
    bit_or (bit_or (vector % 2 ^ 8) destmod_logical) (cpu_mask % 2 ^ 8 * 2 ^ 56)

pub io_apic_enable_irq : (irq vector cpu_mask : ℕ) → IoApic → Machine → Outcome (IoApic × Machine)
io_apic_enable_irq irq vector cpu_mask a m = do
  let index = io_apic_interrupt_override a irq
  let (spl, m1) = cpu_splhi m
  held ← spinlock_lock a.lock
  let set = io_apic_redtbl_set index (redtbl_entry vector cpu_mask) a
  done (record set { lock = spinlock_unlock held }, cpu_splx spl m1)

pub io_apic_disable_irq : (irq : ℕ) → IoApic → Machine → Outcome (IoApic × Machine)
io_apic_disable_irq irq a m = do
  let index = io_apic_interrupt_override a irq
  let (spl, m1) = cpu_splhi m
  held ← spinlock_lock a.lock
  let set = io_apic_redtbl_set index (bit_or (io_apic_redtbl_get a index) interrupt_off) a
  done (record set { lock = spinlock_unlock held }, cpu_splx spl m1)

-- the loop of `io_apic_init`: the number of rounds left, the index
pub mask_from : ℕ → (i : ℕ) → IoApic → IoApic
mask_from zero i a = a
mask_from (suc n) i a = mask_from n (i + 1) (io_apic_redtbl_set i interrupt_off a)

pub io_apic_init : IoApic → BootTables → Outcome (IoApic × BootTables)
io_apic_init a m = do
  m1 ← vm_boot_map_range a.io_apic_addr a.io_apic_addr 0x1000 m
  let ver_reg = io_apic_read a 1
  let num_redtbl = ver_reg / 2 ^ 16 % 2 ^ 8 + 1
  let found = record a {
    id = io_apic_read a 0 / 2 ^ 24 % 2 ^ 4;
    ver = ver_reg % 2 ^ 8;
    num_redtbl = num_redtbl;
  }
  done (mask_from num_redtbl 0 found, m1)
