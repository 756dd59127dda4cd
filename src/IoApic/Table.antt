-- ===== src/IoApic/Table.antt =====
-- src/io_apic.c: the entries of the redirection table.
use Prim.Native.Nat.{bit_or}
use smor.Prelude.{
  ℕ, ◌+◌, ◌*◌, ◌%◌, ◌^◌, ◌<◌, ◌≡◌, refl, ◌∙◌, ap, ◌==◌, if◌then◌else◌, done, arith, bit_or_add,
  bit_or_comm,
}
use smor.Thread.{Machine}
use smor.Thread.Spl.{splx-splhi}
use smor.IoApic.{
  IoApic, io_apic_redtbl_get, io_apic_redtbl_set, io_apic_interrupt_override, redtbl_entry,
  io_apic_enable_irq,
}

-- the entries that 8-bit register numbers reach
abbrev pub num_entries : ℕ
num_entries = 120

-- An entry of 64 bits is read back as it was written, and the other entries stay.
pub redtbl_get-set :
    (a : IoApic) (index i value : ℕ)
    → index < num_entries
    → i < num_entries
    → value < 2 ^ 64
    → io_apic_redtbl_get (io_apic_redtbl_set index value a) i
      ≡ (if i == index then value else io_apic_redtbl_get a i)
unfolding io_apic_redtbl_get io_apic_redtbl_set
redtbl_get-set a index i value h1 h2 small = ground arith

-- `a'` is `a` with the entry that the override of `irq` names set
abbrev pub Enables : (irq vector cpu_mask : ℕ) → (a a' : IoApic) → Type 0
Enables irq vector cpu_mask a a' =
    (a'.lock ≡ 0)
    × ((i : ℕ)
        → i < num_entries
        → io_apic_redtbl_get a' i ≡ (
            if i == io_apic_interrupt_override a irq
            then vector + 2 ^ 11 + cpu_mask * 2 ^ 56
            else io_apic_redtbl_get a i))

enabled_entry :
    (a : IoApic) (index i value : ℕ)
    → index < num_entries
    → i < num_entries
    → value < 2 ^ 64
    → io_apic_redtbl_get (record (io_apic_redtbl_set index value a) { lock = 0 }) i
      ≡ (if i == index then value else io_apic_redtbl_get a i)
unfolding io_apic_redtbl_get io_apic_redtbl_set
enabled_entry a index i value h1 h2 small = redtbl_get-set a index i value h1 h2 small

entry_add :
    (vector cpu_mask : ℕ)
    → vector < 2 ^ 8
    → cpu_mask < 2 ^ 8
    → redtbl_entry vector cpu_mask ≡ vector + 2 ^ 11 + cpu_mask * 2 ^ 56
unfolding redtbl_entry
entry_add vector cpu_mask hv hm =
    let low : bit_or (vector % 2 ^ 8) (2 ^ 11) ≡ vector + 2 ^ 11 =
      bit_or_comm (vector % 2 ^ 8) (2 ^ 11)
      ∙ bit_or_add 11 1 (vector % 2 ^ 8) (omega arith)
      ∙ omega arith in
    let high : bit_or (vector + 2 ^ 11) (cpu_mask % 2 ^ 8 * 2 ^ 56)
        ≡ vector + 2 ^ 11 + cpu_mask * 2 ^ 56 =
      bit_or_comm (vector + 2 ^ 11) (cpu_mask % 2 ^ 8 * 2 ^ 56)
      ∙ ap (λ x. bit_or x (vector + 2 ^ 11)) (omega arith)
      ∙ bit_or_add 56 (cpu_mask % 2 ^ 8) (vector + 2 ^ 11) (omega arith)
      ∙ omega arith in
    rw low high

-- With the lock free, enabling an interrupt gives the entry that its override names the vector and the
-- processors, the interrupt not masked, and leaves every other entry, the lock and the processor's
-- interrupt flag as they were.
pub enable_irq-Enables :
    (a : IoApic) (m : Machine) (irq vector cpu_mask : ℕ)
    → a.lock ≡ 0
    → io_apic_interrupt_override a irq < num_entries
    → vector < 2 ^ 8
    → cpu_mask < 2 ^ 8
    → (a' : IoApic) × (io_apic_enable_irq irq vector cpu_mask a m ≡ done (a', m))
      × Enables irq vector cpu_mask a a'
unfolding io_apic_enable_irq
enable_irq-Enables a m irq vector cpu_mask free lt hv hm =
    let index = io_apic_interrupt_override a irq in
    let value = redtbl_entry vector cpu_mask in
    let entry = entry_add vector cpu_mask hv hm in
    let small : value < 2 ^ 64 = omega (arith, entry) in
    (
      record (io_apic_redtbl_set index value a) { lock = 0 },
      rw (free, splx-splhi m) refl,
      (refl, λ i hi. enabled_entry a index i value lt hi small ∙ rw entry refl),
    )
