-- ===== src/Idt.antt =====
-- src/cpu.c: the tables of gates and of segments. A function of src/isr.S is its address; the table of
-- gates is a function from vectors. Loading a table into the processor is left out.
pub mod Gates
mod Tests
use Prim.Native.Nat.{bit_or}
use smor.Prelude.{
  ℕ, zero, suc, ◌+◌, ◌-◌, ◌/◌, ◌%◌, ◌^◌, ◌==◌, ltb, leb, ◌&&◌, ◌||◌, true, false, if◌then◌else◌,
  update, u8, u16, u32,
}

pub record IdtEntry : Type 0 where
  pub offset0 : ℕ
  pub selector : ℕ
  pub type : ℕ
  pub offset1 : ℕ
  pub offset2 : ℕ
  pub reserved : ℕ

pub idt_set : (index type handler : ℕ) → (ℕ → IdtEntry) → ℕ → IdtEntry
idt_set index type handler table =
    let entry : IdtEntry = record {
      offset0 = u16 handler;
      selector = 0x08;
      type = type;
      offset1 = u16 (handler / 2 ^ 16);
      offset2 = u32 (handler / 2 ^ 32);
      reserved = 0;
    } in
    update table index entry

abbrev pub interrupt_gate : ℕ
interrupt_gate = 0x8e00

abbrev pub trap_gate : ℕ
trap_gate = 0x8f00

-- the table `cpu_exceptions`, from the addresses of the functions `_trap_n`
pub cpu_exceptions : (trap : ℕ → ℕ) → (spurious : ℕ) → ℕ → ℕ
cpu_exceptions trap spurious i =
    if (i == 15) || (leb 21 i && leb i 29) || (i == 31) then spurious else trap i

-- a loop of `idt_init`: the number of rounds left, the index
pub set_gates : ℕ → (i type : ℕ) → (handler : ℕ → ℕ) → (ℕ → IdtEntry) → ℕ → IdtEntry
set_gates zero i type handler table = table
set_gates (suc n) i type handler table =
    set_gates n (i + 1) type handler (idt_set i type (handler i) table)

pub idt_init : (trap : ℕ → ℕ) → (spurious : ℕ) → (ℕ → IdtEntry) → ℕ → IdtEntry
idt_init trap spurious table =
    set_gates (256 - 32) 32 interrupt_gate (λ _. spurious)
      (set_gates 32 0 trap_gate (cpu_exceptions trap spurious) table)

pub cpu_interrupt_set : (vector handler : ℕ) → (ℕ → IdtEntry) → ℕ → IdtEntry
cpu_interrupt_set vector handler table = idt_set (u8 vector) interrupt_gate handler table

pub cpu_interrupt_unset : (spurious vector : ℕ) → (ℕ → IdtEntry) → ℕ → IdtEntry
cpu_interrupt_unset spurious vector table = idt_set (u8 vector) interrupt_gate spurious table

pub record GdtTable : Type 0 where
  pub unused : ℕ
  pub kernel_code : ℕ
  pub kernel_data : ℕ
  pub user_code : ℕ
  pub user_data : ℕ

abbrev pub gdt_access_exec : ℕ
gdt_access_exec = 2 ^ 43

abbrev pub gdt_access_user : ℕ
gdt_access_user = 2 ^ 46

-- GDT_ACCESS_RW, GDT_ACCESS_SET, GDT_ACCESS_PRESENT and GDT_FLAGS_X86_64
abbrev pub gdt_base : ℕ
gdt_base = bit_or (bit_or (bit_or (2 ^ 41) (2 ^ 44)) (2 ^ 47)) (2 ^ 53)

pub gdt_init : GdtTable → GdtTable
gdt_init t = record t {
  kernel_code = bit_or gdt_base gdt_access_exec;
  kernel_data = gdt_base;
  user_code = bit_or (bit_or gdt_base gdt_access_user) gdt_access_exec;
  user_data = bit_or gdt_base gdt_access_user;
}
