-- ===== src/Interrupt.antt =====
-- src/interrupt.c: the handlers of interrupts. A handler and a stub of src/isr.S are addresses, 0 for
-- NULL; the stubs are arguments. `idt` is the stub behind each vector, which `cpu_interrupt_set` of
-- src/cpu.c writes.
pub mod Dispatch
mod Tests
use smor.Prelude.{
  ℕ, ◌+◌, ◌%◌, ◌^◌, ltb, ◌==◌, if◌then◌else◌, update, Option, none, some, Outcome, done, undefined,
  ◌>>=◌, u8, u32,
}
use smor.Thread.{Machine, cpu_splhi, cpu_splx, spinlock_lock, spinlock_unlock}
use smor.IoApic.{IoApic, io_apic_enable_irq, io_apic_disable_irq}
use smor.LocalApic.{LocalApic, local_apic_eoi}

pub record Handler : Type 0 where
  pub handler : ℕ
  pub vector : ℕ

pub record Interrupts : Type 0 where
  pub irq_handlers : ℕ → Handler
  pub lint_handlers : ℕ → Handler
  pub intr_lock : ℕ
  pub idt : ℕ → ℕ

abbrev pub irq_base : ℕ
irq_base = 0x40

abbrev pub irq_max : ℕ
irq_max = 0x16

abbrev pub lint_max : ℕ
lint_max = 8

-- the handler that is called, if there is one; past the table the behaviour is undefined
pub dispatch : (table : ℕ → Handler) → (max trap_num : ℕ) → Outcome (Option ℕ)
dispatch table max trap_num =
    let irq_num = u32 trap_num in
    let h = (table irq_num).handler in
    if ltb irq_num max then done (if h == 0 then none else some h) else undefined

pub cpu_interrupt : (trap_num : ℕ) → Interrupts → LocalApic → Outcome (Option ℕ × LocalApic)
unfolding dispatch
cpu_interrupt trap_num s a = do
  called ← dispatch s.irq_handlers irq_max trap_num
  done (called, local_apic_eoi a)

pub cpu_local_interrupt : (trap_num : ℕ) → Interrupts → LocalApic → Outcome (Option ℕ × LocalApic)
unfolding dispatch
cpu_local_interrupt trap_num s a = do
  called ← dispatch s.lint_handlers lint_max trap_num
  done (called, local_apic_eoi a)

module _ (stub : ℕ → ℕ) where
  pub intr_register_irq_handler :
      (irq handler : ℕ) → Interrupts → Machine → Outcome (Interrupts × Machine)
  intr_register_irq_handler irq handler s m = do
    let (spl, m1) = cpu_splhi m
    held ← spinlock_lock s.intr_lock
    let i : Handler = record { handler = handler; vector = u8 (irq_base + irq) }
    let set = record s {
      irq_handlers = update s.irq_handlers irq i;
      idt = update s.idt i.vector (stub irq);
      intr_lock = spinlock_unlock held;
    }
    if ltb irq irq_max then done (set, cpu_splx spl m1) else undefined

  pub intr_register_local_irq_handler :
      (irq vector handler : ℕ) → Interrupts → Machine → Outcome (Interrupts × Machine)
  intr_register_local_irq_handler irq vector handler s m = do
    let (spl, m1) = cpu_splhi m
    held ← spinlock_lock s.intr_lock
    let i : Handler = record { handler = handler; vector = u8 vector }
    let set = record s {
      lint_handlers = update s.lint_handlers irq i;
      idt = update s.idt i.vector (stub irq);
      intr_lock = spinlock_unlock held;
    }
    if ltb irq lint_max then done (set, cpu_splx spl m1) else undefined

unfoldable pub intr_irq_enable :
    (irq cpu_mask : ℕ) → Interrupts → IoApic → Machine → Outcome (IoApic × Machine)
intr_irq_enable irq cpu_mask s a m =
    if ltb irq irq_max
    then io_apic_enable_irq irq (s.irq_handlers irq).vector cpu_mask a m
    else undefined

pub intr_irq_disable : (irq : ℕ) → IoApic → Machine → Outcome (IoApic × Machine)
intr_irq_disable irq a m = io_apic_disable_irq irq a m
