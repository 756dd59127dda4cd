-- ===== src/Interrupt/Tests.antt =====
-- The timer's interrupt, which an override moves to the input 2, and the theorems at it.
use smor.Prelude.{ℕ, ◌+◌, ◌≡◌, refl, [], ◌∷◌, true, done, arith}
use smor.Thread.{Machine, Cpu, new_thread}
use smor.IoApic.{IoApic, io_apic_interrupt_override, override_in}
use smor.IoApic.Table.{Enables}
use smor.Interrupt.{Interrupts, intr_register_irq_handler, intr_irq_enable}
use smor.Interrupt.Dispatch.{Registered, register-Registered, intr_irq_enable-Enables}

abbrev blank : Interrupts
blank = record {
  irq_handlers = λ _. record { handler = 0; vector = 0 };
  lint_handlers = λ _. record { handler = 0; vector = 0 };
  intr_lock = 0;
  idt = λ _. 0;
}

abbrev cpu : Cpu
cpu = record {
  threads = 1;
  cur_thread = 1;
  idle_thread = 1;
  lock = 0;
  apic_id = 0;
  flags = 1;
  id_cnt = 2;
  spl = 0;
}

abbrev machine : Machine
machine = record { mem = λ _. new_thread 4096; cpus = λ _. cpu; this = 0; interrupts = true }

abbrev stubs : ℕ → ℕ
stubs irq = 0x100000 + irq

abbrev io_apic : IoApic
io_apic = record {
  io_apic_addr = 0xfec00000;
  id = 0;
  ver = 0;
  num_redtbl = 0;
  gsi_base = 0;
  regs = λ _. 0;
  lock = 0;
  iovr = record { bus = 0; irq = 0; gsi = 2 } ∷ [];
}

register-Registered_example :
    (s' : Interrupts) × (intr_register_irq_handler stubs 0 0x200000 blank machine
      ≡ done (s', machine))
    × Registered stubs 0 0x200000 blank s'
register-Registered_example =
    register-Registered stubs 0 0x200000 blank machine refl (omega arith) (omega arith)

abbrev with_timer : Interrupts
with_timer = (register-Registered stubs 0 0x200000 blank machine refl (omega arith) (omega arith)).0

with_timer-Registered : Registered stubs 0 0x200000 blank with_timer
with_timer-Registered =
    (register-Registered stubs 0 0x200000 blank machine refl (omega arith) (omega arith)).2

intr_irq_enable-Enables_case :
    (a' : IoApic) × (intr_irq_enable 0 1 with_timer io_apic machine ≡ done (a', machine))
    × Enables 0 0x40 1 io_apic a'
unfolding io_apic_interrupt_override override_in
intr_irq_enable-Enables_case =
    intr_irq_enable-Enables stubs 0 0x200000 1 blank with_timer io_apic machine
      with_timer-Registered (omega arith) refl (omega arith) (omega arith)
