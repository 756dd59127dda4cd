-- ===== src/Interrupt/Dispatch.antt =====
-- src/interrupt.c: a handler that is registered is the one that is called, and its interrupt is
-- enabled under its vector.
use smor.Prelude.{
  ℕ, ◌+◌, ◌%◌, ◌^◌, ◌<◌, ◌≡◌, ◌≢◌, refl, ◌==◌, update, lt→ltb, ne→==, ==_refl, if◌then◌else◌, some,
  done, arith, u32,
}
use smor.Thread.{Machine}
use smor.Thread.Spl.{splx-splhi}
use smor.IoApic.{IoApic, io_apic_interrupt_override}
use smor.IoApic.Table.{num_entries, Enables, enable_irq-Enables}
use smor.LocalApic.{LocalApic, local_apic_eoi}
use smor.Interrupt.{
  Interrupts, irq_base, irq_max, dispatch, cpu_interrupt, intr_register_irq_handler,
  intr_irq_enable,
}

-- `s'` is `s` with the handler of `irq`
pub record Registered (stub : ℕ → ℕ) (irq handler : ℕ) (s s' : Interrupts) : Type 0 where
  pub unlocked : s'.intr_lock ≡ 0
  pub called : (a : LocalApic) → cpu_interrupt irq s' a ≡ done (some handler, local_apic_eoi a)
  pub others :
      (j : ℕ) (a : LocalApic) → j < irq_max → j ≢ irq → cpu_interrupt j s' a ≡ cpu_interrupt j s a
  pub vector : (s'.irq_handlers irq).vector ≡ irq_base + irq
  pub gate : (v : ℕ) → s'.idt v ≡ (if v == irq_base + irq then stub irq else s.idt v)

module _ (stub : ℕ → ℕ) (irq handler : ℕ) (s : Interrupts) (m : Machine) (free : s.intr_lock ≡ 0)
    (small : irq < irq_max) (some_handler : handler ≢ 0) where
  abbrev with_handler : Interrupts
  with_handler = record s {
    irq_handlers =
        update s.irq_handlers irq (record { handler = handler; vector = (irq_base + irq) % 2 ^ 8 });
    idt = update s.idt ((irq_base + irq) % 2 ^ 8) (stub irq);
    intr_lock = 0;
  }

  registers : intr_register_irq_handler stub irq handler s m ≡ done (with_handler, m)
  unfolding intr_register_irq_handler
  registers = rw (free, lt→ltb irq irq_max small, splx-splhi m) refl

  calls : (a : LocalApic) → cpu_interrupt irq with_handler a ≡ done (some handler, local_apic_eoi a)
  unfolding cpu_interrupt dispatch
  calls a =
      let same : u32 irq ≡ irq = omega arith in
      rw (same, lt→ltb irq irq_max small, ==_refl irq, ne→== handler 0 some_handler) refl

  spares :
      (j : ℕ) (a : LocalApic)
      → j < irq_max
      → j ≢ irq
      → cpu_interrupt j with_handler a ≡ cpu_interrupt j s a
  unfolding cpu_interrupt dispatch
  spares j a h ne = let same : u32 j ≡ j = omega arith in rw (same, ne→== j irq ne) refl

  -- If the lock is free, registering a handler of an interrupt makes it the one that is called, after
  -- the interrupt is acknowledged; the handlers of the other interrupts stay, the vector is 0x40 and
  -- the interrupt, and the stub is behind that vector. The lock and the interrupt flag are as before.
  pub register-Registered :
      (s' : Interrupts) × (intr_register_irq_handler stub irq handler s m ≡ done (s', m))
      × Registered stub irq handler s s'
  register-Registered = (
    with_handler,
    registers,
    record {
      unlocked = refl;
      called = calls;
      others = spares;
      vector = ground arith;
      gate = λ v. ground arith;
    },
  )

-- An interrupt whose handler is registered is enabled under the handler's vector.
pub intr_irq_enable-Enables :
    (stub : ℕ → ℕ) (irq handler cpu_mask : ℕ) (s s' : Interrupts) (a : IoApic) (m : Machine)
    → Registered stub irq handler s s'
    → irq < irq_max
    → a.lock ≡ 0
    → io_apic_interrupt_override a irq < num_entries
    → cpu_mask < 2 ^ 8
    → (a' : IoApic) × (intr_irq_enable irq cpu_mask s' a m ≡ done (a', m))
      × Enables irq (irq_base + irq) cpu_mask a a'
unfolding intr_irq_enable
intr_irq_enable-Enables stub irq handler cpu_mask s s' a m r small free lt hm =
    let (a', run, e) =
      enable_irq-Enables a m irq (irq_base + irq) cpu_mask free lt (omega arith) hm in
    (a', rw (lt→ltb irq irq_max small, r.vector) run, e)
