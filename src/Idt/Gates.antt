-- ===== src/Idt/Gates.antt =====
-- src/cpu.c: what the processor finds behind a vector.
use smor.Prelude.{
  ℕ, zero, suc, ◌+◌, ◌*◌, ◌%◌, ◌^◌, ◌<◌, ◌≤◌, ◌≡◌, ◌≢◌, refl, ◌∙◌, ◌==◌, ltb, if◌then◌else◌, arith,
  ==_refl, ne→==, ◌⊎◌, inl, inr, Bool-cases, eq_of_test, subst, sym,
}
use smor.Idt.{
  IdtEntry, idt_set, interrupt_gate, trap_gate, cpu_exceptions, set_gates, idt_init,
  cpu_interrupt_set,
}

-- the address that the processor puts together from a gate
abbrev pub target : IdtEntry → ℕ
target e = e.offset0 + 2 ^ 16 * e.offset1 + 2 ^ 32 * e.offset2

-- the gate leads to the function at `handler`, in the kernel's code segment, by a gate of the type
abbrev pub LeadsTo : (type handler : ℕ) → IdtEntry → Type 0
LeadsTo type handler e =
    (target e ≡ handler) × (e.type ≡ type) × (e.selector ≡ 8) × (e.reserved ≡ 0)

pub idt_set-LeadsTo :
    (index type handler : ℕ) (table : ℕ → IdtEntry)
    → handler < 2 ^ 64
    → LeadsTo type handler (idt_set index type handler table index)
unfolding idt_set
idt_set-LeadsTo index type handler table lt = rw (==_refl index) (omega arith, refl, refl, refl)

idt_set_other :
    (index type handler i : ℕ) (table : ℕ → IdtEntry)
    → i ≢ index
    → idt_set index type handler table i ≡ table i
unfolding idt_set
idt_set_other index type handler i table ne = rw (ne→== i index ne) refl

set_gates_outside :
    (n i type v : ℕ) (handler : ℕ → ℕ) (table : ℕ → IdtEntry)
    → (v < i) ⊎ (i + n ≤ v)
    → set_gates n i type handler table v ≡ table v
unfolding set_gates
set_gates_outside zero i type v handler table out = refl
set_gates_outside (suc n) i type v handler table out =
    set_gates_outside n (i + 1) type v handler (idt_set i type (handler i) table) (ground arith)
    ∙ idt_set_other i type (handler i) v table (ground arith)

set_gates-LeadsTo :
    (n i type v : ℕ) (handler : ℕ → ℕ) (table : ℕ → IdtEntry)
    → i ≤ v
    → v < i + n
    → handler v < 2 ^ 64
    → LeadsTo type (handler v) (set_gates n i type handler table v)
unfolding set_gates
set_gates-LeadsTo zero i type v handler table lo hi lt = absurd (omega arith)
set_gates-LeadsTo (suc n) i type v handler table lo hi lt = elim (Bool-cases (v == i)) [
  | inl e ↦
      let same = eq_of_test v i e in
      let next = idt_set i type (handler i) table in
      subst (λ x. LeadsTo type (handler x) (set_gates n (i + 1) type handler next x)) (sym same)
        (rw (set_gates_outside n (i + 1) type i handler next (inl (omega arith)))
          (idt_set-LeadsTo i type (handler i) table (subst (λ x. handler x < 2 ^ 64) same lt)))
  | inr ne ↦
      set_gates-LeadsTo n (i + 1) type v handler (idt_set i type (handler i) table)
        (ground (arith, ne)) (omega arith) lt
]

module _ (trap : ℕ → ℕ) (spurious : ℕ) (traps_fit : (i : ℕ) → trap i < 2 ^ 64)
    (spurious_fits : spurious < 2 ^ 64) where
  exceptions_fit : (i : ℕ) → cpu_exceptions trap spurious i < 2 ^ 64
  unfolding cpu_exceptions
  exceptions_fit i = ground (arith, traps_fit i)

  -- After `idt_init` each of the first 32 vectors leads by a trap gate to the function of its
  -- exception, and every other one by an interrupt gate to the function for spurious interrupts. All
  -- 64 bits of an address come back from the three parts of its gate.
  pub idt_init-LeadsTo :
      (table : ℕ → IdtEntry) (v : ℕ)
      → v < 256
      → LeadsTo
          (if ltb v 32 then trap_gate else interrupt_gate)
          (if ltb v 32 then cpu_exceptions trap spurious v else spurious)
          (idt_init trap spurious table v)
  unfolding idt_init
  idt_init-LeadsTo table v lt =
      let first = set_gates 32 0 trap_gate (cpu_exceptions trap spurious) table in
      elim (Bool-cases (ltb v 32)) [
        | inl low ↦
            rw
              (
                low,
                set_gates_outside 224 32 interrupt_gate v (λ _. spurious) first
                    (inl (ground (arith, low))),
              )
              (set_gates-LeadsTo 32 0 trap_gate v (cpu_exceptions trap spurious) table (omega arith)
                (ground (arith, low)) (exceptions_fit v))
        | inr high ↦ rw high (
            set_gates-LeadsTo 224 32 interrupt_gate v (λ _. spurious) first (ground (arith, high))
              (omega arith) spurious_fits)
      ]

-- `cpu_interrupt_set` puts a function behind one vector, and leaves the others
-- as they were.
pub cpu_interrupt_set-target :
    (vector handler v : ℕ) (table : ℕ → IdtEntry)
    → handler < 2 ^ 64
    → target (cpu_interrupt_set vector handler table v)
      ≡ (if v == vector % 2 ^ 8 then handler else target (table v))
unfolding cpu_interrupt_set idt_set
cpu_interrupt_set-target vector handler v table lt = elim (Bool-cases (v == vector % 2 ^ 8)) [
  | inl e ↦ rw e (omega arith)
  | inr ne ↦ rw ne refl
]
