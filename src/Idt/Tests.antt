-- ===== src/Idt/Tests.antt =====
-- Functions in the kernel's half of the address space, and the theorem at the vector 14.
use smor.Prelude.{ℕ, ◌+◌, ◌-◌, ◌*◌, ◌%◌, ◌^◌, ◌≡◌, refl, arith}
use smor.Idt.{IdtEntry, trap_gate, cpu_exceptions, idt_init, GdtTable, gdt_init, gdt_access_user}
use smor.Idt.Gates.{LeadsTo, idt_init-LeadsTo}

-- the addresses are words of 64 bits
abbrev traps : ℕ → ℕ
traps i = (2 ^ 64 - 2 ^ 31 + 16 * i) % 2 ^ 64

abbrev blank : ℕ → IdtEntry
blank _ = record { offset0 = 0; selector = 0; type = 0; offset1 = 0; offset2 = 0; reserved = 0 }

idt_init-LeadsTo_case :
    LeadsTo trap_gate (cpu_exceptions traps (2 ^ 63) 14) (idt_init traps (2 ^ 63) blank 14)
idt_init-LeadsTo_case =
    idt_init-LeadsTo traps (2 ^ 63) (λ i. omega arith) (omega arith) blank 14 (omega arith)

-- the user's segments differ from the kernel's in one bit
user_bit : (t : GdtTable) → (gdt_init t).user_code ≡ (gdt_init t).kernel_code + gdt_access_user
unfolding gdt_init
user_bit t = refl
