-- ===== src/Acpi/Tests.antt =====
-- A table with a processor and an override, an area without a root pointer, and the theorems at them.
use smor.Prelude.{ℕ, ◌≡◌, refl, [], ◌∷◌, done, arith, get_or}
use smor.Acpi.{Apics, parse_apics}
use smor.Acpi.Madt.{apic_ids, overrides, Registers, parse_apics-Registers}

abbrev entries : ℕ → ℕ
entries a =
    get_or (0 ∷ 8 ∷ 1 ∷ 5 ∷ 1 ∷ 0 ∷ 0 ∷ 0 ∷ 2 ∷ 10 ∷ 0 ∷ 9 ∷ 20 ∷ 0 ∷ 0 ∷ 0 ∷ 0 ∷ 0 ∷ []) a 0

abbrev blank : Apics
blank = record {
  local = record {
    local_apic_addr = 0;
    num_cpus = 0;
    cpus = λ _. record { apic_id = 0; flags = 0 };
    written = [];
    regs = λ _. 0;
  };
  io = record {
    io_apic_addr = 0;
    id = 0;
    ver = 0;
    num_redtbl = 0;
    gsi_base = 0;
    regs = λ _. 0;
    lock = 0;
    iovr = [];
  };
}

one_cpu : apic_ids entries (0 ∷ 8 ∷ []) ≡ 5 ∷ []
unfolding apic_ids
one_cpu = refl

parse_apics-Registers_example :
    (a' : Apics) × (parse_apics 8 entries 0 18 blank ≡ done a')
    × Registers (apic_ids entries (0 ∷ 8 ∷ [])) (overrides entries (0 ∷ 8 ∷ [])) blank a'
unfolding apic_ids overrides
parse_apics-Registers_example =
    parse_apics-Registers 8 entries 0 18 (0 ∷ 8 ∷ []) blank
      (refl, omega arith, (refl, omega arith, omega arith)) (omega arith) (omega arith)
      (omega arith)
