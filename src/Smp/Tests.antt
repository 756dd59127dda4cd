-- ===== src/Smp/Tests.antt =====
-- Three processors, with the identifiers 0, 1 and 9, of which the first starts the others.
use smor.Prelude.{
  ℕ, zero, suc, ◌<◌, ◌≡◌, refl, ap, [], ◌∷◌, true, false, ◌==◌, if◌then◌else◌, done, undefined,
  ◌>>=◌, arith, get_or,
}
use smor.Thread.{Cpu, new_thread}
use smor.LocalApic.{LocalApic, local_apic_ipi_init, send_command}
use smor.IoApic.{io_apic_interrupt_override, override_in}
use smor.Smp.{System, cpu_smp_init, init_others}
use smor.Smp.Mask.{Keeps, Small}
use smor.Smp.Ipi.{startups, startups-Started}
use smor.Smp.Start.{AllStarted, Waits, Enabled, waited, cpu_smp_init-Enabled}

abbrev idle_cpu : Cpu
idle_cpu = record {
  threads = 1;
  cur_thread = 1;
  idle_thread = 1;
  lock = 0;
  apic_id = 0;
  flags = 1;
  id_cnt = 2;
  spl = 0;
}

abbrev three_cpus : LocalApic
three_cpus = record {
  local_apic_addr = 0xfee00000;
  num_cpus = 3;
  cpus = λ i. record { apic_id = get_or (0 ∷ 1 ∷ 9 ∷ []) i 0; flags = 0 };
  regs = λ _. 0;
  written = [];
}

abbrev system : System
system = record {
  machine = record {
    mem = λ _. new_thread 4096;
    cpus = λ _. idle_cpu;
    this = 0;
    interrupts = true;
  };
  ticks = λ _. 0;
  local = three_cpus;
  io = record {
    io_apic_addr = 0xfec00000;
    id = 0;
    ver = 0x20;
    num_redtbl = 24;
    gsi_base = 0;
    regs = λ _. 0;
    lock = 0;
    iovr = record { bus = 0; irq = 0; gsi = 2 } ∷ [];
  };
  tables = record { mem = λ _. 0; boot_page = 0x14000; lock = 0; invalidated = [] };
  intr = record {
    irq_handlers = λ _. record { handler = 0x1000; vector = 0x40 };
    lint_handlers = λ _. record { handler = 0; vector = 0 };
    intr_lock = 0;
    idt = λ _. 0;
  };
  num_cpus = 0;
  boot_ap = 0;
}

three_cpus-Small : Small three_cpus.cpus 0 3
three_cpus-Small zero low high = omega arith
three_cpus-Small (suc zero) low high = omega arith
three_cpus-Small (suc (suc zero)) low high = omega arith
three_cpus-Small (suc (suc (suc j))) low high = absurd (omega (arith, high))

-- every processor that the list names arrives during the first wait after a STARTUP
abbrev all_arrive : (ms : ℕ) → System → System
all_arrive ms s = record s {
  num_cpus = if startups s.local.written == 0 then s.num_cpus else s.local.num_cpus;
}

all_arrive-Keeps : (ms : ℕ) (s : System) → Keeps s (all_arrive ms s)
all_arrive-Keeps ms s = record {
  same_cpus = refl;
  same_count = refl;
  same_io = refl;
  same_intr = refl;
  same_boot = refl;
  later = ([], refl);
}

all_arrive-online :
    (s : System)
    → s.local.cpus ≡ three_cpus.cpus
    → s.local.num_cpus ≡ 3
    → AllStarted 0 s
    → let s' = waited all_arrive 1 (all_arrive 200 s) in s'.num_cpus ≡ s'.local.num_cpus
unfolding waited
all_arrive-online s cpus count all =
    let second : (s.local.cpus 1).apic_id ≡ 1 = ap (λ c. (c 1).apic_id) cpus in
    let sent = all 1 (omega (arith, count)) (λ e. omega (arith, e, second)) in
    let some : 0 < startups s.local.written =
      startups-Started (s.local.cpus 1).apic_id s.local.written sent in
    let one : (startups s.local.written == 0) ≡ false = ground (arith, some) in rw one refl

all_arrive-Waits : Waits all_arrive 1 system
all_arrive-Waits = record {
  keeps = all_arrive-Keeps;
  quiet = λ ms s none. rw none refl;
  online = λ s cpus count alone boot all. all_arrive-online s cpus count all;
}

cpu_smp_init-Enabled_example :
    (mask : ℕ) × (s' : System) × (cpu_smp_init all_arrive 2 system ≡ done s')
    × Enabled system s' mask
unfolding io_apic_interrupt_override override_in
cpu_smp_init-Enabled_example =
    cpu_smp_init-Enabled all_arrive 1 system all_arrive-Waits 2 (omega arith) refl (omega arith)
      three_cpus-Small refl (omega arith) (omega arith)

-- The processor with the identifier 9 has no bit in the mask.
only_two : (init_others 3 0 0 1 system >>= λ r. done (r.0)) ≡ done 3
unfolding init_others local_apic_ipi_init send_command
only_two = refl

-- An identifier that an int has no bit for makes the mask undefined.
too_large :
    init_others 1 0 0 1 (record system {
      local = record three_cpus { cpus = λ i. record { apic_id = 31; flags = 0 } };
    })
    ≡ undefined
unfolding init_others
too_large = refl
