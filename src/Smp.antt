-- ===== src/Smp.antt =====
-- src/cpu.c and src/local_apic.c: the start of the processors. What the interrupts and the other
-- processors do while `cpu_wait` waits is the parameter `wait`; the boot code of the others is
-- assembly, and the code of `cpu_init_ap` after the interrupts are on is the idle loop.
pub mod Mask
pub mod Ipi
pub mod Start
mod Tests
use Prim.Native.Nat.{bit_or}
use smor.Prelude.{
  ℕ, zero, suc, ◌+◌, ◌*◌, ◌-◌, ◌/◌, ◌%◌, ◌^◌, Bool, ◌==◌, ltb, if◌then◌else◌, true, update, Outcome,
  done, hang, undefined, ◌>>=◌, ◌>>◌, u8, u32, u64,
}
use smor.Thread.{
  Machine, Cpu, cpu_splhi, cpu_splx, set_cpu, cpu_lock, cpu_unlock, cpu_lock_splhi, cpu_lock_id,
  cpu_unlock_splx, get_cpu_id,
}
use smor.Sched.{sched_tick, sched_init_cpu}
use smor.VmBoot.{BootTables}
use smor.IoApic.{IoApic, io_apic_init}
use smor.LocalApic.{
  LocalApic, max_cpus, bit_of, local_apic_init, local_apic_id, local_apic_ipi_init,
  local_apic_ipi_start, local_apic_write,
}
use smor.Interrupt.{
  Interrupts, intr_irq_enable, intr_register_irq_handler, intr_register_local_irq_handler,
}

-- `ticks` is the field of that name of each processor, `boot_ap` that of the boot information
pub record System : Type 0 where
  pub machine : Machine
  pub ticks : ℕ → ℕ
  pub local : LocalApic
  pub io : IoApic
  pub tables : BootTables
  pub intr : Interrupts
  pub num_cpus : ℕ
  pub boot_ap : ℕ

abbrev pub irq_timer : ℕ
irq_timer = 0

pub cpu_lock_smp : (id : ℕ) → Machine → Outcome Machine
cpu_lock_smp id m = if get_cpu_id m == id then cpu_lock_splhi m else cpu_lock_id id m

pub cpu_unlock_smp : (i : ℕ) → Machine → Machine
cpu_unlock_smp i m = if i == m.this then cpu_unlock_splx i m else cpu_unlock i m

-- `fuel` is that of the scheduler's loops
pub timer_irq_handler : (fuel : ℕ) → System → Outcome System
timer_irq_handler fuel s = do
  m1 ← cpu_lock s.machine
  let i = m1.this
  let ticks = update s.ticks i (u64 (s.ticks i + 1))
  m2 ← sched_tick fuel i m1
  done (record s { machine = cpu_unlock m2.this m2; ticks = ticks })

-- the processor that runs becomes the one of its identifier; past `cpus` the behaviour is undefined
pub cpu_init_desc : System → Outcome System
cpu_init_desc s =
    let (apic_id, m1) = local_apic_id s.local s.machine in
    let m2 =
      set_cpu (record m1 { this = apic_id }) apic_id
        (record (m1.cpus apic_id) { apic_id = apic_id }) in
    if ltb apic_id max_cpus then done (record s { machine = m2 }) else undefined

-- the flags of the processor that runs, and its threads
abbrev pub start_cpu : (flags : ℕ) → System → System
start_cpu flags s =
    let i = s.machine.this in
    let m1 = set_cpu s.machine i (record (s.machine.cpus i) { flags = flags }) in
    record s { machine = sched_init_cpu i m1 }

abbrev pub cpu_enable_interrupts : System → System
cpu_enable_interrupts s = record s { machine = record s.machine { interrupts = true } }

pub cpu_init_ap : System → Outcome System
unfolding cpu_init_desc
cpu_init_ap s = do
  (local, tables) ← local_apic_init s.local s.tables
  s1 ← cpu_init_desc (record s { num_cpus = u32 (s.num_cpus + 1); local = local; tables = tables })
  done (cpu_enable_interrupts (start_cpu 1 s1))

abbrev pub boot_enable_ap : System → System
boot_enable_ap s = record s { boot_ap = 1 }

abbrev pub send_init : (apic_id : ℕ) → System → System
send_init apic_id s =
    let (local, m) = local_apic_ipi_init apic_id s.local s.machine in
    record s { local = local; machine = m }

abbrev pub send_start : (apic_id : ℕ) → System → System
send_start apic_id s =
    let (local, m) = local_apic_ipi_start apic_id s.local s.machine in
    record s { local = local; machine = m }

-- the bit of a processor is added to the mask, unless it is the one that runs
abbrev pub add_others : (own : Bool) → (cpu_mask apic_id : ℕ) → Outcome ℕ
add_others own cpu_mask apic_id =
    if own then done cpu_mask else (do bit ← bit_of apic_id; done (u8 (bit_or cpu_mask bit)))

-- the loops of `cpu_smp_init` over the processors: the rounds left, the index
unfoldable pub init_others : ℕ → (i bsp_apic_id cpu_mask : ℕ) → System → Outcome (ℕ × System)
init_others zero i bsp_apic_id cpu_mask s = done (cpu_mask, s)
init_others (suc n) i bsp_apic_id cpu_mask s = do
  let apic_id = (s.local.cpus i).apic_id
  let own = apic_id == bsp_apic_id
  mask1 ← add_others own cpu_mask apic_id
  init_others n (i + 1) bsp_apic_id mask1 (if own then s else send_init apic_id s)

pub start_others : ℕ → (i bsp_apic_id : ℕ) → System → System
start_others zero i bsp_apic_id s = s
start_others (suc n) i bsp_apic_id s =
    let apic_id = (s.local.cpus i).apic_id in
    start_others n (i + 1) bsp_apic_id (if apic_id == bsp_apic_id then s else send_start apic_id s)

module _ (wait : (ms : ℕ) → System → System) where
  -- the loop that waits until all processors are there; fuel counts its rounds
  pub wait_online : ℕ → System → Outcome System
  wait_online zero s = hang
  wait_online (suc fuel) s =
      let rest = wait_online fuel (wait 1 s) in
      if s.num_cpus == s.local.num_cpus then done s else rest

  pub cpu_smp_init : (fuel : ℕ) → System → Outcome System
  cpu_smp_init fuel s = do
    let (bsp_apic_id, m1) = local_apic_id s.local s.machine
    let s1 = boot_enable_ap (record s { num_cpus = 1; machine = m1 })
    bit ← bit_of bsp_apic_id
    (cpu_mask, s2) ← init_others s1.local.num_cpus 0 bsp_apic_id (u8 bit) s1
    let s3 = wait 10 s2
    let s4 = wait 200 (start_others s3.local.num_cpus 0 bsp_apic_id s3)
    s5 ← wait_online fuel s4
    (io, m2) ← intr_irq_enable irq_timer cpu_mask s5.intr s5.io s5.machine
    done (wait 10 (record s5 { io = io; machine = m2 }))

  -- the count that is printed is `(u32 (ticks * 16)) / 64`
  pub local_apic_timer_init : System → ℕ × System
  local_apic_timer_init s =
      let (spl, m1) = cpu_splhi s.machine in
      let set =
        local_apic_write 0x380 0xffffffff
          (local_apic_write 0x320 (2 ^ 16) (local_apic_write 0x3E0 3 s.local)) in
      let s1 = wait 64 (record s { local = set; machine = cpu_splx spl m1 }) in
      let (spl1, m2) = cpu_splhi s1.machine in
      let ticks = 0xffffffff - s1.local.regs 0x390 in
      (u32 (ticks * 16) / 64, record s1 { machine = cpu_splx spl1 m2 })

  -- `stub` and `local_stub` are the stubs of src/isr.S, the handlers are addresses
  pub cpu_init : (stub local_stub : ℕ → ℕ) (timer_irq lapic_irq fuel : ℕ) → System → Outcome System
  unfolding cpu_init_desc
  cpu_init stub local_stub timer_irq lapic_irq fuel s = do
    (io, tables) ← io_apic_init s.io s.tables
    (local, tables1) ← local_apic_init s.local tables
    s1 ← cpu_init_desc (record s { io = io; local = local; tables = tables1 })
    let s2 = start_cpu (0x01 + 0x80) s1
    (intr, m) ← intr_register_local_irq_handler local_stub 0 0xf0 lapic_irq s2.intr s2.machine
    (intr1, m1) ← intr_register_irq_handler stub irq_timer timer_irq intr m
    bit ← bit_of (get_cpu_id m1)
    (io1, m2) ← intr_irq_enable irq_timer (u8 bit) intr1 s2.io m1
    let s3 = cpu_enable_interrupts (record s2 { intr = intr1; io = io1; machine = m2 })
    let (printed, s4) = local_apic_timer_init s3
    cpu_smp_init fuel s4
