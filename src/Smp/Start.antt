-- ===== src/Smp/Start.antt =====
-- src/cpu.c: `cpu_smp_init` and the processors that get the timer's interrupt.
use smor.Prelude.{
  ℕ, zero, suc, ◌/◌, ◌^◌, ◌<◌, ◌≡◌, ◌≢◌, ◌↔◌, ◌⊎◌, inl, inr, refl, ◌∙◌, sym, subst, Bool-cases,
  ◌==◌, done, arith, digit, digit-mod, digit-pow_same, digit-pow_ne, u8, eq_of_test, ==_refl,
  lt→ltb,
}
use smor.Thread.Spl.{splx-splhi}
use smor.LocalApic.{lapic_id, local_apic_id}
use smor.IoApic.{IoApic, io_apic_interrupt_override}
use smor.IoApic.Table.{num_entries, Enables, enable_irq-Enables}
use smor.Interrupt.{intr_irq_enable}
use smor.Smp.{System, irq_timer, start_others, wait_online, cpu_smp_init, boot_enable_ap}
use smor.Smp.Mask.{
  Keeps, Keeps-refl, Keeps-trans, Names, Small, collect, init_others-collect, collect-byte,
  collect-Keeps, start_others-Keeps, collect-mask,
}
use smor.Smp.Ipi.{
  InitSent-later, Started, Started-later, startups, collect-InitSent, start_others-Started,
  collect_quiet, start_others-num_cpus,
}

-- the number of times that the loop of `cpu_smp_init` has waited
unfoldable pub waited : (wait : (ms : ℕ) → System → System) → ℕ → System → System
waited wait zero s = s
waited wait (suc n) s = waited wait n (wait 1 s)

-- the identifier of the processor that starts the others
abbrev pub bsp_id : System → ℕ
bsp_id s = s.local.regs lapic_id / 2 ^ 24

-- every processor of the list but the one that starts them was sent an INIT and then a STARTUP
abbrev pub AllStarted : (bsp : ℕ) → System → Type 0
AllStarted bsp s =
    (j : ℕ)
    → j < s.local.num_cpus
    → (s.local.cpus j).apic_id ≢ bsp
    → Started (s.local.cpus j).apic_id s.local.written

-- What the interrupts and the other processors do while `cpu_wait` waits, on the machine that starts
-- in the state `s0`: they leave the list of the processors, the tables of interrupts and `boot_ap` as
-- they are, and may write to the controller. Before the first STARTUP no processor counts itself. Once
-- the processor that starts the others is counted alone, `boot_ap` is set and every other one of the
-- list was sent an INIT and a STARTUP, after the 200 ms and `rounds` rounds of 1 ms all are counted.
pub record Waits (wait : (ms : ℕ) → System → System) (rounds : ℕ) (s0 : System) : Type 0 where
  pub keeps : (ms : ℕ) (s : System) → Keeps s (wait ms s)
  pub quiet :
      (ms : ℕ) (s : System) → startups s.local.written ≡ 0 → (wait ms s).num_cpus ≡ s.num_cpus
  pub online :
      (s : System)
      → s.local.cpus ≡ s0.local.cpus
      → s.local.num_cpus ≡ s0.local.num_cpus
      → s.num_cpus ≡ 1
      → s.boot_ap ≡ 1
      → AllStarted (bsp_id s0) s
      → let s' = waited wait rounds (wait 200 s) in s'.num_cpus ≡ s'.local.num_cpus

-- `s'` is `s` with the others started and the timer's entry enabled for the processors of `mask`
pub record Enabled (s s' : System) (mask : ℕ) : Type 0 where
  pub started : AllStarted (bsp_id s) s'
  pub entries : Enables irq_timer (s.intr.irq_handlers irq_timer).vector mask s.io s'.io
  pub byte : mask < 2 ^ 8
  pub kept_cpus : s'.local.cpus ≡ s.local.cpus
  pub members :
      (k : ℕ)
      → k < 8
      → (digit mask k ≡ 1) ↔ ((bsp_id s ≡ k) ⊎ Names s.local.cpus 0 s.local.num_cpus k)

module _ (wait : (ms : ℕ) → System → System) (rounds : ℕ) (s0 : System)
    (w : Waits wait rounds s0) where
  wait_online-ends :
      (n fuel : ℕ) (s : System)
      → n < fuel
      → (waited wait n s).num_cpus ≡ (waited wait n s).local.num_cpus
      → (s' : System) × (wait_online wait fuel s ≡ done s') × Keeps s s'
  unfolding wait_online waited
  wait_online-ends n zero s lt e = absurd (omega (arith, lt))
  wait_online-ends zero (suc fuel) s lt e = (s, rw (e, ==_refl s.local.num_cpus) refl, Keeps-refl s)
  wait_online-ends (suc n) (suc fuel) s lt e = elim (Bool-cases (s.num_cpus == s.local.num_cpus)) [
    | inl all ↦ (s, rw all refl, Keeps-refl s)
    | inr more ↦
        let (s', run, k) = wait_online-ends n fuel (wait 1 s) (omega (arith, lt)) e in
        (s', rw more run, Keeps-trans s (wait 1 s) s' (w.keeps 1 s) k)
  ]

  bsp-digit : (id k : ℕ) → k < 8 → (digit (u8 (2 ^ id)) k ≡ 1) ↔ (id ≡ k)
  bsp-digit id k h = elim (Bool-cases (id == k)) [
    | inl this ↦
        let e = eq_of_test id k this in
        (λ _. e, λ _. digit-mod 8 k (2 ^ id) h ∙ rw e (digit-pow_same k))
    | inr ne ↦
        let absent : id ≢ k = λ e. ground (arith, ne, e) in
        let none : digit (u8 (2 ^ id)) k ≡ 0 =
          digit-mod 8 k (2 ^ id) h ∙ digit-pow_ne k id absent in
        (λ e. absurd (omega (arith, none, e)), λ e. absurd (absent e))
  ]

  -- the interrupt of the timer, under the tables that a system has kept
  enables :
      (s s5 : System) (mask : ℕ)
      → Keeps s s5
      → s.io.lock ≡ 0
      → (s.intr.irq_handlers irq_timer).vector < 2 ^ 8
      → io_apic_interrupt_override s.io irq_timer < num_entries
      → mask < 2 ^ 8
      → (a' : IoApic) × (intr_irq_enable irq_timer mask s5.intr s5.io s5.machine
          ≡ done (a', s5.machine))
        × Enables irq_timer (s.intr.irq_handlers irq_timer).vector mask s.io a'
  unfolding intr_irq_enable
  enables s s5 mask k free small entry byte =
      let (a', run, e) =
        enable_irq-Enables s.io s5.machine irq_timer (s.intr.irq_handlers irq_timer).vector mask
          free entry small byte in
      (a', rw (k.same_intr, k.same_io) run, e)

  members :
      (s : System) (mask k : ℕ)
      → k < 8
      → (digit mask k ≡ 1)
        ↔ ((digit (u8 (2 ^ bsp_id s)) k ≡ 1) ⊎ Names s.local.cpus 0 s.local.num_cpus k)
      → (digit mask k ≡ 1) ↔ ((bsp_id s ≡ k) ⊎ Names s.local.cpus 0 s.local.num_cpus k)
  members s mask k h (to, from) =
      let (up, down) = bsp-digit (bsp_id s) k h in
      (
        λ e. elim (to e) [ inl b ↦ inl (up b) | inr n ↦ inr n ],
        elim [ inl b ↦ from (inl (down b)) | inr n ↦ from (inr n) ],
      )

  -- what the two loops and the waiting between them do: all the others are started, and nobody else
  -- is counted yet
  starts :
      (s1 : System) (bsp n start : ℕ)
      → s1.local.num_cpus ≡ n
      → s1.num_cpus ≡ 1
      → s1.boot_ap ≡ 1
      → startups s1.local.written ≡ 0
      → Small s1.local.cpus 0 n
      → let s3 = wait 10 (collect n 0 bsp start s1).1 in
        let s4 = start_others s3.local.num_cpus 0 bsp s3 in
        Keeps s1 s4 × (s4.num_cpus ≡ 1) × (s4.boot_ap ≡ 1) × AllStarted bsp s4
  starts s1 bsp n start count alone boot none small =
      let s2 = (collect n 0 bsp start s1).1 in
      let s3 = wait 10 s2 in
      let m = s3.local.num_cpus in
      let s4 = start_others m 0 bsp s3 in
      let to2 = collect-Keeps n 0 bsp start s1 in
      let to3 = Keeps-trans s1 s2 s3 to2 (w.keeps 10 s2) in
      let to4 = Keeps-trans s1 s3 s4 to3 (start_others-Keeps m 0 bsp s3) in
      let quiet = collect_quiet n 0 bsp start s1 in
      let same : m ≡ n = to3.same_count ∙ count in
      let small3 : Small s1.local.cpus 0 m = rw same small in
      (
        to4,
        start_others-num_cpus m 0 bsp s3 ∙ w.quiet 10 s2 (quiet.0 ∙ none) ∙ quiet.1 ∙ alone,
        to4.same_boot ∙ boot,
        λ j lt.
            subst (λ c. (c j).apic_id ≢ bsp → Started (c j).apic_id s4.local.written)
              (sym to4.same_cpus)
              (λ other.
                let within : j < n = omega (arith, lt, to4.same_count, count) in
                start_others-Started m 0 bsp s3 s1.local.cpus to3.same_cpus small3 j (omega arith)
                  (omega (arith, within, same)) other
                  (InitSent-later (s1.local.cpus j).apic_id s2 s3 (w.keeps 10 s2) (
                    collect-InitSent n 0 bsp start s1 s1.local.cpus refl small j (omega arith)
                      (omega (arith, within)) other))),
      )

  AllStarted-later : (bsp : ℕ) (s s' : System) → Keeps s s' → AllStarted bsp s → AllStarted bsp s'
  AllStarted-later bsp s s' k all j lt =
      subst (λ c. (c j).apic_id ≢ bsp → Started (c j).apic_id s'.local.written) (sym k.same_cpus)
        (λ other.
          Started-later (s.local.cpus j).apic_id s s' k
            (all j (omega (arith, lt, k.same_count)) other))

  -- On a machine that waits as `Waits` says from the state at the start, with more fuel than rounds, no
  -- STARTUP sent before, all identifiers below 31, the lock of the I/O interrupt controller free, a
  -- byte as the timer's vector and the timer's override inside the table, `cpu_smp_init` ends. Then
  -- every processor of the list but the one that runs was sent an INIT and later a STARTUP; the timer's
  -- entry is enabled under its vector for a mask of processors, and the other entries are as before.
  -- The mask is a byte, and for `k` below 8 it has the bit `k` exactly if the processor that runs or one of the list has
  -- the identifier `k`.
  pub cpu_smp_init-Enabled :
      (fuel : ℕ)
      → rounds < fuel
      → startups s0.local.written ≡ 0
      → bsp_id s0 < 31
      → Small s0.local.cpus 0 s0.local.num_cpus
      → s0.io.lock ≡ 0
      → (s0.intr.irq_handlers irq_timer).vector < 2 ^ 8
      → io_apic_interrupt_override s0.io irq_timer < num_entries
      → (mask : ℕ) × (s' : System) × (cpu_smp_init wait fuel s0 ≡ done s') × Enabled s0 s' mask
  unfolding cpu_smp_init local_apic_id
  cpu_smp_init-Enabled fuel enough none low ids free vector entry =
      let bsp = bsp_id s0 in
      let start = u8 (2 ^ bsp) in
      let s1 = boot_enable_ap (record s0 { num_cpus = 1 }) in
      let n = s0.local.num_cpus in
      let (mask, s2) = collect n 0 bsp start s1 in
      let s3 = wait 10 s2 in
      let s4 = start_others s3.local.num_cpus 0 bsp s3 in
      let (to4, alone, boot, all) = starts s1 bsp n start refl refl refl none ids in
      let to5 = Keeps-trans s1 s4 (wait 200 s4) to4 (w.keeps 200 s4) in
      let arrive = w.online s4 to4.same_cpus to4.same_count alone boot all in
      let (s6, online, k6) = wait_online-ends rounds fuel (wait 200 s4) enough arrive in
      let to6 = Keeps-trans s1 (wait 200 s4) s6 to5 k6 in
      let byte = collect-byte n 0 bsp start s1 (omega arith) in
      let (io, run, e) = enables s1 s6 mask to6 free vector entry byte in
      let s7 = record s6 { io = io } in
      let k7 = w.keeps 10 s7 in
      let from4 = Keeps-trans s4 (wait 200 s4) s6 (w.keeps 200 s4) k6 in
      let inits = init_others-collect n 0 bsp start s1 s0.local.cpus refl ids in
      (
        mask,
        wait 10 s7,
        rw (splx-splhi s0.machine, lt→ltb bsp 31 low, inits, online, run) refl,
        record {
          started = AllStarted-later bsp s7 (wait 10 s7) k7 (AllStarted-later bsp s4 s6 from4 all);
          entries =
              subst (Enables irq_timer (s0.intr.irq_handlers irq_timer).vector mask s0.io)
                (sym k7.same_io) e;
          byte = byte;
          kept_cpus = k7.same_cpus ∙ to6.same_cpus;
          members = λ k h.
              members s0 mask k h (
                collect-mask n 0 bsp start k s1 s0.local.cpus refl h
                  (λ e. (bsp-digit bsp k h).1 e));
        },
      )
