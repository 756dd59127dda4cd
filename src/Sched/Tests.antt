-- ===== src/Sched/Tests.antt =====
-- A processor with the idle thread 1 and the threads 2 and 3, the last of which sleeps.
use smor.Prelude.{ℕ, ◌<◌, ◌≡◌, refl, arith, true, false, [], ◌∷◌, update, done}
use smor.Thread.{Thread, Cpu, Machine, new_thread}
use smor.Sched.{asleep, sched_check_sleeping}
use smor.Sched.Ring.{Walk}
use smor.Sched.Sleep.{
  Ticked, count_due, check_sleeping-Ticked, sleep_ticks, IsWoken, sleep_tick-sleeps,
}

abbrev sleeper : Thread
sleeper = record (new_thread 4096) { next = 1; prev = 2; state = 1; flags = 1; sleep_time = 3 }

abbrev mem : ℕ → Thread
mem =
    update
      (update
        (update (λ _. new_thread 4096) 1 (record (new_thread 4096) { next = 2; prev = 3; cnt = 0 }))
        2 (record (new_thread 4096) { next = 3; prev = 1; cnt = 5 }))
      3 sleeper

abbrev cpu : Cpu
cpu = record {
  threads = 1;
  cur_thread = 1;
  idle_thread = 1;
  lock = 1;
  apic_id = 0;
  flags = 1;
  id_cnt = 2;
  spl = 0;
}

abbrev machine : Machine
machine = record { mem = mem; cpus = λ _. cpu; this = 0; interrupts = false }

round : Walk mem 2 (3 ∷ 1 ∷ []) 2
round = (refl, omega arith, (refl, omega arith, refl))

check_sleeping-Ticked_example :
    (mem' : ℕ → Thread) × (sched_check_sleeping 3 mem 2
      ≡ done (count_due mem (2 ∷ 3 ∷ 1 ∷ []), mem'))
    × Ticked mem (2 ∷ 3 ∷ 1 ∷ []) mem'
check_sleeping-Ticked_example =
    check_sleeping-Ticked 3 mem 2 (3 ∷ 1 ∷ []) (omega arith) (refl, (refl, (refl, tt))) round

sleep_tick-sleeps_case :
    ((k : ℕ) → k < 3 → asleep (sleep_ticks k sleeper) ≡ true) × IsWoken (sleep_ticks 3 sleeper)
sleep_tick-sleeps_case = sleep_tick-sleeps sleeper refl (omega arith) (omega arith)
