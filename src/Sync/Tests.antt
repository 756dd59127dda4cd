-- ===== src/Sync/Tests.antt =====
-- A semaphore on which the threads 2 and 1 wait.
use smor.Prelude.{refl, arith, inr, true, [], ◌∷◌, update}
use smor.Thread.{Cpu, Machine, new_thread}
use smor.Thread.Queue.{IsQueue}
use smor.Sync.{Sema}
use smor.Sync.Wait.{Blocks, wait-Blocks}
use smor.Sync.Semaphore.{IsSema, Signalled, signal-Signalled}

abbrev cpu : Cpu
cpu = record {
  threads = 1;
  cur_thread = 1;
  idle_thread = 1;
  lock = 0;
  apic_id = 0;
  flags = 1;
  id_cnt = 2;
  spl = 0;
}

abbrev machine : Machine
machine = record {
  mem = update (λ _. new_thread 4096) 2 (record (new_thread 4096) { next_wait = 1; state = 1 });
  cpus = λ _. cpu;
  this = 0;
  interrupts = true;
}

abbrev busy : Sema
busy = record { threads = record { head = 2; tail = 1 }; lock = 0; count = 0 }

busy-IsSema : IsSema machine.mem busy (2 ∷ 1 ∷ [])
busy-IsSema = record {
  waits = (refl, omega arith, (refl, (refl, tt)), (refl, omega arith, (refl, refl)));
  unlocked = refl;
  exclusive = inr refl;
}

signal-Signalled_example : Signalled busy machine (2 ∷ 1 ∷ [])
signal-Signalled_example =
    signal-Signalled busy machine (2 ∷ 1 ∷ []) busy-IsSema (omega arith) (λ _. refl)

-- the thread 3 runs, alone on its processor
abbrev lone : Machine
lone = record machine {
  mem = update machine.mem 3 (record (new_thread 4096) { next = 3; prev = 3 });
  cpus = λ _. record cpu { threads = 3; cur_thread = 3; idle_thread = 3 };
}

lone-IsSema : IsSema lone.mem busy (2 ∷ 1 ∷ [])
lone-IsSema = record {
  waits = (refl, omega arith, (refl, (refl, tt)), (refl, omega arith, (refl, refl)));
  unlocked = refl;
  exclusive = inr refl;
}

lone-IsQueue : IsQueue lone.mem 3 []
lone-IsQueue = (omega arith, (refl, tt), (refl, refl))

wait-Blocks_example : Blocks 1 busy lone (2 ∷ 1 ∷ []) []
wait-Blocks_example =
    wait-Blocks 1 busy lone (2 ∷ 1 ∷ []) [] lone-IsSema refl refl (omega arith) refl lone-IsQueue
      (omega arith)
