-- ===== src/Console/Tests.antt =====
-- Two messages wait, and a text of three bytes comes that does not fit behind the others.
use smor.Prelude.{ℕ, ◌≡◌, refl, true, [], ◌∷◌, List, ◌==◌, if◌then◌else◌, done, arith}
use smor.Thread.{Machine, new_thread}
use smor.Console.{ConsBuffer, ConsMsg, ConsMsgQueue, cons_putstr}
use smor.Console.Queue.{IsQueued, Stands, Copied, cons_putstr-Drains}

abbrev nearly_full : ConsBuffer
nearly_full = record { pos = 65535; buf = λ _. 0 }

abbrev first : ConsMsg
first = record { pos = 65000; size = 500 }

abbrev second : ConsMsg
second = record { pos = 65500; size = 35 }

abbrev two_wait : ConsMsgQueue
two_wait = record {
  msg = λ i. if i == 31 then first else second;
  write_pos = 33;
  read_pos = 31;
  run_lock = 0;
  lock = 0;
}

two_wait-IsQueued : IsQueued two_wait (first ∷ second ∷ [])
unfolding Stands
two_wait-IsQueued = record {
  ends = refl;
  few = omega arith;
  unwrapped = omega arith;
  stands = (refl, (refl, refl));
}

abbrev machine : Machine
machine = record {
  mem = λ _. new_thread 4096;
  cpus = λ _. record {
    threads = 1;
    cur_thread = 1;
    idle_thread = 1;
    lock = 0;
    apic_id = 0;
    flags = 1;
    id_cnt = 2;
    spl = 0;
  };
  this = 0;
  interrupts = true;
}

abbrev hey : List ℕ
hey = 104 ∷ 101 ∷ 121 ∷ []

cons_putstr-Drains_example :
    (pos : ℕ) × (b' : ConsBuffer) × (q' : ConsMsgQueue) × (cons_putstr 4 hey nearly_full two_wait
        machine
      ≡ done (b', q', machine))
    × Copied hey pos nearly_full b'
    × IsQueued q' []
    × (q'.lock ≡ 0)
    × (q'.run_lock ≡ 0)
cons_putstr-Drains_example =
    cons_putstr-Drains 4 hey nearly_full two_wait (first ∷ second ∷ []) machine two_wait-IsQueued
      (omega arith) (omega arith) (omega arith) refl refl (omega arith) (omega arith)
