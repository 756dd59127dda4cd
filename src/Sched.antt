-- ===== src/Sched.antt =====
-- src/sched.c: the scheduler of one processor. Its threads are a queue through `next` and `prev` whose
-- head is the idle thread. `context_switch` is assembly: it goes on in the thread switched to, where
-- that thread was left, so here only the current thread changes. A
-- loop that has used up its fuel counts as one that does not end.
pub mod Ring
pub mod Find
pub mod Sleep
pub mod Refill
pub mod Next
mod Tests
use smor.Prelude.{
  ℕ, zero, suc, ◌+◌, ◌-◌, ◌*◌, ◌/◌, ◌%◌, Bool, true, false, ◌&&◌, not, ◌==◌, ltb, if◌then◌else◌,
  update, Outcome, done, hang, ◌>>=◌, ◌>>◌, u32, u64, sub32,
}
use smor.Thread.{
  Thread, Cpu, Machine, thread_default_pri, thread_state_running, thread_state_sleeping,
  queue_push_back, set_cpu, cpu_lock_splhi, cpu_unlock_splx,
}

-- THREAD_FLAG_SLEEP_TIMER is bit 0
abbrev pub has_sleep_timer : ℕ → Bool
has_sleep_timer flags = flags % 2 == 1

abbrev pub set_sleep_timer : ℕ → ℕ
set_sleep_timer flags = if has_sleep_timer flags then flags else flags + 1

abbrev pub clear_sleep_timer : ℕ → ℕ
clear_sleep_timer flags = if has_sleep_timer flags then flags - 1 else flags

abbrev pub running : Thread → Bool
running t = t.state == thread_state_running

abbrev pub setup_idle_thread : Cpu → Thread
setup_idle_thread cpu = record {
  next = 0;
  prev = 0;
  next_wait = 0;
  ctx = 0;
  stack = 0;
  ticks = 0;
  id = 0;
  cpu_id = cpu.apic_id;
  state = thread_state_running;
  sleep_time = 0;
  flags = 0;
  pri = thread_default_pri;
  cnt = thread_default_pri;
}

pub sched_init_cpu : ℕ → Machine → Machine
sched_init_cpu i m =
    let cpu = m.cpus i in
    let t = cpu.idle_thread in
    let (threads, mem) = queue_push_back (update m.mem t (setup_idle_thread cpu)) cpu.threads t in
    record m {
      mem = mem;
      cpus = update m.cpus i (record cpu { threads = threads; cur_thread = t });
    }

-- one round of `sched_check_sleeping`
abbrev pub asleep : Thread → Bool
asleep t = (t.state == thread_state_sleeping) && has_sleep_timer t.flags

abbrev pub wakes : Thread → Bool
wakes t = asleep t && (sub32 t.sleep_time 1 == 0)

unfoldable pub sleep_tick : Thread → Thread
sleep_tick t =
    if asleep t
    then (if sub32 t.sleep_time 1 == 0
        then record t {
          sleep_time = 0;
          state = thread_state_running;
          flags = clear_sleep_timer t.flags;
          cnt = t.pri;
        }
        else record t { sleep_time = sub32 t.sleep_time 1 })
    else t

-- the do loop: fuel, the number of threads woken, the thread `t`
check_sleeping_from :
    ℕ → (begin : ℕ) → (mem : ℕ → Thread) → (num_wakeups t : ℕ) → Outcome (ℕ × (ℕ → Thread))
check_sleeping_from zero begin mem num_wakeups t = hang
check_sleeping_from (suc fuel) begin mem num_wakeups t =
    let mem1 = update mem t (sleep_tick (mem t)) in
    let woken = if wakes (mem t) then num_wakeups + 1 else num_wakeups in
    let rest = check_sleeping_from fuel begin mem1 woken ((mem1 t).next) in
    if (mem1 t).next == begin then done (woken, mem1) else rest

pub sched_check_sleeping : ℕ → (mem : ℕ → Thread) → (begin : ℕ) → Outcome (ℕ × (ℕ → Thread))
unfolding check_sleeping_from
sched_check_sleeping fuel mem begin = check_sleeping_from fuel begin mem 0 begin

-- the do loop of `sched_find`; `above` is `cnt + 1`, since `cnt` starts at -1
abbrev pub better : Thread → ℕ → Bool
better t above = running t && ltb above (t.cnt + 1)

find_from : ℕ → (begin : ℕ) → (mem : ℕ → Thread) → (above next_thread t : ℕ) → Outcome ℕ
find_from zero begin mem above next_thread t = hang
find_from (suc fuel) begin mem above next_thread t =
    let above1 = if better (mem t) above then (mem t).cnt + 1 else above in
    let next1 = if better (mem t) above then t else next_thread in
    let rest = find_from fuel begin mem above1 next1 ((mem t).next) in
    if (mem t).next == begin then done next1 else rest

pub sched_find : ℕ → (mem : ℕ → Thread) → (begin : ℕ) → Outcome ℕ
unfolding find_from
sched_find fuel mem begin = find_from fuel begin mem 0 begin begin

-- one round of the loop of `sched_next`, and the loop from `t` to the head
abbrev pub refill : Thread → Thread
refill t = record t { cnt = t.cnt / 2 + t.pri }

pub refill_from : ℕ → (threads : ℕ) → (mem : ℕ → Thread) → (t : ℕ) → Outcome (ℕ → Thread)
refill_from zero threads mem t = hang
refill_from (suc fuel) threads mem t =
    let mem1 = update mem t (refill (mem t)) in
    let rest = refill_from fuel threads mem1 ((mem1 t).next) in
    if t == threads then done mem else rest

-- the choice of the next thread: the thread, and memory after the refill
pub sched_choose : ℕ → (mem : ℕ → Thread) → (threads : ℕ) → Outcome (ℕ × (ℕ → Thread))
unfolding refill_from sched_find
sched_choose fuel mem threads = do
  first ← sched_find fuel mem ((mem threads).next)
  if (mem first).cnt == 0
      then (do
        mem1 ← refill_from fuel threads mem ((mem threads).next)
        next_thread ← sched_find fuel mem1 ((mem1 threads).next)
        done (next_thread, mem1))
      else done (first, mem)

pub switch_to : ℕ → (next_thread : ℕ) → Machine → Machine
switch_to i next_thread m =
    let cpu = m.cpus i in
    let this = cpu.cur_thread in
    if next_thread == this then m else record m {
      cpus = update m.cpus i (record cpu { cur_thread = next_thread });
      mem = update m.mem this (record (m.mem this) { ticks = u64 ((m.mem this).ticks + 1) });
    }

pub sched_next : ℕ → (i : ℕ) → Machine → Outcome Machine
unfolding sched_choose switch_to
sched_next fuel i m = do
  (next_thread, mem) ← sched_choose fuel m.mem ((m.cpus i).threads)
  done (switch_to i next_thread (record m { mem = mem }))

-- The counter is decremented as an `int`: from 0 it goes to -1, and then to 0 as below.
pub sched_tick : ℕ → (i : ℕ) → Machine → Outcome Machine
unfolding sched_next sched_check_sleeping
sched_tick fuel i m = do
  (woken, mem) ← sched_check_sleeping fuel m.mem ((m.mem ((m.cpus i).threads)).next)
  let cur = (m.cpus i).cur_thread
  let ticked = record (mem cur) { ticks = u64 ((mem cur).ticks + 1); cnt = (mem cur).cnt - 1 }
  let m1 = record m { mem = update mem cur ticked }
  if ltb 0 ticked.cnt then done m1 else sched_next fuel i m1

unfoldable pub sched_yield_locked : ℕ → (i : ℕ) → Machine → Outcome Machine
unfolding sched_next
sched_yield_locked fuel i m =
    let cur = (m.cpus i).cur_thread in
    sched_next fuel i
      (record m { mem = update m.mem cur (record (m.mem cur) { state = thread_state_sleeping }) })

-- After the switch the code goes on in a thread that unlocks the same processor: it was left at this
-- place of its own, or starts in `thread_start`.
pub sched_yield : ℕ → Machine → Outcome Machine
unfolding sched_yield_locked
sched_yield fuel m = do
  m1 ← cpu_lock_splhi m
  m2 ← sched_yield_locked fuel m1.this m1
  done (cpu_unlock_splx m2.this m2)

pub sched_sleep : ℕ → (ms : ℕ) → Machine → Outcome Machine
unfolding sched_next
sched_sleep fuel ms m = do
  m1 ← cpu_lock_splhi m
  let cpu = m1.cpus m1.this
  let cur = cpu.cur_thread
  let thread = m1.mem cur
  let slept = record thread {
    state = thread_state_sleeping;
    sleep_time = ms;
    flags = set_sleep_timer thread.flags;
  }
  if cur == cpu.threads then done (cpu_unlock_splx m1.this m1) else (do
    m2 ← sched_next fuel m1.this (record m1 { mem = update m1.mem cur slept })
    done (cpu_unlock_splx m2.this m2))
