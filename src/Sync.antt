-- ===== src/Sync.antt =====
-- src/semaphore.c and src/cond.c: threads that wait for one another. An object is a record beside the
-- machine. After a yield the code here goes on with the rest of the call, as it does when the
-- thread is switched to again.
pub mod Semaphore
pub mod Wait
mod Tests
use smor.Prelude.{
  ℕ, ◌+◌, ◌-◌, ◌^◌, Bool, true, false, ◌==◌, ltb, if◌then◌else◌, update, Outcome, done, hang,
  undefined, ◌>>=◌, ◌>>◌,
}
use smor.Thread.{
  Thread, ThreadList, Cpu, Machine, thread_list_init, thread_list_push, thread_list_pop,
  thread_list_empty, spinlock_lock, spinlock_unlock, cpu_splhi, cpu_splx, cpu_lock, cpu_lock_id,
  cpu_unlock, wake,
}
use smor.Sched.{sched_yield_locked}

-- `count` is an `int` that is never negative, for it is decremented only if it is positive
pub record Sema : Type 0 where
  pub threads : ThreadList
  pub lock : ℕ
  pub count : ℕ

pub record Condition : Type 0 where
  pub threads : ThreadList

pub sema_init : (count : ℕ) → Sema
sema_init count = record { threads = thread_list_init; lock = 0; count = count }

pub sema_wait : (fuel : ℕ) → Sema → Machine → Outcome (Sema × Machine)
unfolding thread_list_push
sema_wait fuel s m = do
  let (spl, m1) = cpu_splhi m
  held ← spinlock_lock s.lock
  if ltb 0 s.count
      then done (record s { count = s.count - 1; lock = spinlock_unlock held }, cpu_splx spl m1)
      else (do
        m2 ← cpu_lock m1
        let (tl, mem) = thread_list_push m2.mem s.threads ((m2.cpus m2.this).cur_thread)
        m3 ← sched_yield_locked fuel m2.this (record m2 { mem = mem })
        done (
          record s { threads = tl; lock = spinlock_unlock held },
          cpu_splx spl (cpu_unlock m3.this m3),
        ))

-- the processor of the thread `t` is locked while it is woken
pub wake_locked : (t : ℕ) → Machine → Outcome Machine
wake_locked t m = do
  let cpu_id = (m.mem t).cpu_id
  m1 ← cpu_lock_id cpu_id m
  done (cpu_unlock cpu_id (record m1 { mem = wake m1.mem t }))

-- signed overflow is undefined
pub sema_signal : Sema → Machine → Outcome (Sema × Machine)
unfolding thread_list_pop wake_locked
sema_signal s m = do
  let (spl, m1) = cpu_splhi m
  held ← spinlock_lock s.lock
  let more = record s { count = s.count + 1; lock = spinlock_unlock held }
  let (t, tl) = thread_list_pop m1.mem s.threads
  if thread_list_empty s.threads
      then (if s.count == 2 ^ 31 - 1 then undefined else done (more, cpu_splx spl m1))
      else (do
        m2 ← wake_locked t m1
        done (record s { threads = tl; lock = spinlock_unlock held }, cpu_splx spl m2))

pub cond_init : Condition
cond_init = record { threads = thread_list_init }

-- `lock` is the counter of the lock that the caller holds
pub cond_wait : (fuel : ℕ) → Condition → (lock : ℕ) → Machine → Outcome (Condition × ℕ × Machine)
unfolding thread_list_push
cond_wait fuel c lock m = do
  m1 ← cpu_lock m
  let (tl, mem) = thread_list_push m1.mem c.threads ((m1.cpus m1.this).cur_thread)
  m2 ← sched_yield_locked fuel m1.this (record m1 { mem = mem })
  held ← spinlock_lock (spinlock_unlock lock)
  done (record { threads = tl }, held, cpu_unlock m2.this m2)

pub cond_signal : Condition → Machine → Outcome (Condition × Machine)
unfolding thread_list_pop wake_locked
cond_signal c m =
    let (t, tl) = thread_list_pop m.mem c.threads in
    if thread_list_empty c.threads
    then done (c, m)
    else (do m1 ← wake_locked t m; done (record { threads = tl }, m1))

-- the body is empty, with a comment that it is to be written
abbrev pub cond_broadcast : Condition → Condition
cond_broadcast c = c
