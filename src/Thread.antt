-- ===== src/Thread.antt =====
-- src/thread.h, src/thread.c, src/cpu.h, src/spinlock.h and the queues of src/list.h: threads, their
-- processors and their locks. Threads are cells by address; a processor is named by its index in
-- `cpus`.
pub mod Spl
pub mod Queue
pub mod WaitList
mod Tests
use smor.Prelude.{
  ℕ, ◌+◌, ◌-◌, ◌*◌, ◌^◌, Bool, true, false, ◌==◌, ltb, if◌then◌else◌, update, Outcome, done, hang,
  ◌>>=◌, ◌>>◌, u32, u64,
}

-- `pri` and `cnt` are `int`s that no code makes negative: `sched_tick`, which alone decrements one,
-- stores 0 in place of a negative value.
pub record Thread : Type 0 where
  pub next : ℕ
  pub prev : ℕ
  pub next_wait : ℕ
  pub ctx : ℕ
  pub stack : ℕ
  pub ticks : ℕ
  pub id : ℕ
  pub cpu_id : ℕ
  pub state : ℕ
  pub sleep_time : ℕ
  pub flags : ℕ
  pub pri : ℕ
  pub cnt : ℕ

abbrev pub thread_default_pri : ℕ
thread_default_pri = 8

abbrev pub thread_state_running : ℕ
thread_state_running = 0

abbrev pub thread_state_sleeping : ℕ
thread_state_sleeping = 1

-- the head and the tail of a list through `next_wait`
pub record ThreadList : Type 0 where
  pub head : ℕ
  pub tail : ℕ

-- `idle_thread` is the address of the field of that name
pub record Cpu : Type 0 where
  pub threads : ℕ
  pub cur_thread : ℕ
  pub idle_thread : ℕ
  pub lock : ℕ
  pub apic_id : ℕ
  pub flags : ℕ
  pub id_cnt : ℕ
  pub spl : ℕ

-- what the processor `this` sees: memory, the processors, and its own interrupt flag
pub record Machine : Type 0 where
  pub mem : ℕ → Thread
  pub cpus : ℕ → Cpu
  pub this : ℕ
  pub interrupts : Bool

abbrev pub set_next : (ℕ → Thread) → (a v : ℕ) → ℕ → Thread
set_next t a v = update t a (record (t a) { next = v })

abbrev pub set_prev : (ℕ → Thread) → (a v : ℕ) → ℕ → Thread
set_prev t a v = update t a (record (t a) { prev = v })

abbrev pub set_next_wait : (ℕ → Thread) → (a v : ℕ) → ℕ → Thread
set_next_wait t a v = update t a (record (t a) { next_wait = v })

-- queue_push_back, on a head: the new head and the memory
abbrev pub queue_push_back : (ℕ → Thread) → (head elem : ℕ) → ℕ × (ℕ → Thread)
queue_push_back t head elem =
    if head == 0
    then (elem, set_next (set_prev t elem elem) elem elem)
    else (let t1 = set_next t elem head in
        let t2 = set_prev t1 elem ((t1 head).prev) in
        let t3 = set_next t2 ((t2 elem).prev) elem in (head, set_prev t3 head elem))

abbrev pub queue_pop : (ℕ → Thread) → (head elem : ℕ) → ℕ × (ℕ → Thread)
queue_pop t head elem =
    if (t elem).next == elem
    then (0, t)
    else (let next = (t elem).next in
        let prev = (t elem).prev in
        let t1 = set_next (set_prev t next prev) prev next in
        (if head == elem then next else head, t1))

abbrev pub thread_list_init : ThreadList
thread_list_init = record { head = 0; tail = 0 }

unfoldable pub thread_list_push : (ℕ → Thread) → ThreadList → ℕ → ThreadList × (ℕ → Thread)
thread_list_push mem tl t =
    if tl.head == 0
    then (record { head = t; tail = t }, set_next_wait mem t 0)
    else (record tl { tail = t }, set_next_wait (set_next_wait mem tl.tail t) t 0)

unfoldable pub thread_list_pop : (ℕ → Thread) → ThreadList → ℕ × ThreadList
thread_list_pop mem tl =
    let t = tl.head in
    (t, if tl.head == 0 then tl else record tl { head = (mem tl.head).next_wait })

abbrev pub thread_list_empty : ThreadList → Bool
thread_list_empty tl = tl.head == 0

-- `compare_and_swap_32` is assembly: it stores only if it finds the old value
abbrev pub spinlock_lock : ℕ → Outcome ℕ
spinlock_lock counter = if counter == 0 then done 1 else hang

abbrev pub spinlock_unlock : ℕ → ℕ
spinlock_unlock counter = if counter == 1 then 0 else counter

-- `rflags & RFLAGS_IF`, then `cli`
abbrev pub cpu_splhi : Machine → ℕ × Machine
cpu_splhi m = (if m.interrupts then 2 ^ 9 else 0, record m { interrupts = false })

abbrev pub cpu_splx : ℕ → Machine → Machine
cpu_splx s m = if s == 0 then m else record m { interrupts = true }

abbrev pub get_cpu_id : Machine → ℕ
get_cpu_id m = (m.cpus m.this).apic_id

abbrev pub set_cpu : Machine → ℕ → Cpu → Machine
set_cpu m i c = record m { cpus = update m.cpus i c }

-- the lock of the processor `i`
abbrev pub cpu_lock_id : ℕ → Machine → Outcome Machine
cpu_lock_id i m = do
  counter ← spinlock_lock (m.cpus i).lock
  done (set_cpu m i (record (m.cpus i) { lock = counter }))

abbrev pub cpu_lock : Machine → Outcome Machine
cpu_lock m = cpu_lock_id m.this m

abbrev pub cpu_lock_splhi : Machine → Outcome Machine
cpu_lock_splhi m =
    let (spl, m1) = cpu_splhi m in
    (cpu_lock_id m1.this m1) >>= λ m2.
    done (set_cpu m2 m2.this (record (m2.cpus m2.this) { spl = spl }))

abbrev pub cpu_unlock : ℕ → Machine → Machine
cpu_unlock i m = set_cpu m i (record (m.cpus i) { lock = spinlock_unlock (m.cpus i).lock })

abbrev pub cpu_unlock_splx : ℕ → Machine → Machine
cpu_unlock_splx i m = cpu_splx (m.cpus i).spl (cpu_unlock i m)

-- The thread's locations `t` and `stack` come from `slab_list_alloc` and `kmalloc_alloc`, whose
-- chunks have `KMALLOC_CHUNK_SIZE` bytes. The 14 words of the interrupt frame, the return address
-- and the 9 words of the context lie at the top of the stack.
abbrev pub new_thread : (stack_top : ℕ) → Thread
new_thread stack_top = record {
  next = 0;
  prev = 0;
  next_wait = 0;
  ctx = stack_top - 14 * 8 - 8 - 9 * 8;
  stack = stack_top;
  ticks = 0;
  id = 0;
  cpu_id = 0;
  state = thread_state_running;
  sleep_time = 0;
  flags = 0;
  pri = thread_default_pri;
  cnt = thread_default_pri;
}

-- the part of `thread_create` between the lock and the unlock
pub thread_enqueue : (thread i : ℕ) → Machine → Machine
thread_enqueue thread i m =
    let cpu = m.cpus i in
    let id = u32 (cpu.id_cnt + 1) in
    let named = update m.mem thread (record (m.mem thread) { id = id; cpu_id = cpu.apic_id }) in
    let (threads, mem) = queue_push_back named cpu.threads thread in
    record m { mem = mem; cpus = update m.cpus i (record cpu { id_cnt = id; threads = threads }) }

pub thread_create : (chunk_size thread stack cpu_id : ℕ) → Machine → Outcome Machine
unfolding thread_enqueue
thread_create chunk_size thread stack cpu_id m =
    let m1 = record m { mem = update m.mem thread (new_thread (stack + chunk_size)) } in
    if get_cpu_id m1 == cpu_id
    then (do
      m2 ← cpu_lock_splhi m1
      done (cpu_unlock_splx m2.this (thread_enqueue thread m2.this m2)))
    else (do m2 ← cpu_lock_id cpu_id m1; done (cpu_unlock cpu_id (thread_enqueue thread cpu_id m2)))

abbrev pub wake : (ℕ → Thread) → ℕ → ℕ → Thread
wake mem t = update mem t (record (mem t) { state = thread_state_running })

pub thread_wakeup : ℕ → Machine → Outcome Machine
thread_wakeup thread m =
    let cpu_id = (m.mem thread).cpu_id in
    if get_cpu_id m == cpu_id
    then (do
      m2 ← cpu_lock_splhi m
      done (cpu_unlock_splx m2.this (record m2 { mem = wake m2.mem thread })))
    else (do
      m2 ← cpu_lock_id cpu_id m
      done (cpu_unlock cpu_id (record m2 { mem = wake m2.mem thread })))
