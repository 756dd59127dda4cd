-- ===== src/Console.antt =====
-- src/console.c: the queue of messages for the console. The text of a message lies in a buffer of
-- 65536 bytes, and the queue of 32 messages says where. Nothing draws the messages yet.
pub mod Queue
mod Tests
use smor.Prelude.{
  ℕ, zero, suc, ◌+◌, ◌%◌, true, leb, ltb, ◌==◌, if◌then◌else◌, update, Option, none, some, List, [],
  ◌∷◌, length, Outcome, done, hang, check, ◌>>=◌, ◌>>◌, u32,
}
use smor.Thread.{Machine, cpu_splhi, cpu_splx, spinlock_lock, spinlock_unlock}

abbrev pub max_console_buf : ℕ
max_console_buf = 65536

abbrev pub max_msg_queue : ℕ
max_msg_queue = 32

pub record ConsBuffer : Type 0 where
  pub pos : ℕ
  pub buf : ℕ → ℕ

pub record ConsMsg : Type 0 where
  pub pos : ℕ
  pub size : ℕ

pub record ConsMsgQueue : Type 0 where
  pub msg : ℕ → ConsMsg
  pub write_pos : ℕ
  pub read_pos : ℕ
  pub run_lock : ℕ
  pub lock : ℕ

pub cons_buffer_alloc : (size : ℕ) → ConsBuffer → Outcome (ℕ × ConsBuffer)
cons_buffer_alloc size b =
    if leb (u32 (b.pos + size)) max_console_buf
    then done (b.pos, record b { pos = u32 (b.pos + size) })
    else (do check (ltb size max_console_buf); done (0, record b { pos = 0 }))

pub cons_msg_push : (pos size : ℕ) → ConsMsgQueue → ConsMsgQueue
cons_msg_push pos size q = record q {
  write_pos = u32 (q.write_pos + 1);
  msg = update q.msg (q.write_pos % max_msg_queue) (record { pos = pos; size = size });
}

pub cons_msg_pop : ConsMsgQueue → Option ConsMsg × ConsMsgQueue
cons_msg_pop q =
    if ltb q.read_pos q.write_pos
    then (some (q.msg (q.read_pos % max_msg_queue)), record q { read_pos = u32 (q.read_pos + 1) })
    else (none, q)

-- memcpy of `str` to the index `i`
pub copy_to : (i : ℕ) → List ℕ → (ℕ → ℕ) → ℕ → ℕ
copy_to i [] buf = buf
copy_to i (c ∷ str) buf = copy_to (i + 1) str (update buf i c)

pub cons_msg_putstr : List ℕ → ConsBuffer → ConsMsgQueue → Outcome (ConsBuffer × ConsMsgQueue)
cons_msg_putstr str b q = do
  (pos, b1) ← cons_buffer_alloc (length str) b
  done (record b1 { buf = copy_to pos str b1.buf }, cons_msg_push pos (length str) q)

-- the loop of `cons_putstr`, which takes one message in each round; `spl` is what it restores
pub drain_messages : ℕ → (spl : ℕ) → ConsMsgQueue → Machine → Outcome (ConsMsgQueue × Machine)
drain_messages zero spl q m = hang
drain_messages (suc fuel) spl q m = do
  let (s, m1) = cpu_splhi m
  held ← spinlock_lock q.lock
  let (msg, q1) = cons_msg_pop q
  let released = record q1 { lock = spinlock_unlock held }
  let rest = drain_messages fuel spl released (cpu_splx s m1)
  (elim msg [
    | none ↦ done (record released { run_lock = spinlock_unlock q1.run_lock }, cpu_splx spl m1)
    | some _ ↦ rest
  ])

-- Only the caller that takes `run_lock` goes on to the messages, and enables interrupts if they were disabled.
pub cons_putstr :
    ℕ → List ℕ → ConsBuffer → ConsMsgQueue → Machine → Outcome (ConsBuffer × ConsMsgQueue × Machine)
cons_putstr fuel str b q m = do
  let (spl, m1) = cpu_splhi m
  held ← spinlock_lock q.lock
  (b1, q1) ← cons_msg_putstr str b q
  let q2 = record q1 { lock = spinlock_unlock held }
  let m2 = cpu_splx spl m1
  if q2.run_lock == 0
      then (drain_messages fuel spl (record q2 { run_lock = 1 })
            (if spl == 0 then record m2 { interrupts = true } else m2)
          >>= λ r. done (b1, r.0, r.1))
      else done (b1, q2, m2)
