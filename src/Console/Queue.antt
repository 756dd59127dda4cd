-- ===== src/Console/Queue.antt =====
-- src/console.c: the queue of messages keeps their order, and `cons_putstr` takes all of them.
use smor.Prelude.{
  ℕ, zero, suc, ◌+◌, ◌%◌, ◌^◌, ◌<◌, ◌≤◌, ◌≡◌, refl, ◌∙◌, sym, ap, subst, inl, inr, ◌⊎◌, leb, Bool,
  true, false, ◌==◌, lt→ltb, ne→==, ==_refl, le→ltb, if◌then◌else◌, update, none, some, List, [],
  ◌∷◌, ◌++◌, length, length-append, get_or, done, arith, u32, Bool-cases,
}
use smor.Thread.{Machine, cpu_splhi, cpu_splx}
use smor.Thread.Spl.{splx-splhi}
use smor.Console.{
  ConsBuffer, ConsMsg, ConsMsgQueue, max_msg_queue, max_console_buf, cons_buffer_alloc,
  cons_msg_push, cons_msg_pop, copy_to, cons_msg_putstr, drain_messages, cons_putstr,
}

-- the messages from the index `i` on
unfoldable pub Stands : (msg : ℕ → ConsMsg) → (i : ℕ) → List ConsMsg → Type 0
Stands msg i [] = zero ≡ zero
Stands msg i (m ∷ ms) = (msg (i % max_msg_queue) ≡ m) × Stands msg (i + 1) ms

-- the queue holds `ms`, the oldest message first, and has not written 2 ^ 32 messages yet
pub record IsQueued (q : ConsMsgQueue) (ms : List ConsMsg) : Type 0 where
  pub ends : q.write_pos ≡ q.read_pos + length ms
  pub few : length ms ≤ max_msg_queue
  pub unwrapped : q.write_pos < 2 ^ 32
  pub stands : Stands q.msg q.read_pos ms

-- a cell that no message of the list uses
Stands-update :
    (msg : ℕ → ConsMsg) (i j : ℕ) (m : ConsMsg) (ms : List ConsMsg)
    → i + length ms ≤ j
    → j < i + max_msg_queue
    → Stands msg i ms
    → Stands (update msg (j % max_msg_queue) m) i ms
unfolding Stands
Stands-update msg i j m [] lo hi h = refl
Stands-update msg i j m (x ∷ ms) lo hi (here, later) =
    let apart : ((i % max_msg_queue) == (j % max_msg_queue)) ≡ false =
      ne→== _ _ (λ e. omega (arith, e, lo, hi)) in
    (rw apart here, Stands-update msg (i + 1) j m ms (omega (arith, lo)) (omega (arith, hi)) later)

Stands-append :
    (msg : ℕ → ConsMsg) (i : ℕ) (m : ConsMsg) (ms : List ConsMsg)
    → Stands msg i ms
    → msg ((i + length ms) % max_msg_queue) ≡ m
    → Stands msg i (ms ++ (m ∷ []))
unfolding Stands
Stands-append msg i m [] h e = (ap (λ k. msg (k % max_msg_queue)) (omega arith) ∙ e, refl)
Stands-append msg i m (x ∷ ms) (here, later) e = (
  here,
  Stands-append msg (i + 1) m ms later (ap (λ k. msg (k % max_msg_queue)) (omega arith) ∙ e),
)

pub cons_msg_push-IsQueued :
    (q : ConsMsgQueue) (ms : List ConsMsg) (pos size : ℕ)
    → IsQueued q ms
    → length ms < max_msg_queue
    → q.write_pos + 1 < 2 ^ 32
    → IsQueued (cons_msg_push pos size q) (ms ++ (record { pos = pos; size = size } ∷ []))
unfolding cons_msg_push
cons_msg_push-IsQueued q ms pos size h room bound =
    let m : ConsMsg = record { pos = pos; size = size } in
    let longer = length-append ms (m ∷ []) in
    let place = q.write_pos in
    let here : (((q.read_pos + length ms) % max_msg_queue) == (place % max_msg_queue)) ≡ true =
      ap (λ k. (k % max_msg_queue) == (place % max_msg_queue)) (sym h.ends)
      ∙ ==_refl (place % max_msg_queue) in
    let kept =
      Stands-update q.msg q.read_pos place m ms (omega (arith, h.ends))
        (omega (arith, h.ends, room)) h.stands in
    record {
      ends = omega (arith, h.ends, longer, bound);
      few = omega (arith, longer, room);
      unwrapped = omega (arith, bound);
      stands =
          Stands-append (update q.msg (place % max_msg_queue) m) q.read_pos m ms kept
            (rw here refl);
    }

pub cons_msg_pop-IsQueued :
    (q : ConsMsgQueue) (m : ConsMsg) (ms : List ConsMsg)
    → IsQueued q (m ∷ ms)
    → (q' : ConsMsgQueue) × (cons_msg_pop q ≡ (some m, q'))
      × IsQueued q' ms
      × (q'.lock ≡ q.lock)
      × (q'.run_lock ≡ q.run_lock)
unfolding cons_msg_pop Stands
cons_msg_pop-IsQueued q m ms h =
    let there = lt→ltb q.read_pos q.write_pos (omega (arith, h.ends)) in
    (
      record q { read_pos = u32 (q.read_pos + 1) },
      rw (there, h.stands.0) refl,
      record {
        ends = omega (arith, h.ends, h.unwrapped);
        few = omega (arith, h.few);
        unwrapped = h.unwrapped;
        stands = subst (λ k. Stands q.msg k ms) (omega (arith, h.ends, h.unwrapped)) h.stands.1;
      },
      refl,
      refl,
    )

cons_msg_pop-none : (q : ConsMsgQueue) → IsQueued q [] → cons_msg_pop q ≡ (none, q)
unfolding cons_msg_pop
cons_msg_pop-none q h = rw (le→ltb q.read_pos q.write_pos (omega (arith, h.ends))) refl

-- The loop takes the messages one after another and gives up `run_lock` when none is left.
drain_messages-ends :
    (ms : List ConsMsg) (fuel spl : ℕ) (q : ConsMsgQueue) (m : Machine)
    → IsQueued q ms
    → length ms < fuel
    → q.lock ≡ 0
    → q.run_lock ≡ 1
    → (q' : ConsMsgQueue) × (drain_messages fuel spl q m ≡ done (q', cpu_splx spl (cpu_splhi m).1))
      × IsQueued q' []
      × (q'.lock ≡ 0)
      × (q'.run_lock ≡ 0)
unfolding drain_messages
drain_messages-ends ms zero spl q m h lt free taken = absurd (omega (arith, lt))
drain_messages-ends [] (suc fuel) spl q m h lt free taken =
    let unlocked : (q.lock == 0) ≡ true = rw free refl in
    let held : (q.run_lock == 1) ≡ true = rw taken refl in
    (
      record q { lock = 0; run_lock = 0 },
      rw (unlocked, cons_msg_pop-none q h, cons_msg_pop-none q h, held) refl,
      record { ends = h.ends; few = h.few; unwrapped = h.unwrapped; stands = h.stands },
      refl,
      refl,
    )
drain_messages-ends (x ∷ ms) (suc fuel) spl q m h lt free taken =
    let (q1, pop, h1, lock, run) = cons_msg_pop-IsQueued q x ms h in
    let unlocked : (q.lock == 0) ≡ true = rw free refl in
    let released = record q1 { lock = 0 } in
    let (q2, rest, h2, free2, given) =
      drain_messages-ends ms fuel spl released m
        (record { ends = h1.ends; few = h1.few; unwrapped = h1.unwrapped; stands = h1.stands })
        (omega (arith, lt)) refl (run ∙ taken) in
    (q2, rw (unlocked, pop, pop, splx-splhi m) rest, h2, free2, given)

copy_to-before : (i : ℕ) (str : List ℕ) (buf : ℕ → ℕ) (k : ℕ) → k < i → copy_to i str buf k ≡ buf k
unfolding copy_to
copy_to-before i [] buf k lt = refl
copy_to-before i (c ∷ str) buf k lt =
    copy_to-before (i + 1) str (update buf i c) k (omega (arith, lt)) ∙ ground arith

copy_to-chars :
    (i : ℕ) (str : List ℕ) (buf : ℕ → ℕ) (k : ℕ)
    → k < length str
    → copy_to i str buf (i + k) ≡ get_or str k 0
unfolding copy_to
copy_to-chars i [] buf k lt = absurd (omega (arith, lt))
copy_to-chars i (c ∷ str) buf zero lt =
    ap (copy_to (i + 1) str (update buf i c)) (omega arith)
    ∙ copy_to-before (i + 1) str (update buf i c) i (omega arith)
    ∙ rw (==_refl i) refl
copy_to-chars i (c ∷ str) buf (suc k) lt =
    ap (copy_to (i + 1) str (update buf i c)) (omega arith)
    ∙ copy_to-chars (i + 1) str (update buf i c) k (omega (arith, lt))

back_on :
    (b : Bool) (m : Machine)
    → m.interrupts ≡ b
    → cpu_splx
        (cpu_splhi m).0
        (cpu_splhi (if (cpu_splhi m).0 == 0 then record m { interrupts = true } else m)).1
      ≡ m
back_on true m e = rw e refl
back_on false m e = rw e refl

-- a text that is shorter than the buffer gets a place in it
cons_buffer_alloc-fits :
    (size : ℕ) (b : ConsBuffer)
    → b.pos ≤ max_console_buf
    → size < max_console_buf
    → (pos : ℕ) × (b1 : ConsBuffer) × (cons_buffer_alloc size b ≡ done (pos, b1))
      × (pos + size ≤ max_console_buf)
      × ((b1.pos ≡ pos + size) ⊎ (b1.pos ≡ 0))
      × (b1.buf ≡ b.buf)
unfolding cons_buffer_alloc
cons_buffer_alloc-fits size b inside small =
    elim (Bool-cases (leb (u32 (b.pos + size)) max_console_buf)) [
      | inl room ↦
          let le : b.pos + size ≤ max_console_buf = ground (arith, room) in
          (
            b.pos,
            record b { pos = u32 (b.pos + size) },
            rw room refl,
            le,
            inl (omega (arith, le)),
            refl,
          )
      | inr full ↦ (
        0,
        record b { pos = 0 },
        rw (full, lt→ltb size max_console_buf small) refl,
        omega (arith, small),
        inr refl,
        refl,
      )
    ]

-- `b'` is `b` with the text at `pos`, inside the buffer
pub record Copied (str : List ℕ) (pos : ℕ) (b b' : ConsBuffer) : Type 0 where
  pub inside : pos + length str ≤ max_console_buf
  pub text : (k : ℕ) → k < length str → b'.buf (pos + k) ≡ get_or str k 0
  pub before : (k : ℕ) → k < pos → b'.buf k ≡ b.buf k

-- With both locks free, fewer than 32 messages `ms` in the queue, a buffer position inside the buffer
-- and a text shorter than the buffer, and as long as the counter of written messages has never wrapped
-- and is below 2 ^ 32 - 1, so that this message does not make it wrap, `cons_putstr` ends with fuel for
-- two rounds more than there are messages: the text is at a place inside the buffer, no message is
-- left, the locks are free, and the processor's interrupt flag is as before.
pub cons_putstr-Drains :
    (fuel : ℕ) (str : List ℕ) (b : ConsBuffer) (q : ConsMsgQueue) (ms : List ConsMsg) (m : Machine)
    → IsQueued q ms
    → length ms < max_msg_queue
    → q.write_pos + 1 < 2 ^ 32
    → length ms + 1 < fuel
    → q.lock ≡ 0
    → q.run_lock ≡ 0
    → b.pos ≤ max_console_buf
    → length str < max_console_buf
    → (pos : ℕ) × (b' : ConsBuffer) × (q' : ConsMsgQueue) × (cons_putstr fuel str b q m
        ≡ done (b', q', m))
      × Copied str pos b b'
      × IsQueued q' []
      × (q'.lock ≡ 0)
      × (q'.run_lock ≡ 0)
unfolding cons_putstr cons_msg_putstr cons_msg_push
cons_putstr-Drains fuel str b q ms m h room bound lt free open_run inside small =
    let (pos, b1, alloc, fits, moved, same) = cons_buffer_alloc-fits (length str) b inside small in
    let msg : ConsMsg = record { pos = pos; size = length str } in
    let pushed = cons_msg_push pos (length str) q in
    let started = record pushed { lock = 0; run_lock = 1 } in
    let h1 = cons_msg_push-IsQueued q ms pos (length str) h room bound in
    let spl = (cpu_splhi m).0 in
    let on = if spl == 0 then record m { interrupts = true } else m in
    let (q', run, empty, free1, given) =
      drain_messages-ends (ms ++ (msg ∷ [])) fuel spl started on
        (record { ends = h1.ends; few = h1.few; unwrapped = h1.unwrapped; stands = h1.stands })
        (omega (arith, lt, length-append ms (msg ∷ []))) refl refl in
    let unlocked : (q.lock == 0) ≡ true = rw free refl in
    let taken : (q.run_lock == 0) ≡ true = rw open_run refl in
    (
      pos,
      record b1 { buf = copy_to pos str b1.buf },
      q',
      rw (unlocked, alloc, taken, splx-splhi m, run, back_on m.interrupts m refl) refl,
      record {
        inside = fits;
        text = λ k lt1. copy_to-chars pos str b1.buf k lt1;
        before = λ k lt1. copy_to-before pos str b1.buf k lt1 ∙ ap (λ f. f k) same;
      },
      empty,
      free1,
      given,
    )
