-- ===== src/Sched/Sleep.antt =====
-- src/sched.c, sched_check_sleeping: the sleep timers of all threads of a processor.
use smor.Prelude.{
  ℕ, zero, suc, ◌+◌, ◌-◌, ◌%◌, ◌^◌, ◌<◌, ◌≡◌, refl, ap, ◌∙◌, arith, ◌==◌, Bool, if◌then◌else◌, true,
  false, List, [], ◌∷◌, has, Distinct, length, update, done, sub32,
}
use smor.Thread.{Thread}
use smor.Sched.{
  running, has_sleep_timer, asleep, wakes, sleep_tick, check_sleeping_from, sched_check_sleeping,
}
use smor.Sched.Ring.{Walk, Walk-next}

-- A thread waits for its sleep timer when it does not run and the low bit of its flags is set.
abbrev pub on_timer : Thread → Bool
on_timer t = if t.state == 1 then t.flags % 2 == 1 else false

-- Its timer is due when the tick is the last one, on 32 bits.
abbrev pub due : Thread → Bool
due t = if on_timer t then t.sleep_time % 2 ^ 32 == 1 else false

-- `t'` is `t` after a tick: as before without the timer, with one tick less to sleep before the last
-- one, and running after that with a fresh counter and without the flag
pub record IsTick (t t' : Thread) : Type 0 where
  pub without : on_timer t ≡ false → t' ≡ t
  pub before :
      on_timer t ≡ true
      → due t ≡ false
      → t' ≡ record t { sleep_time = (t.sleep_time + (2 ^ 32 - 1)) % 2 ^ 32 }
  pub last :
      due t ≡ true → t' ≡ record t { state = 0; flags = t.flags - 1; sleep_time = 0; cnt = t.pri }

-- how many of the threads are due
abbrev pub count_due : (ℕ → Thread) → List ℕ → ℕ
count_due mem [] = 0
count_due mem (x ∷ xs) = (if due (mem x) then 1 else 0) + count_due mem xs

count_due-same :
    (mem mem' : ℕ → Thread) (xs : List ℕ)
    → ((a : ℕ) → has a xs ≡ true → mem' a ≡ mem a)
    → count_due mem' xs ≡ count_due mem xs
count_due-same mem mem' [] same = refl
count_due-same mem mem' (x ∷ xs) same =
    rw (same x (ground arith), count_due-same mem mem' xs (λ a m. same a (ground arith))) refl

wakes-due : (t : Thread) → wakes t ≡ due t
wakes-due t = ground arith

sleep_tick-IsTick : (t : Thread) → IsTick t (sleep_tick t)
unfolding sleep_tick
sleep_tick-IsTick t = record {
  without = λ o. ground (arith, o);
  before = λ o d. ground (arith, o, d);
  last = λ d. ground (arith, d);
}

sleep_tick-next : (t : Thread) → (sleep_tick t).next ≡ t.next
unfolding sleep_tick
sleep_tick-next t = ground arith

-- one tick of the threads `xs`, from the memory `mem` to `mem'`
pub record Ticked (mem : ℕ → Thread) (xs : List ℕ) (mem' : ℕ → Thread) : Type 0 where
  pub inside : (a : ℕ) → has a xs ≡ true → IsTick (mem a) (mem' a)
  pub outside : (a : ℕ) → has a xs ≡ false → mem' a ≡ mem a

record Steps (mem : ℕ → Thread) (xs : List ℕ) (mem' : ℕ → Thread) : Type 0 where
  steps : (a : ℕ) → has a xs ≡ true → mem' a ≡ sleep_tick (mem a)
  rests : (a : ℕ) → has a xs ≡ false → mem' a ≡ mem a

Steps-Ticked :
    (mem : ℕ → Thread) (xs : List ℕ) (mem' : ℕ → Thread) → Steps mem xs mem' → Ticked mem xs mem'
Steps-Ticked mem xs mem' v = record {
  inside = λ a m. rw (v.steps a m) (sleep_tick-IsTick (mem a));
  outside = λ a m. v.rests a m;
}

after : (ℕ → Thread) → ℕ → ℕ → Thread
after mem t = update mem t (sleep_tick (mem t))

after-next : (mem : ℕ → Thread) (t a : ℕ) → (after mem t a).next ≡ (mem a).next
unfolding after
after-next mem t a = ground (arith, sleep_tick-next (mem t))

check_sleeping_from-Steps :
    (fuel begin : ℕ) (mem : ℕ → Thread) (n t : ℕ) (xs : List ℕ)
    → length xs < fuel
    → Distinct (t ∷ xs)
    → Walk mem t xs begin
    → (mem' : ℕ → Thread) × (check_sleeping_from fuel begin mem n t
        ≡ done (n + count_due mem (t ∷ xs), mem'))
      × Steps mem (t ∷ xs) mem'
unfolding check_sleeping_from after
check_sleeping_from-Steps zero begin mem n t xs h d w = absurd (omega arith)
check_sleeping_from-Steps (suc fuel) begin mem n t [] h d w =
    let stop : ((after mem t t).next == begin) ≡ true = ground (arith, w, after-next mem t t) in
    let one = wakes-due (mem t) in
    let sum : (if wakes (mem t) then n + 1 else n) ≡ n + ((if due (mem t) then 1 else 0) + 0) =
      ground (arith, one) in
    (
      after mem t,
      rw (stop, sum) refl,
      record { steps = λ a m. ground arith; rests = λ a m. ground arith },
    )
check_sleeping_from-Steps (suc fuel) begin mem n t (x ∷ xs) h d w =
    let on : ((after mem t t).next == begin) ≡ false =
      ground (arith, w.0, w.1, after-next mem t t) in
    let to : (after mem t t).next ≡ x = after-next mem t t ∙ w.0 in
    let (mem', e, v) =
      check_sleeping_from-Steps fuel begin (after mem t) (if wakes (mem t) then n + 1 else n) x xs
        (omega arith) (d.1) (Walk-next mem (after mem t) x xs begin (after-next mem t) (w.2)) in
    let same : count_due (after mem t) (x ∷ xs) ≡ count_due mem (x ∷ xs) =
      count_due-same mem (after mem t) (x ∷ xs) (λ a m. ground (arith, d.0)) in
    let one = wakes-due (mem t) in
    let sum : (if wakes (mem t) then n + 1 else n) + count_due (after mem t) (x ∷ xs)
        ≡ n + ((if due (mem t) then 1 else 0) + count_due mem (x ∷ xs)) =
      ground (arith, same, one) in
    (
      mem',
      rw (on, to, e, sum) refl,
      record {
        steps = λ a m. ground (arith, v.steps a, v.rests a, d.0);
        rests = λ a m. ground (arith, v.rests a);
      },
    )

-- On a ring of different threads and with fuel for every one, `sched_check_sleeping` ends and returns
-- how many of the threads were due: asleep with a timer of one tick left. Each of these runs now, with
-- the timer's flag taken away, no time left to sleep and its counter reset to its priority. A thread
-- asleep with more on its timer has one tick less, on 32 bits. Every other thread is as before.
pub check_sleeping-Ticked :
    (fuel : ℕ) (mem : ℕ → Thread) (begin : ℕ) (xs : List ℕ)
    → length xs < fuel
    → Distinct (begin ∷ xs)
    → Walk mem begin xs begin
    → (mem' : ℕ → Thread) × (sched_check_sleeping fuel mem begin
        ≡ done (count_due mem (begin ∷ xs), mem'))
      × Ticked mem (begin ∷ xs) mem'
unfolding sched_check_sleeping
check_sleeping-Ticked fuel mem begin xs h d w =
    let (mem', e, v) = check_sleeping_from-Steps fuel begin mem 0 begin xs h d w in
    let sum : 0 + count_due mem (begin ∷ xs) ≡ count_due mem (begin ∷ xs) = omega arith in
    (mem', e ∙ ap (λ n. done (n, mem')) sum, Steps-Ticked mem (begin ∷ xs) mem' v)

-- what `n` ticks make of a thread
abbrev pub sleep_ticks : ℕ → Thread → Thread
sleep_ticks zero t = t
sleep_ticks (suc n) t = sleep_ticks n (sleep_tick t)

tick_on :
    (t : Thread)
    → asleep t ≡ true
    → (sub32 t.sleep_time 1 == 0) ≡ false
    → (asleep (sleep_tick t) ≡ true) × ((sleep_tick t).sleep_time ≡ sub32 t.sleep_time 1)
unfolding sleep_tick
tick_on t a z = rw (a, z) (a, refl)

tick_last :
    (t : Thread)
    → asleep t ≡ true
    → (sub32 t.sleep_time 1 == 0) ≡ true
    → (running (sleep_tick t) ≡ true)
      × ((sleep_tick t).cnt ≡ t.pri)
      × (has_sleep_timer (sleep_tick t).flags ≡ false)
unfolding sleep_tick
tick_last t a z = rw (a, z) (refl, refl, ground arith)

-- the tick that wakes a thread
abbrev pub IsWoken : Thread → Type 0
IsWoken t = (running t ≡ true) × (has_sleep_timer t.flags ≡ false)

asleep_before :
    (n k : ℕ) (t : Thread)
    → asleep t ≡ true
    → k < n
    → n < 2 ^ 32
    → t.sleep_time ≡ n
    → asleep (sleep_ticks k t) ≡ true
asleep_before n zero t a h w e = a
asleep_before n (suc k) t a h w e =
    let more : (sub32 t.sleep_time 1 == 0) ≡ false = ground (arith, e) in
    let on = tick_on t a more in
    asleep_before (n - 1) k (sleep_tick t) (on.0) (omega arith) (omega arith)
      (omega (arith, on.1, e))

wakes_at :
    (n : ℕ) (t : Thread)
    → asleep t ≡ true
    → suc n < 2 ^ 32
    → t.sleep_time ≡ suc n
    → IsWoken (sleep_ticks (suc n) t)
wakes_at zero t a w e = let last = tick_last t a (ground (arith, e)) in (last.0, last.2)
wakes_at (suc n) t a w e =
    let on = tick_on t a (ground (arith, e)) in
    wakes_at n (sleep_tick t) (on.0) (omega arith) (omega (arith, on.1, e))

wakes_in :
    (n : ℕ) (t : Thread)
    → asleep t ≡ true
    → 0 < n
    → n < 2 ^ 32
    → t.sleep_time ≡ n
    → IsWoken (sleep_ticks n t)
wakes_in zero t a pos w e = absurd (omega arith)
wakes_in (suc n) t a pos w e = wakes_at n t a w e

-- A thread that `sched_sleep` has put to sleep for 1 to 2 ^ 32 - 1 ticks sleeps on at each earlier
-- tick; the last one makes it running and takes the timer's flag away.
pub sleep_tick-sleeps :
    (t : Thread)
    → asleep t ≡ true
    → 0 < t.sleep_time
    → t.sleep_time < 2 ^ 32
    → ((k : ℕ) → k < t.sleep_time → asleep (sleep_ticks k t) ≡ true)
      × IsWoken (sleep_ticks t.sleep_time t)
sleep_tick-sleeps t a pos w =
    (λ k h. asleep_before t.sleep_time k t a h w refl, wakes_in t.sleep_time t a pos w refl)

-- A thread put to sleep for 0 ticks is asleep after each of the next 2 ^ 32 - 1 ticks.
pub sleep_zero :
    (t : Thread) (k : ℕ)
    → asleep t ≡ true
    → t.sleep_time ≡ 0
    → k < 2 ^ 32
    → asleep (sleep_ticks k t) ≡ true
sleep_zero t zero a z h = a
sleep_zero t (suc k) a z h =
    let more : (sub32 t.sleep_time 1 == 0) ≡ false = ground (arith, z) in
    let on = tick_on t a more in
    asleep_before (2 ^ 32 - 1) k (sleep_tick t) (on.0) (omega arith) (omega arith)
      (omega (arith, on.1, z))
