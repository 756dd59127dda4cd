-- ===== src/Sync/Semaphore.antt =====
-- src/semaphore.c: a semaphore's count and its waiting threads.
use smor.Prelude.{
  ℕ, ◌+◌, ◌-◌, ◌^◌, ◌<◌, ◌≡◌, refl, sym, ap, subst, ◌∙◌, arith, ◌⊎◌, inl, inr, ◌==◌, ==_refl,
  eq_of_test, Bool-cases, lt→ltb, Bool, true, false, List, [], ◌∷◌, update, done, ◌>>=◌,
}
use smor.Thread.Spl.{splx-splhi}
use smor.Thread.{
  Thread, ThreadList, Machine, thread_list_pop, cpu_splhi, cpu_splx, wake, spinlock_unlock,
}
use smor.Thread.WaitList.{Waits, Line, pop-Popped}
use smor.Sync.{Sema, sema_wait, wake_locked, sema_signal}

-- the semaphore between two calls, with the threads `xs` waiting: nobody holds its lock, and no
-- thread waits while the count is positive
pub record IsSema (mem : ℕ → Thread) (s : Sema) (xs : List ℕ) : Type 0 where
  pub waits : Waits mem s.threads xs
  pub unlocked : s.lock ≡ 0
  pub exclusive : (xs ≡ []) ⊎ (s.count ≡ 0)

-- a wake-up changes no link
pub wake-Waits :
    (mem mem' : ℕ → Thread) (tl : ThreadList) (xs : List ℕ)
    → ((a : ℕ) → (mem' a).next_wait ≡ (mem a).next_wait)
    → Waits mem tl xs
    → Waits mem' tl xs
wake-Waits mem mem' tl [] same v = v
wake-Waits mem mem' tl (x ∷ xs) same v = (v.0, v.1, v.2, line x xs (v.3))
  where
    line : (p : ℕ) (ys : List ℕ) → Line mem p ys tl.tail → Line mem' p ys tl.tail
    line p [] c = (same p ∙ c.0, c.1)
    line p (y ∷ ys) c = (same p ∙ c.0, c.1, line y ys (c.2))

-- the threads' links and the semaphore after a call that returns without waking or sleeping
wait_at_once :
    (fuel : ℕ) (s : Sema) (m : Machine)
    → s.lock ≡ 0
    → 0 < s.count
    → sema_wait fuel s m ≡ done (record s { count = s.count - 1; lock = 0 }, m)
unfolding sema_wait
wait_at_once fuel s m free pos =
    rw (free, lt→ltb 0 s.count pos)
      (ap (λ m'. done (record s { count = s.count - 1; lock = 0 }, m')) (splx-splhi m))

signal_none :
    (s : Sema) (m : Machine)
    → s.lock ≡ 0
    → s.threads.head ≡ 0
    → s.count < 2 ^ 31 - 1
    → sema_signal s m ≡ done (record s { count = s.count + 1; lock = 0 }, m)
unfolding sema_signal
signal_none s m free none small =
    let fits : (s.count == 2 ^ 31 - 1) ≡ false = ground arith in
    let empty : (s.threads.head == 0) ≡ true = ground (arith, none) in
    rw (free, empty, fits)
      (ap (λ m'. done (record s { count = s.count + 1; lock = 0 }, m')) (splx-splhi m))

-- what `sema_signal` does to the semaphore `s`, on which `xs` wait
abbrev pub Signalled : Sema → Machine → List ℕ → Type 0
Signalled s m [] =
    (s' : Sema) × (sema_signal s m ≡ done (s', m)) × (s'.count ≡ s.count + 1) × IsSema m.mem s' []
Signalled s m (x ∷ xs) =
    (s' : Sema) × (m' : Machine) × (sema_signal s m ≡ done (s', m'))
    × (s'.count ≡ s.count)
    × IsSema m'.mem s' xs
    × (m'.mem ≡ wake m.mem x)
    × ((i : ℕ) → m'.cpus i ≡ m.cpus i)
    × ((i : ℕ) → (m'.cpus i).lock ≡ 0)
    × (m'.this ≡ m.this)
    × (m'.interrupts ≡ m.interrupts)

-- the machine after a wake-up under a free lock
abbrev woken : ℕ → Machine → Machine
woken t m =
    let c = (m.mem t).cpu_id in
    record m {
      mem = wake m.mem t;
      cpus =
          (let held = update m.cpus c (record (m.cpus c) { lock = 1 }) in
            update held c (record (held c) { lock = spinlock_unlock (held c).lock }));
    }

wake_locked_free :
    (t : ℕ) (m : Machine) → (m.cpus (m.mem t).cpu_id).lock ≡ 0 → wake_locked t m ≡ done (woken t m)
unfolding wake_locked
wake_locked_free t m free =
    let free_lock : ((m.cpus (m.mem t).cpu_id).lock == 0) ≡ true = ground (arith, free) in
    rw free_lock refl

wake-next_wait : (mem : ℕ → Thread) (t a : ℕ) → (wake mem t a).next_wait ≡ (mem a).next_wait
wake-next_wait mem t a = ground arith

splx-woken : (t : ℕ) (m : Machine) → cpu_splx (cpu_splhi m).0 (woken t (cpu_splhi m).1) ≡ woken t m
splx-woken t m = go m.interrupts m refl
  where
    go :
        (b : Bool) (n : Machine)
        → n.interrupts ≡ b
        → cpu_splx (cpu_splhi n).0 (woken t (cpu_splhi n).1) ≡ woken t n
    go true n e = rw e refl
    go false n e = rw e refl

-- The lock that is taken and given back leaves the processors as they were.
woken-cpus :
    (t : ℕ) (m : Machine)
    → (m.cpus (m.mem t).cpu_id).lock ≡ 0
    → (i : ℕ) → (woken t m).cpus i ≡ m.cpus i
woken-cpus t m free i =
    let c = (m.mem t).cpu_id in
    let self : (c == c) ≡ true = ==_refl c in
    let at_c : (woken t m).cpus c ≡ m.cpus c =
      rw self (λ k. record (m.cpus c) { lock = sym free k }) in
    elim (Bool-cases (i == c)) [
      | inl same ↦ subst (λ j. (woken t m).cpus j ≡ m.cpus j) (sym (eq_of_test i c same)) at_c
      | inr other ↦ rw other refl
    ]

signal_one :
    (s : Sema) (m : Machine) (x : ℕ) (xs : List ℕ)
    → IsSema m.mem s (x ∷ xs)
    → ((i : ℕ) → (m.cpus i).lock ≡ 0)
    → Signalled s m (x ∷ xs)
unfolding sema_signal thread_list_pop
signal_one s m x xs v all_free =
    let free = all_free (m.mem x).cpu_id in
    let some : (s.threads.head == 0) ≡ false = ground (arith, v.waits.0, v.waits.1) in
    let t = s.threads.head in
    let popped = pop-Popped m.mem s.threads (x ∷ xs) v.waits in
    let rest : Waits m.mem (record s.threads { head = (m.mem t).next_wait }) xs =
      rw some at popped.1 in
    let free_lock : (s.lock == 0) ≡ true = ground (arith, v.unlocked) in
    let free' : (m.cpus (m.mem t).cpu_id).lock ≡ 0 = rw v.waits.0 free in
    let s' : Sema = record s {
      threads = record s.threads { head = (m.mem t).next_wait };
      lock = 0;
    } in
    (
      s',
      woken x m,
      rw (free_lock, some)
          (rw (wake_locked_free t (cpu_splhi m).1 free')
            (ap (λ n. done (s', n)) (splx-woken t m) ∙ ap (λ y. done (s', woken y m)) v.waits.0)),
      refl,
      record {
        waits = wake-Waits m.mem (wake m.mem x) s'.threads xs (wake-next_wait m.mem x) rest;
        unlocked = refl;
        exclusive = inr (ground (arith, v.exclusive));
      },
      refl,
      woken-cpus x m free,
      λ i. ap (λ c. c.lock) (woken-cpus x m free i) ∙ all_free i,
      refl,
      refl,
    )

-- With a well-formed list of waiting threads, of which there are none while the count is positive, no
-- lock held and a count below 2 ^ 31 - 1, `sema_signal` on a semaphore with no waiting thread
-- adds one to the count and changes nothing else but its own lock, which is free again; otherwise it
-- leaves the count, takes the thread that has waited longest off the list and makes it running, and
-- every processor, with its lock, is as before. Either way no lock is held at the end, the interrupt
-- flag is as before, and no thread waits while the count is positive.
pub signal-Signalled :
    (s : Sema) (m : Machine) (xs : List ℕ)
    → IsSema m.mem s xs
    → s.count < 2 ^ 31 - 1
    → ((i : ℕ) → (m.cpus i).lock ≡ 0)
    → Signalled s m xs
signal-Signalled s m [] v small free = (
  record s { count = s.count + 1; lock = 0 },
  signal_none s m v.unlocked v.waits small,
  refl,
  record { waits = v.waits; unlocked = refl; exclusive = inl refl },
)
signal-Signalled s m (x ∷ xs) v small free = signal_one s m x xs v free

-- With its lock free, `sema_wait` on a positive count takes one from it and changes nothing else, and
-- the `sema_signal` that follows restores the semaphore and the machine.
pub signal-wait :
    (fuel : ℕ) (s : Sema) (m : Machine)
    → IsSema m.mem s []
    → 0 < s.count
    → s.count < 2 ^ 31
    → (do (s', m') ← sema_wait fuel s m; sema_signal s' m') ≡ done (s, m)
signal-wait fuel s m v pos small = rw (wait_at_once fuel s m v.unlocked pos) (
    signal_none (record s { count = s.count - 1; lock = 0 }) m refl v.waits (omega arith)
    ∙ ap (λ s'. done (s', m)) restored)
  where
    restored : (record s { count = s.count - 1 + 1; lock = 0 }) ≡ s
    restored = λ k. record s { count = same k; lock = sym v.unlocked k }
      where
        same : s.count - 1 + 1 ≡ s.count
        same = omega arith
