-- ===== src/Sync/Wait.antt =====
-- src/semaphore.c, sema_wait: a wait that blocks.
use smor.Prelude.{
  ℕ, ◌<◌, ◌≡◌, refl, sym, ap, subst, ◌∙◌, arith, inl, inr, ◌==◌, true, false, List, [], ◌∷◌, ◌++◌,
  ◌≢◌, has, length, ltb, le→ltb, ==_refl, Bool-cases, update, done, ◌>>=◌,
}
use smor.Thread.{
  Thread, ThreadList, Machine, thread_list_push, thread_state_sleeping, cpu_splhi, cpu_unlock,
  cpu_splx,
}
use smor.Thread.WaitList.{Waits, push-Pushed}
use smor.Thread.Queue.{IsQueue, IsQueue-links}
use smor.Sched.{sched_next, sched_yield_locked, switch_to}
use smor.Sched.Next.{Chosen, next-Chosen, switched_state, switched_rest}
use smor.Sync.Semaphore.{IsSema, wake-Waits}
use smor.Sync.{Sema, sema_wait}

push-links :
    (mem : ℕ → Thread) (tl : ThreadList) (e a : ℕ)
    → (((thread_list_push mem tl e).1 a).next ≡ (mem a).next)
      × (((thread_list_push mem tl e).1 a).prev ≡ (mem a).prev)
unfolding thread_list_push
push-links mem tl e a = (ground arith, ground arith)

-- memory when `sema_wait` calls the scheduler
abbrev pub slept : (mem : ℕ → Thread) → ThreadList → (cur : ℕ) → ℕ → Thread
slept mem tl cur =
    let pushed = (thread_list_push mem tl cur).1 in
    update pushed cur (record (pushed cur) { state = thread_state_sleeping })

slept-links :
    (mem : ℕ → Thread) (tl : ThreadList) (cur a : ℕ)
    → ((slept mem tl cur a).next ≡ (mem a).next) × ((slept mem tl cur a).prev ≡ (mem a).prev)
slept-links mem tl cur a =
    (ground (arith, (push-links mem tl cur a).0), ground (arith, (push-links mem tl cur a).1))

splx-mem : (spl : ℕ) (m : Machine) → (cpu_splx spl m).mem ≡ m.mem
splx-mem spl m = elim (Bool-cases (spl == 0)) [ inl none ↦ rw none refl | inr on ↦ rw on refl ]

-- the machine that the scheduler sees: the processor is locked, without interrupts
abbrev held_at : Sema → Machine → Machine
held_at s m = record m {
  mem = slept m.mem s.threads (m.cpus m.this).cur_thread;
  cpus = update m.cpus m.this (record (m.cpus m.this) { lock = 1 });
  interrupts = false;
}

-- the semaphore and the machine after the scheduler
abbrev waiting_in : Sema → Machine → Sema
waiting_in s m = record s {
  threads = (thread_list_push m.mem s.threads (m.cpus m.this).cur_thread).0;
  lock = 0;
}

abbrev released : Machine → Machine → Machine
released m m3 = cpu_splx (cpu_splhi m).0 (cpu_unlock m3.this m3)

released_at :
    (m m3 : Machine)
    → m3.this ≡ m.this
    → m3.interrupts ≡ false
    → (m3.cpus m.this).lock ≡ 1
    → (((released m m3).cpus m.this).cur_thread ≡ (m3.cpus m.this).cur_thread)
      × (((released m m3).cpus m.this).lock ≡ 0)
      × ((released m m3).interrupts ≡ m.interrupts)
released_at m m3 this off held =
    let here : (m.this == m3.this) ≡ true = ap (λ x. m.this == x) this ∙ ==_refl m.this in
    let one : ((m3.cpus m3.this).lock == 1) ≡ true =
      ap (λ x. (m3.cpus x).lock == 1) this ∙ ap (λ l. l == 1) held in
    let at : (m3.cpus m3.this).cur_thread ≡ (m3.cpus m.this).cur_thread =
      ap (λ x. (m3.cpus x).cur_thread) this in
    elim (Bool-cases m.interrupts) [
      | inl on ↦ (rw (on, here) at, rw (on, here, one) refl, rw on refl)
      | inr no_irq ↦ (rw (no_irq, here) at, rw (no_irq, here, one) refl, rw no_irq off)
    ]

wait_schedules :
    (fuel : ℕ) (s : Sema) (m : Machine)
    → s.lock ≡ 0
    → s.count ≡ 0
    → (m.cpus m.this).lock ≡ 0
    → sema_wait fuel s m
      ≡ (sched_next fuel m.this (held_at s m) >>= λ m3. done (waiting_in s m, released m m3))
unfolding sema_wait sched_yield_locked
wait_schedules fuel s m free none free_cpu =
    let self : (m.this == m.this) ≡ true = ==_refl m.this in
    let zero_count : ltb 0 s.count ≡ false = le→ltb 0 s.count (omega (arith, none)) in
    let free_lock : (s.lock == 0) ≡ true = ground (arith, free) in
    let unlocked : ((m.cpus m.this).lock == 0) ≡ true = ground (arith, free_cpu) in
    rw (free_lock, zero_count) (rw unlocked (rw self refl))

held-IsQueue :
    (s : Sema) (m : Machine) (ys : List ℕ)
    → IsQueue m.mem (m.cpus m.this).threads ys
    → IsQueue (held_at s m).mem (m.cpus m.this).threads ys
held-IsQueue s m ys q =
    IsQueue-links m.mem (held_at s m).mem (m.cpus m.this).threads ys
      (λ a. (slept-links m.mem s.threads (m.cpus m.this).cur_thread a).0)
      (λ a. (slept-links m.mem s.threads (m.cpus m.this).cur_thread a).1) q

held_threads :
    (s : Sema) (m : Machine) → ((held_at s m).cpus m.this).threads ≡ (m.cpus m.this).threads
held_threads s m = let self : (m.this == m.this) ≡ true = ==_refl m.this in rw self refl

-- what a call of `sema_wait` does that finds the count 0, for the semaphore `s` on which `xs` wait
abbrev pub Blocks : ℕ → Sema → Machine → List ℕ → List ℕ → Type 0
Blocks fuel s m xs ys =
    let cpu = m.cpus m.this in
    (s' : Sema) × (m' : Machine) × (mem' : ℕ → Thread) × (sema_wait fuel s m ≡ done (s', m'))
    × (s'.count ≡ 0)
    × IsSema m'.mem s' (xs ++ (cpu.cur_thread ∷ []))
    × ((m'.mem cpu.cur_thread).state ≡ thread_state_sleeping)
    × IsQueue m'.mem cpu.threads ys
    × Chosen (slept m.mem s.threads cpu.cur_thread) cpu.threads ys (m'.cpus m.this).cur_thread mem'
    × ((a : ℕ) → a ≢ cpu.cur_thread → m'.mem a ≡ mem' a)
    × ((m'.cpus m.this).lock ≡ 0)
    × (m'.interrupts ≡ m.interrupts)

-- With a well-formed list of waiting threads and ring of the processor's threads, the locks of the
-- semaphore and the processor free and a count of 0, `sema_wait` puts the current thread, which is not
-- NULL and does not wait yet, at the end of the semaphore's list and to sleep, and
-- calls the scheduler, which returns if it has fuel for every thread of the processor. The thread
-- that is current afterwards is the scheduler's choice among the processor's threads, made when the
-- caller already sleeps; the processor's lock is free again and the interrupt flag as before. The
-- threads of the processor stay in their order.
pub wait-Blocks :
    (fuel : ℕ) (s : Sema) (m : Machine) (xs ys : List ℕ)
    → IsSema m.mem s xs
    → s.count ≡ 0
    → (m.cpus m.this).lock ≡ 0
    → (m.cpus m.this).cur_thread ≢ 0
    → has (m.cpus m.this).cur_thread xs ≡ false
    → IsQueue m.mem (m.cpus m.this).threads ys
    → length ys < fuel
    → Blocks fuel s m xs ys
wait-Blocks fuel s m xs ys v none free ne out q room =
    let cur = (m.cpus m.this).cur_thread in
    let tl = (thread_list_push m.mem s.threads cur).0 in
    let pushed = push-Pushed m.mem s.threads xs cur ne out v.waits in
    let same = held_threads s m in
    let q' = subst (λ h. IsQueue (held_at s m).mem h ys) (sym same) (held-IsQueue s m ys q) in
    let (r, mem', c, (e, now, q3)) = next-Chosen fuel m.this (held_at s m) ys room q' in
    let m3 = switch_to m.this r (record (held_at s m) { mem = mem' }) in
    let rest = switched_rest m.this r (record (held_at s m) { mem = mem' }) in
    let self : (m.this == m.this) ≡ true = ==_refl m.this in
    let lock_held : ((held_at s m).cpus m.this).lock ≡ 1 = rw self refl in
    let current : ((held_at s m).cpus m.this).cur_thread ≡ cur = rw self refl in
    let out_of = released_at m m3 rest.0 rest.1 (rest.2 ∙ lock_held) in
    let em = splx-mem (cpu_splhi m).0 (cpu_unlock m3.this m3) in
    let kept = switched_state m.this r (record (held_at s m) { mem = mem' }) in
    let waits' : (a : ℕ)
        → (m3.mem a).next_wait ≡ ((thread_list_push m.mem s.threads cur).1 a).next_wait =
      λ a. kept.0 a ∙ c.waits a ∙ ground arith in
    (
      waiting_in s m,
      released m m3,
      mem',
      wait_schedules fuel s m v.unlocked none free
          ∙ ap (λ o. o >>= λ m3. done (waiting_in s m, released m m3)) e,
      none,
      record {
        waits =
            subst (λ mem. Waits mem tl (xs ++ (cur ∷ []))) (sym em)
              (wake-Waits ((thread_list_push m.mem s.threads cur).1) m3.mem tl (xs ++ (cur ∷ []))
                waits' (pushed.0));
        unlocked = refl;
        exclusive = inr none;
      },
      ap (λ mem. (mem cur).state) em ∙ kept.1 cur ∙ c.states cur ∙ ground arith,
      subst (λ mem. IsQueue mem (m.cpus m.this).threads ys) (sym em)
          (subst (λ h. IsQueue m3.mem h ys) same q3),
      subst (λ x. Chosen (held_at s m).mem (m.cpus m.this).threads ys x mem') (sym (out_of.0 ∙ now))
          (subst (λ h. Chosen (held_at s m).mem h ys r mem') same c),
      λ a other. ap (λ mem. mem a) em ∙ rest.3 a (λ e. other (e ∙ current)),
      out_of.1,
      out_of.2,
    )
