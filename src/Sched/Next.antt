-- ===== src/Sched/Next.antt =====
-- src/sched.c, sched_next: the thread that runs next.
use smor.Prelude.{
  ℕ, ◌+◌, ◌≤◌, ◌<◌, ◌≡◌, refl, ap, ◌∙◌, arith, ◌⊎◌, inl, inr, Bool-cases, ◌==◌, ==_refl, ne→==, ◌≢◌,
  true, List, [], ◌∷◌, ◌++◌, has, has-append, length, length-append, done,
}
use smor.Thread.{Thread, Machine}
use smor.Thread.Queue.{IsQueue, IsQueue-links}
use smor.Sched.{running, refill_from, sched_find, sched_choose, switch_to, sched_next}
use smor.Sched.Ring.{Arc-Walk, queue-Round}
use smor.Sched.Find.{find-Best}
use smor.Sched.Refill.{Refilled, refill_from-Refilled}

module _ (fuel : ℕ) (mem : ℕ → Thread) (h : ℕ) (xs : List ℕ) (room : length xs < fuel)
    (v : IsQueue mem h xs) where
  -- `sched_find` begun behind the head looks at the whole queue
  find_in_queue :
      (r : ℕ) × (sched_find fuel mem (mem h).next ≡ done r)
      × (has r (h ∷ xs) ≡ true)
      × ((a : ℕ)
          → has a (h ∷ xs) ≡ true
          → running (mem a) ≡ true
          → (running (mem r) ≡ true) × ((mem a).cnt ≤ (mem r).cnt))
  find_in_queue =
      let round = queue-Round mem h xs v in
      let same : (a : ℕ) → has a (xs ++ (h ∷ [])) ≡ has a ((mem h).next ∷ round.rest) =
        λ a. ap (has a) round.order in
      let long : length xs + 1 ≡ length round.rest + 1 =
        omega (arith, length-append xs (h ∷ []), ap length round.order) in
      let (r, e, b) = find-Best fuel mem (mem h).next round.rest (omega (arith, long)) round.walk in
      (
        r,
        e,
        ground (arith, b.member, same r, has-append r xs (h ∷ [])),
        λ a m run. b.best a (ground (arith, same a, has-append a xs (h ∷ []))) run,
      )

  refill_queue :
      (mem' : ℕ → Thread) × (refill_from fuel h mem (mem h).next ≡ done mem') × Refilled mem xs mem'
  refill_queue =
      refill_from-Refilled fuel h mem h xs room (v.1.1) (Arc-Walk mem h xs h (v.1.0) (v.2))

-- the choice `r` among the threads of the queue, from the memory `mem`, which becomes `mem'`
pub record Chosen (mem : ℕ → Thread) (h : ℕ) (xs : List ℕ) (r : ℕ) (mem' : ℕ → Thread)
    : Type 0 where
  pub member : has r (h ∷ xs) ≡ true
  pub best :
      (a : ℕ)
      → has a (h ∷ xs) ≡ true
      → running (mem' a) ≡ true
      → (running (mem' r) ≡ true) × ((mem' a).cnt ≤ (mem' r).cnt)
  pub counts :
      (a : ℕ) → has a xs ≡ true → running (mem' a) ≡ true → 0 < (mem' a).pri → 0 < (mem' r).cnt
  pub memory :
      (mem' ≡ mem)
      ⊎ (Refilled mem xs mem'
          × ((a : ℕ) → has a (h ∷ xs) ≡ true → running (mem a) ≡ true → (mem a).cnt ≡ 0))
  pub nexts : (a : ℕ) → (mem' a).next ≡ (mem a).next
  pub prevs : (a : ℕ) → (mem' a).prev ≡ (mem a).prev
  pub waits : (a : ℕ) → (mem' a).next_wait ≡ (mem a).next_wait
  pub states : (a : ℕ) → (mem' a).state ≡ (mem a).state

Refilled-next :
    (mem mem' : ℕ → Thread) (xs : List ℕ) (a : ℕ)
    → Refilled mem xs mem'
    → ((mem' a).next ≡ (mem a).next) × ((mem' a).prev ≡ (mem a).prev)
Refilled-next mem mem' xs a v = elim (Bool-cases (has a xs)) [
  | inl m ↦ (ap (λ t. t.next) (v.inside a m), ap (λ t. t.prev) (v.inside a m))
  | inr m ↦ (ap (λ t. t.next) (v.outside a m), ap (λ t. t.prev) (v.outside a m))
]

Refilled-state :
    (mem mem' : ℕ → Thread) (xs : List ℕ) (a : ℕ)
    → Refilled mem xs mem'
    → ((mem' a).next_wait ≡ (mem a).next_wait) × ((mem' a).state ≡ (mem a).state)
Refilled-state mem mem' xs a v = elim (Bool-cases (has a xs)) [
  | inl m ↦ (ap (λ t. t.next_wait) (v.inside a m), ap (λ t. t.state) (v.inside a m))
  | inr m ↦ (ap (λ t. t.next_wait) (v.outside a m), ap (λ t. t.state) (v.outside a m))
]

choose-Chosen :
    (fuel : ℕ) (mem : ℕ → Thread) (h : ℕ) (xs : List ℕ)
    → length xs < fuel
    → IsQueue mem h xs
    → (r : ℕ) × (mem' : ℕ → Thread) × (sched_choose fuel mem h ≡ done (r, mem'))
      × Chosen mem h xs r mem'
unfolding sched_choose
choose-Chosen fuel mem h xs room v =
    let (r, e, m, b) = find_in_queue fuel mem h xs room v in
    let (mem', e', f) = refill_queue fuel mem h xs room v in
    elim (Bool-cases ((mem r).cnt == 0)) [
      | inl spent ↦
          let v' : IsQueue mem' h xs =
            IsQueue-links mem mem' h xs (λ a. (Refilled-next mem mem' xs a f).0)
              (λ a. (Refilled-next mem mem' xs a f).1) v in
          let (r', e'', m', b') = find_in_queue fuel mem' h xs room v' in
          (
            r',
            mem',
            rw e (rw (spent, e') (rw e'' refl)),
            record {
              member = m';
              best = b';
              counts = λ a i run pos. ground (arith, b' a, f.inside a);
              memory = inr (f, λ a i run. ground (arith, b a));
              nexts = λ a. (Refilled-next mem mem' xs a f).0;
              prevs = λ a. (Refilled-next mem mem' xs a f).1;
              waits = λ a. (Refilled-state mem mem' xs a f).0;
              states = λ a. (Refilled-state mem mem' xs a f).1;
            },
          )
      | inr left ↦ (
        r,
        mem,
        rw e (rw left refl),
        record {
          member = m;
          best = b;
          counts = λ a i run pos. ground arith;
          memory = inl refl;
          nexts = λ a. refl;
          prevs = λ a. refl;
          waits = λ a. refl;
          states = λ a. refl;
        },
      )
    ]

switched :
    (i r : ℕ) (m : Machine)
    → (((switch_to i r m).cpus i).cur_thread ≡ r)
      × ((a : ℕ) → ((switch_to i r m).mem a).next ≡ (m.mem a).next)
      × ((a : ℕ) → ((switch_to i r m).mem a).prev ≡ (m.mem a).prev)
unfolding switch_to
switched i r m = elim (Bool-cases (r == (m.cpus i).cur_thread)) [
  | inl same ↦ (ground (arith, same), λ a. rw same refl, λ a. rw same refl)
  | inr other ↦ (ground (arith, other), λ a. rw other (ground arith), λ a. rw other (ground arith))
]

-- a switch leaves the processor's lock and the interrupt flag, and changes only the thread it leaves
pub switched_rest :
    (i r : ℕ) (m : Machine)
    → ((switch_to i r m).this ≡ m.this)
      × ((switch_to i r m).interrupts ≡ m.interrupts)
      × (((switch_to i r m).cpus i).lock ≡ (m.cpus i).lock)
      × ((a : ℕ) → a ≢ (m.cpus i).cur_thread → (switch_to i r m).mem a ≡ m.mem a)
unfolding switch_to
switched_rest i r m = elim (Bool-cases (r == (m.cpus i).cur_thread)) [
  | inl same ↦ (rw same refl, rw same refl, rw same refl, λ a ne. rw same refl)
  | inr other ↦
      let self : (i == i) ≡ true = ==_refl i in
      (
        rw other refl,
        rw other refl,
        rw (other, self) refl,
        λ a ne. rw (other, ne→== a (m.cpus i).cur_thread ne) refl,
      )
]

-- a switch changes no wait list and no state
pub switched_state :
    (i r : ℕ) (m : Machine)
    → ((a : ℕ) → ((switch_to i r m).mem a).next_wait ≡ (m.mem a).next_wait)
      × ((a : ℕ) → ((switch_to i r m).mem a).state ≡ (m.mem a).state)
unfolding switch_to
switched_state i r m = elim (Bool-cases (r == (m.cpus i).cur_thread)) [
  | inl same ↦ (λ a. rw same refl, λ a. rw same refl)
  | inr other ↦ (λ a. rw other (ground arith), λ a. rw other (ground arith))
]

pub next-Chosen :
    (fuel i : ℕ) (m : Machine) (xs : List ℕ)
    → length xs < fuel
    → IsQueue m.mem (m.cpus i).threads xs
    → (r : ℕ) × (mem' : ℕ → Thread) × Chosen m.mem (m.cpus i).threads xs r mem'
      × (let m' = switch_to i r (record m { mem = mem' }) in
          (sched_next fuel i m ≡ done m')
          × ((m'.cpus i).cur_thread ≡ r)
          × IsQueue m'.mem (m.cpus i).threads xs)
unfolding sched_next
next-Chosen fuel i m xs room v =
    let (r, mem', e, c) = choose-Chosen fuel m.mem (m.cpus i).threads xs room v in
    let m1 : Machine = record m { mem = mem' } in
    let s = switched i r m1 in
    (
      r,
      mem',
      c,
      (
        rw e refl,
        s.0,
        IsQueue-links m.mem ((switch_to i r m1).mem) (m.cpus i).threads xs (λ a. s.1 a ∙ c.nexts a)
            (λ a. s.2 a ∙ c.prevs a) v,
      ),
    )
