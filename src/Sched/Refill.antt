-- ===== src/Sched/Refill.antt =====
-- src/sched.c, sched_next: the loop that hands out new counters.
use smor.Prelude.{
  ℕ, zero, suc, ◌<◌, ◌≡◌, refl, arith, ◌==◌, true, false, List, [], ◌∷◌, has, Distinct, length,
  update, done,
}
use smor.Thread.{Thread}
use smor.Sched.{refill, refill_from}
use smor.Sched.Ring.{Walk, Walk-next}

-- the threads `xs` have been given new counters, and nothing else has changed
pub record Refilled (mem : ℕ → Thread) (xs : List ℕ) (mem' : ℕ → Thread) : Type 0 where
  pub inside : (a : ℕ) → has a xs ≡ true → mem' a ≡ refill (mem a)
  pub outside : (a : ℕ) → has a xs ≡ false → mem' a ≡ mem a

-- With fuel for every thread, the loop returns, and refills each thread but the head once.
pub refill_from-Refilled :
    (fuel h : ℕ) (mem : ℕ → Thread) (p : ℕ) (xs : List ℕ)
    → length xs < fuel
    → Distinct xs
    → Walk mem p xs h
    → (mem' : ℕ → Thread) × (refill_from fuel h mem (mem p).next ≡ done mem') × Refilled mem xs mem'
unfolding refill_from
refill_from-Refilled zero h mem p xs l d w = absurd (omega arith)
refill_from-Refilled (suc fuel) h mem p [] l d w =
    let stop : ((mem p).next == h) ≡ true = ground (arith, w) in
    (mem, rw stop refl, record { inside = λ a m. ground arith; outside = λ a m. refl })
refill_from-Refilled (suc fuel) h mem p (x ∷ xs) l d w =
    let mem1 = update mem x (refill (mem x)) in
    let on : (x == h) ≡ false = ground (arith, w.1) in
    let (mem', e, v) =
      refill_from-Refilled fuel h mem1 x xs (omega arith) (d.1)
        (Walk-next mem mem1 x xs h (λ a. ground arith) (w.2)) in
    (
      mem',
      rw w.0 (rw on e),
      record {
        inside = λ a m. ground (arith, v.inside a, v.outside a, d.0);
        outside = λ a m. ground (arith, v.outside a);
      },
    )
