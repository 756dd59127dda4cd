-- ===== src/Sched/Find.antt =====
-- src/sched.c, sched_find: the running thread with the highest counter.
use smor.Prelude.{
  ℕ, zero, suc, ◌+◌, ◌≤◌, ◌<◌, ◌≡◌, arith, ◌⊎◌, if◌then◌else◌, true, List, [], ◌∷◌, has, length,
  done,
}
use smor.Thread.{Thread}
use smor.Sched.{running, better, find_from, sched_find}
use smor.Sched.Ring.{Walk}

-- the loop's result `r`, from the threads `xs`, a best count of `above` and a choice `before`
record Found (mem : ℕ → Thread) (xs : List ℕ) (above before r : ℕ) : Type 0 where
  top : ℕ
  grows : above ≤ top
  most : (a : ℕ) → has a xs ≡ true → running (mem a) ≡ true → (mem a).cnt < top
  source :
      ((r ≡ before) × (top ≡ above))
      ⊎ ((has r xs ≡ true) × (running (mem r) ≡ true) × (top ≡ (mem r).cnt + 1))

Found-one :
    (mem : ℕ → Thread) (above before t : ℕ)
    → Found mem (t ∷ []) above before (if better (mem t) above then t else before)
Found-one mem above before t = record {
  top = if better (mem t) above then (mem t).cnt + 1 else above;
  grows = ground arith;
  most = λ a m r. ground arith;
  source = ground arith;
}

find_from-Found :
    (fuel begin : ℕ) (mem : ℕ → Thread) (above before t : ℕ) (xs : List ℕ)
    → length xs < fuel
    → Walk mem t xs begin
    → (r : ℕ) × (find_from fuel begin mem above before t ≡ done r)
      × Found mem (t ∷ xs) above before r
unfolding find_from
find_from-Found zero begin mem above before t xs h w = absurd (omega arith)
find_from-Found (suc fuel) begin mem above before t [] h w =
    (_, ground (arith, w), Found-one mem above before t)
find_from-Found (suc fuel) begin mem above before t (x ∷ xs) h w =
    let one = Found-one mem above before t in
    let (r, e, f) =
      find_from-Found fuel begin mem (if better (mem t) above then (mem t).cnt + 1 else above)
        (if better (mem t) above then t else before) x xs (omega arith) (w.2) in
    (
      r,
      ground (arith, w.0, w.1, e),
      record {
        top = f.top;
        grows = ground (arith, f.grows);
        most = λ a m v. ground (arith, f.most a, f.grows);
        source = ground (arith, f.source);
      },
    )

-- what `sched_find` promises of its result `r` among the threads `xs`, which begin with `begin`
pub record Best (mem : ℕ → Thread) (begin : ℕ) (xs : List ℕ) (r : ℕ) : Type 0 where
  pub member : has r xs ≡ true
  pub best :
      (a : ℕ)
      → has a xs ≡ true
      → running (mem a) ≡ true
      → (running (mem r) ≡ true) × ((mem a).cnt ≤ (mem r).cnt)
  pub default : ((running (mem r) ≡ true)) ⊎ (r ≡ begin)

-- With fuel for every thread, `sched_find` returns one of the threads: if any thread is running, a
-- running one whose counter no running thread exceeds, and otherwise the first.
pub find-Best :
    (fuel : ℕ) (mem : ℕ → Thread) (begin : ℕ) (xs : List ℕ)
    → length xs < fuel
    → Walk mem begin xs begin
    → (r : ℕ) × (sched_find fuel mem begin ≡ done r) × Best mem begin (begin ∷ xs) r
unfolding sched_find
find-Best fuel mem begin xs h w =
    let (r, e, f) = find_from-Found fuel begin mem 0 begin begin xs h w in
    (
      r,
      e,
      record {
        member = ground (arith, f.source);
        best = λ a m v. ground (arith, f.most a m v, f.source);
        default = ground (arith, f.source);
      },
    )
