-- ===== src/Sched/Ring.antt =====
-- src/sched.c: what the do loops over the threads of a processor visit, and in which order.
use smor.Prelude.{ℕ, ◌≡◌, ◌≢◌, refl, ◌∙◌, arith, false, List, [], ◌∷◌, ◌++◌, has}
use smor.Thread.{Thread}
use smor.Thread.Queue.{Arc, IsQueue}

-- `next` leads from `p` through `xs` to `q`, and not to `q` before
abbrev pub Walk : (ℕ → Thread) → ℕ → List ℕ → ℕ → Type 0
Walk t p [] q = (t p).next ≡ q
Walk t p (x ∷ xs) q = ((t p).next ≡ x) × (x ≢ q) × Walk t x xs q

pub Walk-next :
    (t t' : ℕ → Thread) (p : ℕ) (xs : List ℕ) (q : ℕ)
    → ((a : ℕ) → (t' a).next ≡ (t a).next)
    → Walk t p xs q
    → Walk t' p xs q
Walk-next t t' p [] q same w = same p ∙ w
Walk-next t t' p (x ∷ xs) q same w = (same p ∙ w.0, w.1, Walk-next t t' x xs q same (w.2))

pub Arc-Walk :
    (t : ℕ → Thread) (p : ℕ) (xs : List ℕ) (q : ℕ) → has q xs ≡ false → Arc t p xs q → Walk t p xs q
Arc-Walk t p [] q out c = c.0
Arc-Walk t p (x ∷ xs) q out c = (c.0, ground arith, Arc-Walk t x xs q (ground arith) (c.2))

snoc-Walk :
    (t : ℕ → Thread) (p : ℕ) (xs : List ℕ) (q r : ℕ)
    → q ≢ r
    → (t q).next ≡ r
    → has r xs ≡ false
    → Walk t p xs q
    → Walk t p (xs ++ (q ∷ [])) r
snoc-Walk t p [] q r ne e out w = (w, ne, e)
snoc-Walk t p (x ∷ xs) q r ne e out w =
    (w.0, ground arith, snoc-Walk t x xs q r ne e (ground arith) (w.2))

-- a do loop that begins behind the head of a queue: the threads after the first one that it visits
pub record Round (t : ℕ → Thread) (h : ℕ) (xs : List ℕ) : Type 0 where
  pub rest : List ℕ
  pub order : xs ++ (h ∷ []) ≡ (t h).next ∷ rest
  pub walk : Walk t (t h).next rest (t h).next

-- The loop visits the threads after the head, and the head last.
pub queue-Round : (t : ℕ → Thread) (h : ℕ) (xs : List ℕ) → IsQueue t h xs → Round t h xs
queue-Round t h [] v = record { rest = []; order = rw v.2.0 refl; walk = ground (arith, v.2.0) }
queue-Round t h (y ∷ ys) v =
    let e : (t h).next ≡ y = v.2.0 in
    record {
      rest = ys ++ (h ∷ []);
      order = rw e refl;
      walk = rw e (
          snoc-Walk t y ys h y (ground (arith, v.1.0)) e (v.1.1.0)
            (Arc-Walk t y ys h (ground (arith, v.1.0)) (v.2.2)));
    }
