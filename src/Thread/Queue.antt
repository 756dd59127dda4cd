-- ===== src/Thread/Queue.antt =====
-- src/list.h, queue_push_back and queue_pop: circular lists with links in both directions.
use smor.Prelude.{
  ℕ, ◌≡◌, ◌≢◌, refl, ◌∙◌, arith, ◌==◌, if◌then◌else◌, true, false, List, [], ◌∷◌, ◌++◌, has,
  Distinct, Distinct-snoc, has-append,
}
use smor.Thread.{Thread, set_next, set_prev, queue_push_back}

-- from `p` the links lead through `xs` to `q`, and back
abbrev pub Arc : (ℕ → Thread) → ℕ → List ℕ → ℕ → Type 0
Arc t p [] q = ((t p).next ≡ q) × ((t q).prev ≡ p)
Arc t p (x ∷ xs) q = ((t p).next ≡ x) × ((t x).prev ≡ p) × Arc t x xs q

-- the queue with the head `h` holds `h` and then `xs`, each once
abbrev pub IsQueue : (ℕ → Thread) → ℕ → List ℕ → Type 0
IsQueue t h xs = (h ≢ 0) × Distinct (h ∷ xs) × Arc t h xs h

-- the last element of an arc is what its end leads back to
has-prev :
    (t : ℕ → Thread) (p : ℕ) (xs : List ℕ) (q : ℕ) → Arc t p xs q → has ((t q).prev) (p ∷ xs) ≡ true
has-prev t p [] q c = ground (arith, c.1)
has-prev t p (x ∷ xs) q c = ground (arith, has-prev t x xs q (c.2))

-- the end of an arc, with the element `e` put before `q`
snoc-Arc :
    (t t' : ℕ → Thread) (p : ℕ) (xs : List ℕ) (q e : ℕ)
    → Arc t p xs q
    → has e (p ∷ xs) ≡ false
    → Distinct (p ∷ xs)
    → has q xs ≡ false
    → ((a : ℕ) → has a (p ∷ xs) ≡ true → (t' a).next ≡ (if a == (t q).prev then e else (t a).next))
    → ((a : ℕ) → has a xs ≡ true → (t' a).prev ≡ (t a).prev)
    → (t' e).next ≡ q
    → (t' e).prev ≡ (t q).prev
    → (t' q).prev ≡ e
    → Arc t' p (xs ++ (e ∷ [])) q
snoc-Arc t t' p [] q e c out d away nexts prevs en ep qp =
    (ground (arith, nexts p, c.1), ep ∙ c.1, (en, qp))
snoc-Arc t t' p (x ∷ xs) q e c out d away nexts prevs en ep qp = (
  ground (arith, nexts p, c.0, has-prev t x xs q (c.2)),
  prevs x (ground arith) ∙ c.1,
  snoc-Arc t t' x xs q e (c.2) (ground arith) (d.1) (ground arith) (λ a m. nexts a (ground arith))
      (λ a m. prevs a (ground arith)) en ep qp,
)

-- the memory after `queue_push_back` with a head
abbrev pushed : (ℕ → Thread) → ℕ → ℕ → ℕ → Thread
pushed t h e =
    (let t1 = set_next t e h in
      let t2 = set_prev t1 e ((t1 h).prev) in
      let t3 = set_next t2 ((t2 e).prev) e in set_prev t3 h e)

pushed-Arc :
    (t : ℕ → Thread) (h e : ℕ) (xs : List ℕ)
    → has e (h ∷ xs) ≡ false
    → Distinct (h ∷ xs)
    → Arc t h xs h
    → Arc (pushed t h e) h (xs ++ (e ∷ [])) h
pushed-Arc t h e xs out d c =
    snoc-Arc t (pushed t h e) h xs h e c out d (d.0) (λ a m. ground arith)
      (λ a m. ground (arith, d.0)) (ground (arith, has-prev t h xs h c))
      (ground (arith, has-prev t h xs h c)) (ground arith)

-- `queue_push_back` puts an element that is not in the queue at its end, leaves the head as it is,
-- and changes no cell that is not the element or in the queue.
pub push_back-IsQueue :
    (t : ℕ → Thread) (h e : ℕ) (xs : List ℕ)
    → has e (h ∷ xs) ≡ false
    → IsQueue t h xs
    → ((queue_push_back t h e).0 ≡ h)
      × IsQueue ((queue_push_back t h e).1) h (xs ++ (e ∷ []))
      × ((a : ℕ) → has a (e ∷ h ∷ xs) ≡ false → (queue_push_back t h e).1 a ≡ t a)
push_back-IsQueue t h e xs out v =
    let some : (h == 0) ≡ false = ground (arith, v.0) in
    rw some (
      refl,
      (
        v.0,
        (ground (arith, has-append h xs (e ∷ []), v.1), Distinct-snoc xs e (v.1.1) (ground arith)),
        pushed-Arc t h e xs out (v.1) (v.2),
      ),
      λ a m. ground (arith, has-prev t h xs h (v.2)),
    )

-- On an empty queue `queue_push_back` makes the element the queue.
pub push_back_first :
    (t : ℕ → Thread) (e : ℕ)
    → e ≢ 0
    → ((queue_push_back t 0 e).0 ≡ e) × IsQueue ((queue_push_back t 0 e).1) e []
push_back_first t e ne = (refl, (ne, (refl, tt), (ground arith, ground arith)))

-- A queue depends on the links only.
pub IsQueue-links :
    (t t' : ℕ → Thread) (h : ℕ) (xs : List ℕ)
    → ((a : ℕ) → (t' a).next ≡ (t a).next)
    → ((a : ℕ) → (t' a).prev ≡ (t a).prev)
    → IsQueue t h xs
    → IsQueue t' h xs
IsQueue-links t t' h xs nexts prevs v = (v.0, v.1, arc h xs h (v.2))
  where
    arc : (p : ℕ) (ys : List ℕ) (q : ℕ) → Arc t p ys q → Arc t' p ys q
    arc p [] q c = (nexts p ∙ c.0, prevs q ∙ c.1)
    arc p (y ∷ ys) q c = (nexts p ∙ c.0, prevs y ∙ c.1, arc y ys q (c.2))
