-- ===== src/Thread/WaitList.antt =====
-- src/thread.h, thread_list_push and thread_list_pop: the threads that wait, first in, first out.
use smor.Prelude.{
  ℕ, ◌≡◌, ◌≢◌, refl, arith, ◌==◌, true, false, List, [], ◌∷◌, ◌++◌, has, Distinct, Distinct-snoc,
}
use smor.Thread.{Thread, ThreadList, set_next_wait, thread_list_push, thread_list_pop}

-- from `p` the links lead through `xs` to NULL, and `tail` is the last thread
abbrev pub Line : (ℕ → Thread) → ℕ → List ℕ → ℕ → Type 0
Line t p [] tail = ((t p).next_wait ≡ 0) × (tail ≡ p)
Line t p (x ∷ xs) tail = ((t p).next_wait ≡ x) × (x ≢ 0) × Line t x xs tail

-- the list holds `xs`, the thread that waits longest first; nothing is known of the tail of an empty
-- list, which `thread_list_pop` leaves behind
abbrev pub Waits : (ℕ → Thread) → ThreadList → List ℕ → Type 0
Waits t tl [] = tl.head ≡ 0
Waits t tl (x ∷ xs) = (tl.head ≡ x) × (x ≢ 0) × Distinct (x ∷ xs) × Line t x xs tl.tail

tail_in :
    (t : ℕ → Thread) (p : ℕ) (xs : List ℕ) (tail : ℕ) → Line t p xs tail → has tail (p ∷ xs) ≡ true
tail_in t p [] tail c = ground (arith, c.1)
tail_in t p (x ∷ xs) tail c = ground (arith, tail_in t x xs tail (c.2))

snoc-Line :
    (t : ℕ → Thread) (p : ℕ) (xs : List ℕ) (tail e : ℕ)
    → Line t p xs tail
    → e ≢ 0
    → has e (p ∷ xs) ≡ false
    → Distinct (p ∷ xs)
    → Line (set_next_wait (set_next_wait t tail e) e 0) p (xs ++ (e ∷ [])) e
snoc-Line t p [] tail e c ne out d = (ground (arith, c.1), ne, (ground arith, refl))
snoc-Line t p (x ∷ xs) tail e c ne out d = (
  ground (arith, c.0, d.0, tail_in t x xs tail (c.2)),
  c.1,
  snoc-Line t x xs tail e (c.2) ne (ground arith) (d.1),
)

-- what `thread_list_push` does to a list that holds `xs`
abbrev pub Pushed : (ℕ → Thread) → ThreadList → List ℕ → ℕ → Type 0
Pushed t tl xs e =
    let (tl', t') = thread_list_push t tl e in
    Waits t' tl' (xs ++ (e ∷ [])) × ((a : ℕ) → has a (e ∷ xs) ≡ false → t' a ≡ t a)

-- `thread_list_push` puts a thread that does not wait yet at the end, and changes no cell that is
-- not the thread or in the list.
pub push-Pushed :
    (t : ℕ → Thread) (tl : ThreadList) (xs : List ℕ) (e : ℕ)
    → e ≢ 0
    → has e xs ≡ false
    → Waits t tl xs
    → Pushed t tl xs e
unfolding thread_list_push
push-Pushed t tl [] e ne out v =
    let none : (tl.head == 0) ≡ true = ground (arith, v) in
    rw none ((refl, ne, (refl, tt), (ground arith, refl)), λ a m. ground arith)
push-Pushed t tl (x ∷ xs) e ne out v =
    let some : (tl.head == 0) ≡ false = ground (arith, v.0, v.1) in
    rw some (
      (v.0, v.1, Distinct-snoc (x ∷ xs) e (v.2) out, snoc-Line t x xs tl.tail e (v.3) ne out (v.2)),
      λ a m. ground (arith, tail_in t x xs tl.tail (v.3)),
    )

-- what `thread_list_pop` does to a list that holds `xs`
abbrev pub Popped : (ℕ → Thread) → ThreadList → List ℕ → Type 0
Popped t tl [] = thread_list_pop t tl ≡ (0, tl)
Popped t tl (x ∷ xs) = let (e, tl') = thread_list_pop t tl in (e ≡ x) × Waits t tl' xs

-- `thread_list_pop` returns NULL on an empty list, which stays as it is, and otherwise takes the
-- thread that has waited longest off the list.
pub pop-Popped : (t : ℕ → Thread) (tl : ThreadList) (xs : List ℕ) → Waits t tl xs → Popped t tl xs
unfolding thread_list_pop
pop-Popped t tl [] v = ground (arith, v)
pop-Popped t tl (x ∷ []) v =
    let some : (tl.head == 0) ≡ false = ground (arith, v.0, v.1) in
    rw some (v.0, ground (arith, v.0, v.3))
pop-Popped t tl (x ∷ y ∷ xs) v =
    let some : (tl.head == 0) ≡ false = ground (arith, v.0, v.1) in
    let next : (t tl.head).next_wait ≡ y = ground (arith, v.0, v.3.0) in
    rw some (v.0, (next, v.3.1, v.2.1, v.3.2))
