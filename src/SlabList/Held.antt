-- ===== src/SlabList/Held.antt =====
-- src/slab.c: the chunks of a list that its clients hold.
use native.Mathlib.Nat.{mul-div_cancel, one-le-pow}
use smor.Prelude.{
  ℕ, ◌*◌, ◌/◌, ◌^◌, ◌≤◌, ◌<◌, ◌≡◌, ◌≢◌, refl, sym, subst, ◌∙◌, ap, ◌||◌, Bool-cases, inl, inr, true,
  false, ◌==◌, List, [], ◌∷◌, has, Distinct, update, erase, has-erase, has-erase_ne, erase-Distinct,
  length-le_of_range, arith, eq_of_test, ==_refl,
}
use smor.Slab.{Slab}
use smor.Slab.FreeList.{chunk_at, taken, given}
use smor.SlabList.{Heap}
use smor.SlabList.Valid.{IsSlabList}
use smor.SlabList.Alloc.{Takes, open_after, full_after}
use smor.SlabList.Free.{Frees, slab_of_address, open_returned, full_returned, is_spare}

-- `a` is the address of a chunk that is not free
abbrev pub IsTaken : Heap → (fs us : List ℕ) → (ℕ → List ℕ) → (a : ℕ) → Type 0
IsTaken m fs us free a =
    (s i : ℕ) × ((has s fs || has s us) ≡ true)
    × (a ≡ chunk_at s (m.slabs s) i)
    × ((m.slabs s).num_reserved ≤ i)
    × (i < (m.slabs s).num_chunks)
    × (has i (free s) ≡ false)

-- the clients of the list hold `held`: different chunks, none of them free
pub record IsHeld (m : Heap) (sl : ℕ) (fs us : List ℕ) (free : ℕ → List ℕ) (held : List ℕ)
    : Type 0 where
  pub list : IsSlabList m sl fs us free
  pub root : (m.lists sl).sl_owner ≡ 0
  pub distinct : Distinct held
  pub all_taken : (a : ℕ) → has a held ≡ true → IsTaken m fs us free a

-- the sizes of the slabs are the same in both
abbrev SameShape : (f g : ℕ → Slab) → Type 0
SameShape f g =
    (t : ℕ)
    → ((f t).chunk_shift ≡ (g t).chunk_shift)
      × ((f t).num_chunks ≡ (g t).num_chunks)
      × ((f t).num_reserved ≡ (g t).num_reserved)

update-SameShape :
    (f : ℕ → Slab) (s : ℕ) (v : Slab)
    → (v.chunk_shift ≡ (f s).chunk_shift)
      × (v.num_chunks ≡ (f s).num_chunks)
      × (v.num_reserved ≡ (f s).num_reserved)
    → SameShape (update f s v) f
update-SameShape f s v e t = elim (Bool-cases (t == s)) [
  | inl same ↦ rw same (
      subst
        (λ x.
          (v.chunk_shift ≡ (f x).chunk_shift)
          × (v.num_chunks ≡ (f x).num_chunks)
          × (v.num_reserved ≡ (f x).num_reserved))
        (sym (eq_of_test t s same)) e)
  | inr other ↦ rw other (refl, refl, refl)
]

module _ {m : Heap} {sl : ℕ} {fs us : List ℕ} {free : ℕ → List ℕ}
    (w : IsSlabList m sl fs us free) where
  -- an address is that of one chunk
  chunk_unique :
      (s i t j : ℕ)
      → (has s fs || has s us) ≡ true
      → (has t fs || has t us) ≡ true
      → i < (m.slabs s).num_chunks
      → j < (m.slabs t).num_chunks
      → chunk_at s (m.slabs s) i ≡ chunk_at t (m.slabs t) j
      → (s ≡ t) × (i ≡ j)
  chunk_unique s i t j hs ht li lj e =
      let size = 2 ^ (m.lists sl).size_shift in
      let slabs_eq : s ≡ t =
        sym (slab_of_address i (w.slab s hs) li)
        ∙ ap (λ a. a / size * size) e
        ∙ slab_of_address j (w.slab t ht) lj in
      let n = 2 ^ (m.slabs s).chunk_shift in
      let e' : chunk_at s (m.slabs s) i ≡ chunk_at s (m.slabs s) j =
        e ∙ ap (λ x. chunk_at x (m.slabs x) j) (sym slabs_eq) in
      let scaled : i * n ≡ j * n = omega (arith, e') in
      let pos : 0 < n = one-le-pow (m.slabs s).chunk_shift 2 (omega arith) in
      (slabs_eq, sym (mul-div_cancel i pos) ∙ ap (λ x. x / n) scaled ∙ mul-div_cancel j pos)

-- a chunk that is taken stays so while its slab does, and it is not freed
kept-IsTaken :
    (m m' : Heap) (fs us : List ℕ) (free : ℕ → List ℕ) (a s i : ℕ)
    → SameShape m'.slabs m.slabs
    → (has s fs || has s us) ≡ true
    → a ≡ chunk_at s (m.slabs s) i
    → (m.slabs s).num_reserved ≤ i
    → i < (m.slabs s).num_chunks
    → has i (free s) ≡ false
    → IsTaken m' fs us free a
kept-IsTaken m m' fs us free a s i shape mem at lo hi out =
    let e = shape s in (s, i, mem, at ∙ rw (e.0) refl, rw (e.2) lo, rw (e.1) hi, out)

update_out :
    (free : ℕ → List ℕ) (s : ℕ) (xs : List ℕ) (r i : ℕ)
    → (r ≡ s → has i xs ≡ false)
    → has i (free r) ≡ false
    → has i (update free s xs r) ≡ false
update_out free s xs r i same other = elim (Bool-cases (r == s)) [
  | inl h ↦ rw h (same (eq_of_test r s h))
  | inr h ↦ rw h other
]

-- the slabs of the list are the same after a chunk of one of them is taken
after_same :
    (t s : ℕ) (xs fs us : List ℕ)
    → (has t (s ∷ fs) || has t us) ≡ true
    → (has t (open_after s xs fs) || has t (full_after s xs us)) ≡ true
after_same t s [] fs us h = ground arith
after_same t s (x ∷ xs) fs us h = h

module _ {m m' : Heap} {sl : ℕ} {fs us : List ℕ} {free : ℕ → List ℕ} {held : List ℕ} (s x : ℕ)
    (xs : List ℕ) (c : IsHeld m sl (s ∷ fs) us free held) (e : free s ≡ x ∷ xs)
    (t : Takes m m' sl s x xs fs us free) where
  shape_kept : SameShape m'.slabs m.slabs
  shape_kept =
      subst (λ f. SameShape f m.slabs) (sym (t.3))
        (update-SameShape m.slabs s (taken (m.slabs s) x) (refl, refl, refl))

  first_free : has x (free s) ≡ true
  first_free = subst (λ l. has x l ≡ true) (sym e) (ground arith)

  first_inside : ((m.slabs s).num_reserved ≤ x) × (x < (m.slabs s).num_chunks)
  first_inside = ((c.list.slab s (ground arith)).free.inside x first_free)

  new_address : has (chunk_at s (m.slabs s) x) held ≡ false
  new_address = elim (Bool-cases (has (chunk_at s (m.slabs s) x) held)) [
    | inl old ↦
        let (r, i, mem, at, lo, hi, out) = c.all_taken (chunk_at s (m.slabs s) x) old in
        let (same, index) = chunk_unique c.list s x r i (ground arith) mem (first_inside.1) hi at in
        let out' : has x (free s) ≡ false = rw (index, same) out in
        absurd (ground (arith, out', first_free))
    | inr new ↦ new
  ]

  first_once : has x xs ≡ false
  first_once = (subst Distinct e (c.list.slab s (ground arith)).free.distinct).0

  rest_out : (i : ℕ) → has i (free s) ≡ false → has i xs ≡ false
  rest_out i h =
      let h' : has i (x ∷ xs) ≡ false = subst (λ l. has i l ≡ false) e h in ground (arith, h')

  pub taken-IsHeld :
      IsHeld m' sl
        (open_after s xs fs)
        (full_after s xs us)
        (update free s xs)
        (chunk_at s (m.slabs s) x ∷ held)
  taken-IsHeld = record {
    list = t.0;
    root = ap (λ f. (f sl).sl_owner) (t.1) ∙ c.root;
    distinct = (new_address, c.distinct);
    all_taken = λ a h. elim (Bool-cases (a == chunk_at s (m.slabs s) x)) [
      | inl new ↦
          kept-IsTaken m m' (open_after s xs fs) (full_after s xs us) (update free s xs) a s x
            shape_kept (after_same s s xs fs us (ground arith))
            (eq_of_test a (chunk_at s (m.slabs s) x) new) (first_inside.0) (first_inside.1)
            (rw (==_refl s) first_once)
      | inr old ↦
          let (r, i, mem, at, lo, hi, out) = c.all_taken a (ground (arith, old)) in
          kept-IsTaken m m' (open_after s xs fs) (full_after s xs us) (update free s xs) a r i
            shape_kept (after_same r s xs fs us mem) at lo hi
            (update_out free s xs r i
              (λ same. rest_out i (subst (λ k. has i (free k) ≡ false) same out)) out)
    ];
  }

module _ {m m' : Heap} {sl : ℕ} {fs us : List ℕ} {free : ℕ → List ℕ} {held : List ℕ} (s i : ℕ)
    (c : IsHeld m sl fs us free held) (mem : (has s fs || has s us) ≡ true)
    (lo : (m.slabs s).num_reserved ≤ i) (hi : i < (m.slabs s).num_chunks)
    (out : has i (free s) ≡ false) (t : Frees s i c.list lo hi out m') where
  given_shape : SameShape m'.slabs m.slabs
  given_shape =
      subst (λ f. SameShape f m.slabs) (sym (t.3))
        (update-SameShape m.slabs s (given (m.slabs s) i) (refl, refl, refl))

  opens : List ℕ
  opens = open_returned s i c.list lo hi out

  fulls : List ℕ
  fulls = full_returned s i c.list lo hi out

  -- the slabs of the list, but for one that is given back
  returned_other :
      (r : ℕ) → r ≢ s → (has r fs || has r us) ≡ true → (has r opens || has r fulls) ≡ true
  unfolding opens fulls
  returned_other r ne h = ground (arith, has-erase_ne r s fs ne, has-erase_ne r s us ne)

  returned_self : is_spare s i c.list lo hi out ≡ false → (has s opens || has s fulls) ≡ true
  unfolding opens fulls
  returned_self stays = ground (arith, stays, mem)

  -- a slab with another chunk that is taken is not given back
  not_spare :
      (j : ℕ)
      → (m.slabs s).num_reserved ≤ j
      → j < (m.slabs s).num_chunks
      → has j (free s) ≡ false
      → j ≢ i
      → is_spare s i c.list lo hi out ≡ false
  not_spare j lo' hi' out' ne =
      let v = (c.list.slab s mem).free in
      let room =
        length-le_of_range (m.slabs s).num_reserved (m.slabs s).num_chunks (j ∷ i ∷ free s)
          (omega arith) (ground (arith, v.distinct), (out, v.distinct))
          (λ k h. ground (arith, v.inside k)) in
      ground (arith, room)

  is_other : (j : ℕ) → has j (free s) ≡ false → j ≢ i → has j (i ∷ free s) ≡ false
  is_other j h ne = ground (arith, h, ne)

  still-IsTaken :
      (b r j : ℕ)
      → b ≢ chunk_at s (m.slabs s) i
      → (has r fs || has r us) ≡ true
      → b ≡ chunk_at r (m.slabs r) j
      → (m.slabs r).num_reserved ≤ j
      → j < (m.slabs r).num_chunks
      → has j (free r) ≡ false
      → IsTaken m' opens fulls (update free s (i ∷ free s)) b
  still-IsTaken b r j ne mem' at lo' hi' out' = elim (Bool-cases (r == s)) [
    | inl same ↦
        let e = eq_of_test r s same in
        let other : j ≢ i =
          λ k. ne (at ∙ ap (λ q. chunk_at q (m.slabs q) j) e ∙ ap (chunk_at s (m.slabs s)) k) in
        let stays =
          not_spare j (subst (λ q. (m.slabs q).num_reserved ≤ j) e lo')
            (subst (λ q. j < (m.slabs q).num_chunks) e hi')
            (subst (λ q. has j (free q) ≡ false) e out') other in
        kept-IsTaken m m' opens fulls (update free s (i ∷ free s)) b r j given_shape
          (subst (λ q. (has q opens || has q fulls) ≡ true) (sym e) (returned_self stays)) at lo'
          hi'
          (update_out free s (i ∷ free s) r j
            (λ q. is_other j (subst (λ q. has j (free q) ≡ false) e out') other) out')
    | inr away ↦
        kept-IsTaken m m' opens fulls (update free s (i ∷ free s)) b r j given_shape
          (returned_other r (ground (arith, away)) mem') at lo' hi'
          (update_out free s (i ∷ free s) r j (λ q. absurd (ground (arith, away))) out')
  ]

  pub given-IsHeld :
      IsHeld m' sl
        (open_returned s i c.list lo hi out)
        (full_returned s i c.list lo hi out)
        (update free s (i ∷ free s))
        (erase (chunk_at s (m.slabs s) i) held)
  unfolding opens fulls
  given-IsHeld = record {
    list = t.0;
    root = ap (λ f. (f sl).sl_owner) (t.1) ∙ c.root;
    distinct = erase-Distinct (chunk_at s (m.slabs s) i) held c.distinct;
    all_taken = λ b h.
        let (b_held, ne) = has-erase b (chunk_at s (m.slabs s) i) held c.distinct h in
        let (r, j, mem', at, lo', hi', out') = c.all_taken b b_held in
        still-IsTaken b r j ne mem' at lo' hi' out';
  }
