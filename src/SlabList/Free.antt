-- ===== src/SlabList/Free.antt =====
-- src/slab.c, slab_list_free on a list whose memory has no owner.
use native.Mathlib.Nat.{add-mul-div_right, div-eq_of_lt, suc-mul, mul-le-mul_right, one-le-pow}
use smor.Prelude.{
  ℕ, length, ◌%◌, suc, ◌+◌, ◌*◌, ◌/◌, ◌^◌, ◌≤◌, ◌<◌, ◌≡◌, refl, sym, subst, ◌∙◌, ◌||◌, ◌&&◌, not,
  Bool, Bool-cases, inl, inr, true, false, ◌==◌, ==_refl, if◌then◌else◌, List, ◌∷◌, ◌++◌, has,
  has-append, erase, has-split, has-middle, update, done, arith,
}
use smor.Slab.{Slab, slab_free, slab_is_full, slab_is_empty, slab_is_reserved}
use smor.Slab.FreeList.{chunk_at, given, slab_free-given, given-IsFree}
use smor.Dlist.Pair.{ArePair, swap_pair, move-ArePair, remove-ArePair, Distinct-middle}
use smor.SlabList.{Heap, free_slabs, used_slabs, set_slab, insert, remove, slab_list_free}
use smor.SlabList.Valid.{IsSlab, set-IsSlab, IsSlabList, lock-locked, unlock-locked}

aligned_add : (n s off : ℕ) → 0 < n → off < n → s / n * n ≡ s → (s + off) / n * n ≡ s
aligned_add n s off pos lt aligned =
    let sum : s + off ≡ off + s / n * n = omega (arith, aligned) in
    let same : (off + s / n * n) / n ≡ s / n =
      add-mul-div_right off (s / n) pos ∙ omega (arith, div-eq_of_lt {n = off} {m = n} lt) in
    rw (sum, same) aligned

-- the slab that an address belongs to
pub slab_of_address :
    {shift : ℕ} {v : Slab} {s : ℕ} {xs : List ℕ} (i : ℕ)
    → IsSlab shift v s xs
    → i < v.num_chunks
    → chunk_at s v i / 2 ^ shift * 2 ^ shift ≡ s
slab_of_address {shift} {v} {s} i w lt =
    let below : i * 2 ^ v.chunk_shift < 2 ^ shift = omega (
      arith,
      w.room,
      suc-mul i (2 ^ v.chunk_shift),
      one-le-pow v.chunk_shift 2 (omega arith),
      mul-le-mul_right {m = suc i} {n = v.num_chunks} (2 ^ v.chunk_shift) (omega arith),
    ) in
    aligned_add (2 ^ shift) s (i * 2 ^ v.chunk_shift) (one-le-pow shift 2 (omega arith)) below
      w.aligned

-- the heap after a chunk is given back, when its slab was or was not full, and is or is not to be
-- given back itself
abbrev returned : (sl s : ℕ) → Slab → (was_full gone : Bool) → Heap → Heap
returned sl s v was_full gone m =
    let m1 = set_slab m s v in
    if was_full then insert (remove m1 s) (free_slabs sl) s else if gone then remove m1 s else m1

root-free :
    (fuel sl addr s : ℕ) (m : Heap)
    → (m.lists sl).lock ≡ 0
    → (m.lists sl).sl_owner ≡ 0
    → addr / 2 ^ (m.lists sl).size_shift * 2 ^ (m.lists sl).size_shift ≡ s
    → slab_list_free (suc fuel) sl addr m ≡ (
        let v = slab_free s (m.slabs s) addr in
        done (
          returned sl s v
            (slab_is_full (m.slabs s))
            (slab_is_empty v && not (slab_is_reserved v))
            m))
unfolding slab_list_free
root-free fuel sl addr s m free root at =
    let is_root : ((m.lists sl).sl_owner == 0) ≡ true = ground (arith, root) in
    let v = slab_free s (m.slabs s) addr in
    let m1 = set_slab m s v in
    let gone = slab_is_empty v && not (slab_is_reserved v) in
    rw (lock-locked sl m free, at, ==_refl sl, is_root)
      (elim (Bool-cases (slab_is_full (m.slabs s))) [
        | inl full ↦
            rw (full, unlock-locked sl (insert (remove m1 s) (free_slabs sl) s) m.lists free) refl
        | inr part ↦ rw part (elim (Bool-cases gone) [
          | inl e ↦ rw (e, unlock-locked sl (remove m1 s) m.lists free) refl
          | inr e ↦ rw (e, unlock-locked sl m1 m.lists free) refl
        ])
      ])

module _ {m : Heap} {sl : ℕ} {fs us : List ℕ} {free : ℕ → List ℕ} (s i : ℕ)
    (w : IsSlabList m sl fs us free) (lo : (m.slabs s).num_reserved ≤ i)
    (hi : i < (m.slabs s).num_chunks) (out : has i (free s) ≡ false) where
  given-IsSlab :
      (has s fs || has s us) ≡ true
      → IsSlab (m.lists sl).size_shift (given (m.slabs s) i) s (i ∷ free s)
  given-IsSlab h =
      let v = w.slab s h in
      record { free = given-IsFree i (free s) v.free lo hi out; aligned = v.aligned; room = v.room }

  full-returned :
      (ys zs : List ℕ) (gone : Bool)
      → us ≡ ys ++ s ∷ zs
      → IsSlabList
          (returned sl s (given (m.slabs s) i) true gone m)
          sl
          (s ∷ fs)
          (ys ++ zs)
          (update free s (i ∷ free s))
  full-returned ys zs gone e =
      let h : has s us ≡ true = rw e (ground (arith, has-append s ys (s ∷ zs))) in
      let v = given-IsSlab (ground arith) in
      let p =
        move-ArePair s ys zs (omega arith) (
          subst (λ l. ArePair m.links (used_slabs sl) (free_slabs sl) l fs) e
            (swap_pair w.lists)) in
      let kept : (t : ℕ) → has t (ys ++ zs) ≡ true → has t us ≡ true =
        λ t mem. subst (λ l. has t l ≡ true) (sym e) (has-middle t s ys zs mem) in
      record {
        lists = swap_pair p;
        slab = λ t mem. set-IsSlab m.slabs free v t (λ ne. w.slab t (ground (arith, kept t)));
        some_free = λ t mem. ground (arith, v.free.count, w.some_free t);
        none_free = λ t mem. ground (arith, p.apart t, kept t, w.none_free t);
        unlocked = w.unlocked;
      }

  stays_open :
      has s fs ≡ true
      → IsSlabList
          (returned sl s (given (m.slabs s) i) false false m)
          sl
          fs
          us
          (update free s (i ∷ free s))
  stays_open h =
      let v = given-IsSlab (ground arith) in
      record {
        lists = w.lists;
        slab = λ t mem. set-IsSlab m.slabs free v t (λ ne. w.slab t mem);
        some_free = λ t mem. ground (arith, v.free.count, w.some_free t);
        none_free = λ t mem. ground (arith, w.lists.apart s, w.none_free t);
        unlocked = w.unlocked;
      }

  given_back :
      (ys zs : List ℕ)
      → fs ≡ ys ++ s ∷ zs
      → IsSlabList
          (returned sl s (given (m.slabs s) i) false true m)
          sl
          (ys ++ zs)
          us
          (update free s (i ∷ free s))
  given_back ys zs e =
      let h : has s fs ≡ true = rw e (ground (arith, has-append s ys (s ∷ zs))) in
      let pair = subst (λ l. ArePair m.links (free_slabs sl) (used_slabs sl) l us) e w.lists in
      let p = remove-ArePair s ys zs (omega arith) pair in
      let away = (Distinct-middle s ys zs pair.first_distinct).1 in
      let kept : (t : ℕ) → has t (ys ++ zs) ≡ true → has t fs ≡ true =
        λ t mem. subst (λ l. has t l ≡ true) (sym e) (has-middle t s ys zs mem) in
      let v = given-IsSlab (ground arith) in
      record {
        lists = p;
        slab = λ t mem. set-IsSlab m.slabs free v t (λ ne. w.slab t (ground (arith, kept t)));
        some_free = λ t mem. ground (arith, away, kept t, w.some_free t);
        none_free = λ t mem. ground (arith, w.lists.apart s, w.none_free t);
        unlocked = w.unlocked;
      }

  -- the slab is given back when all its chunks are free, unless it is a reserved one
  abbrev pub is_spare : Bool
  is_spare =
      (suc (length (free s)) + (m.slabs s).num_reserved == (m.slabs s).num_chunks)
      && not ((m.slabs s).flags % 2 == 1)

  -- the lists after the chunk is given back
  abbrev pub open_returned : List ℕ
  open_returned = if has s us then s ∷ fs else if is_spare then erase s fs else fs

  abbrev pub full_returned : List ℕ
  full_returned = if has s us then erase s us else us

  returned-IsSlabList :
      (has s fs || has s us) ≡ true
      → IsSlabList
          (returned sl s (given (m.slabs s) i) (has s us) is_spare m)
          sl
          open_returned
          full_returned
          (update free s (i ∷ free s))
  returned-IsSlabList h = elim (Bool-cases (has s us)) [
    | inl full ↦
        let (ys, zs, e, same) = has-split s us full in
        rw (full, same) (full-returned ys zs is_spare e)
    | inr part ↦
        let h' : has s fs ≡ true = ground (arith, h) in
        elim (Bool-cases is_spare) [
          | inl spare ↦
              let (ys, zs, e, same) = has-split s fs h' in
              rw (part, spare, same) (given_back ys zs e)
          | inr stays ↦ rw (part, stays) (stays_open h')
        ]
  ]

  was_full : (has s fs || has s us) ≡ true → slab_is_full (m.slabs s) ≡ has s us
  unfolding slab_is_full
  was_full h = ground (arith, w.some_free s, w.none_free s, w.lists.apart s)

  becomes_spare :
      (has s fs || has s us) ≡ true
      → (slab_is_empty (given (m.slabs s) i) && not (slab_is_reserved (given (m.slabs s) i)))
        ≡ is_spare
  unfolding slab_is_empty slab_is_reserved
  becomes_spare h = let v = given-IsSlab h in rw v.free.count refl

  -- what `slab_list_free` promises when it gives back the chunk `i` of the slab `s`
  abbrev pub Frees : Heap → Type 0
  Frees m' =
      IsSlabList m' sl open_returned full_returned (update free s (i ∷ free s))
      × (m'.lists ≡ m.lists)
      × (m'.boot ≡ m.boot)
      × (m'.slabs ≡ update m.slabs s (given (m.slabs s) i))

  returned-rest :
      (v : Slab) (full gone : Bool)
      → ((returned sl s v full gone m).lists ≡ m.lists)
        × ((returned sl s v full gone m).boot ≡ m.boot)
        × ((returned sl s v full gone m).slabs ≡ update m.slabs s v)
  returned-rest v true gone = (refl, refl, refl)
  returned-rest v false true = (refl, refl, refl)
  returned-rest v false false = (refl, refl, refl)

  -- On a well-formed list whose memory comes from no other list, `slab_list_free` of the address of a
  -- chunk after the header of one of its slabs that is not free finds the slab of the address, and
  -- ends. The chunk is free again, and the list is well formed: a slab that was full is the first
  -- open one, even if it has no other chunk; a slab that was not full and is free as a whole now is
  -- in no list any more, unless it is reserved. The lock is free again, and no other slab changes.
  pub slab_list_free-Frees :
      (fuel : ℕ)
      → (m.lists sl).sl_owner ≡ 0
      → (has s fs || has s us) ≡ true
      → (m' : Heap) × (slab_list_free (suc fuel) sl (chunk_at s (m.slabs s) i) m ≡ done m')
        × Frees m'
  slab_list_free-Frees fuel root h =
      let v = w.slab s h in
      let r = returned-rest (given (m.slabs s) i) (has s us) is_spare in
      (
        returned sl s (given (m.slabs s) i) (has s us) is_spare m,
        root-free fuel sl (chunk_at s (m.slabs s) i) s m w.unlocked root (slab_of_address i v hi)
            ∙ rw (slab_free-given i (free s) v.free hi, was_full h, becomes_spare h) refl,
        (returned-IsSlabList h, r.0, r.1, r.2),
      )
