-- ===== src/SlabList/Alloc.antt =====
-- src/slab.c, slab_list_alloc on a list that has a free chunk.
use smor.Prelude.{
  ℕ, suc, ◌≡◌, ◌≢◌, refl, sym, subst, ap, Bool-cases, inl, inr, true, false, ◌==◌, ==_refl, ne→==,
  if◌then◌else◌, List, [], ◌∷◌, update, done, arith,
}
use smor.Slab.{Slab, slab_alloc, slab_is_full}
use smor.Slab.FreeList.{chunk_at, taken, alloc-taken, taken-IsFree}
use smor.Dlist.Pair.{move-ArePair}
use smor.SlabList.{
  SlabList, Heap, free_slabs, used_slabs, set_slab, insert, remove, slab_alloc_at, alloc_from,
  slab_list_alloc,
}
use smor.SlabList.Valid.{IsSlab, set-IsSlab, IsSlabList, locked, lock-locked, unlock-locked}

-- the heap once `slab_alloc` has made `v` of the slab `s`
abbrev settled : (sl s : ℕ) → Slab → Heap → Heap
settled sl s v m =
    if slab_is_full v then insert (remove (set_slab m s v) s) (used_slabs sl) s else set_slab m s v

alloc_from-settled :
    (sl s a : ℕ) (v : Slab) (m : Heap)
    → slab_alloc s (m.slabs s) ≡ (a, v)
    → alloc_from sl s m ≡ (a, settled sl s v m)
unfolding alloc_from slab_alloc_at
alloc_from-settled sl s a v m e = rw (e, ==_refl s) refl

settled-lists :
    (sl s : ℕ) (v : Slab) (m : Heap) (lists : ℕ → SlabList)
    → settled sl s v (record m { lists = lists }) ≡ record (settled sl s v m) { lists = lists }
settled-lists sl s v m lists = elim (Bool-cases (slab_is_full v)) [
  | inl e ↦ rw e refl
  | inr e ↦ rw e refl
]

-- a list with an open slab at its head takes the first free chunk of that slab
open-alloc :
    (fuel sl s a : ℕ) (v : Slab) (m : Heap)
    → (m.lists sl).lock ≡ 0
    → m.links.heads (free_slabs sl) ≡ s
    → s ≢ 0
    → slab_alloc s (m.slabs s) ≡ (a, v)
    → slab_list_alloc (suc fuel) sl m ≡ done (a, settled sl s v m)
unfolding slab_list_alloc
open-alloc fuel sl s a v m free first ne e =
    let m1 = record m { lists = locked sl m.lists } in
    rw
      (
        lock-locked sl m free,
        first,
        ne→== s 0 ne,
        alloc_from-settled sl s a v m1 e,
        settled-lists sl s v m (locked sl m.lists),
        unlock-locked sl (settled sl s v m) m.lists free,
      )
      (ap (λ x. done (a, x)) (sym (settled-lists sl s v m m.lists)))

-- where the slab `s` is when its free chunks are `xs`
abbrev pub open_after : (s : ℕ) → (xs fs : List ℕ) → List ℕ
open_after s [] fs = fs
open_after s (x ∷ xs) fs = s ∷ fs

abbrev pub full_after : (s : ℕ) → (xs us : List ℕ) → List ℕ
full_after s [] us = s ∷ us
full_after s (x ∷ xs) us = us

taken-IsSlab :
    {shift : ℕ} {v : Slab} {s : ℕ} (x : ℕ) (xs : List ℕ)
    → IsSlab shift v s (x ∷ xs)
    → IsSlab shift (taken v x) s xs
taken-IsSlab x xs w = record { free = taken-IsFree x xs w.free; aligned = w.aligned; room = w.room }

module _ {m : Heap} {sl : ℕ} {fs us : List ℕ} {free : ℕ → List ℕ} (s x : ℕ)
    (w : IsSlabList m sl (s ∷ fs) us free) where
  first-IsSlab :
      (xs : List ℕ) → free s ≡ x ∷ xs → IsSlab (m.lists sl).size_shift (m.slabs s) s (x ∷ xs)
  first-IsSlab xs e =
      subst (IsSlab (m.lists sl).size_shift (m.slabs s) s) e (w.slab s (ground arith))

  taken-IsSlabList :
      (xs : List ℕ)
      → IsSlab (m.lists sl).size_shift (m.slabs s) s (x ∷ xs)
      → IsSlabList
          (settled sl s (taken (m.slabs s) x) m)
          sl
          (open_after s xs fs)
          (full_after s xs us)
          (update free s xs)
  unfolding slab_is_full
  taken-IsSlabList [] f =
      let v = taken (m.slabs s) x in
      let g = taken-IsSlab x [] f in
      let empty : (v.num_free == 0) ≡ true = ground (arith, g.free.count) in
      rw empty (record {
        lists = move-ArePair s [] fs (omega arith) w.lists;
        slab = λ t h. set-IsSlab m.slabs free g t (λ ne. w.slab t (ground arith));
        some_free = λ t h. ground (
          arith,
          g.free.count,
          w.some_free t,
          w.none_free t,
          w.lists.first_distinct,
          w.lists.apart t,
          w.lists.apart s,
        );
        none_free = λ t h. ground (
          arith,
          g.free.count,
          w.some_free t,
          w.none_free t,
          w.lists.first_distinct,
          w.lists.apart t,
          w.lists.apart s,
        );
        unlocked = w.unlocked;
      })
  taken-IsSlabList (y ∷ ys) f =
      let v = taken (m.slabs s) x in
      let g = taken-IsSlab x (y ∷ ys) f in
      let left : (v.num_free == 0) ≡ false = ground (arith, g.free.count) in
      rw left (record {
        lists = w.lists;
        slab = λ t h. set-IsSlab m.slabs free g t (λ ne. w.slab t h);
        some_free = λ t h. ground (
          arith,
          g.free.count,
          w.some_free t,
          w.none_free t,
          w.lists.first_distinct,
          w.lists.apart t,
          w.lists.apart s,
        );
        none_free = λ t h. ground (
          arith,
          g.free.count,
          w.some_free t,
          w.none_free t,
          w.lists.first_distinct,
          w.lists.apart t,
          w.lists.apart s,
        );
        unlocked = w.unlocked;
      })

-- what `slab_list_alloc` promises: it gives the chunk `x` of the slab `s`, whose other free chunks are
-- `xs`, and the slab moves to the full ones if that was its last
abbrev pub Takes : (m m' : Heap) → (sl s x : ℕ) → (xs fs us : List ℕ) → (ℕ → List ℕ) → Type 0
Takes m m' sl s x xs fs us free =
    IsSlabList m' sl (open_after s xs fs) (full_after s xs us) (update free s xs)
    × (m'.lists ≡ m.lists)
    × (m'.boot ≡ m.boot)
    × (m'.slabs ≡ update m.slabs s (taken (m.slabs s) x))

settled-rest :
    (sl s : ℕ) (v : Slab) (m : Heap)
    → ((settled sl s v m).lists ≡ m.lists)
      × ((settled sl s v m).boot ≡ m.boot)
      × ((settled sl s v m).slabs ≡ update m.slabs s v)
settled-rest sl s v m = elim (Bool-cases (slab_is_full v)) [
  | inl e ↦ rw e (refl, refl, refl)
  | inr e ↦ rw e (refl, refl, refl)
]

-- On a list with an open slab, `slab_list_alloc` gives the address of the first free chunk of the
-- first one. The list stays well formed: that chunk is no longer free and every other one is, and
-- the slab is with the full ones exactly if it has no free chunk left. The lock is free again, and
-- no other slab changes.
pub slab_list_alloc-Takes :
    {m : Heap} {sl : ℕ} {fs us : List ℕ} {free : ℕ → List ℕ} (fuel s x : ℕ) (xs : List ℕ)
    → IsSlabList m sl (s ∷ fs) us free
    → free s ≡ x ∷ xs
    → (m' : Heap) × (slab_list_alloc (suc fuel) sl m ≡ done (chunk_at s (m.slabs s) x, m'))
      × Takes m m' sl s x xs fs us free
slab_list_alloc-Takes {m} {sl} fuel s x xs w e =
    let f = first-IsSlab s x w xs e in
    let v = taken (m.slabs s) x in
    let r = settled-rest sl s v m in
    (
      settled sl s v m,
      open-alloc fuel sl s (chunk_at s (m.slabs s) x) v m w.unlocked (w.lists.first.0)
          (w.lists.first.1) (alloc-taken x xs f.free),
      (taken-IsSlabList s x w xs f, r.0, r.1, r.2),
    )
