-- ===== src/SlabList/Trace.antt =====
-- src/kmalloc.c: any run of clients that allocate chunks and give back chunks they hold.
use smor.Prelude.{
  ℕ, suc, ◌+◌, ◌^◌, ◌≤◌, ◌≡◌, ◌≢◌, refl, sym, ap, subst, ◌∙◌, ◌⊎◌, inl, inr, true, List, [], ◌∷◌,
  has, erase, done, done-eq, arith, range_from, ◌==◌, ==_refl, update, length,
}
use smor.Slab.FreeList.{chunk_at}
use smor.Kernel.Slack.{IsReady}
use smor.SlabList.{Heap, free_slabs, slab_list_alloc, kmalloc_init, kmalloc_alloc, kmalloc_free}
use smor.SlabList.Valid.{lock-locked, unlock-locked}
use smor.SlabList.Alloc.{open_after, full_after, slab_list_alloc-Takes}
use smor.SlabList.Free.{open_returned, full_returned, slab_list_free-Frees}
use smor.SlabList.Kmalloc.{Starts, kmalloc_init-Starts}
use smor.SlabList.Held.{IsHeld, taken-IsHeld, given-IsHeld}

-- a call of a client; the clients hold the addresses `held`, and 0 gives them nothing
pub data Step (fuel sl : ℕ) (m : Heap) (held : List ℕ) : Heap → List ℕ → Type 0 where
  alloc :
      {a : ℕ} {m' : Heap}
      → kmalloc_alloc fuel sl m ≡ done (a, m')
      → a ≢ 0
      → Step fuel sl m held m' (a ∷ held)
  refused : {m' : Heap} → kmalloc_alloc fuel sl m ≡ done (0, m') → Step fuel sl m held m' held
  give :
      {m' : Heap} (a : ℕ)
      → has a held ≡ true
      → kmalloc_free fuel sl a m ≡ done m'
      → Step fuel sl m held m' (erase a held)

-- the heaps that calls lead to from `init`, with the chunks then held
pub data Reach (fuel sl : ℕ) (init : Heap) : Heap → List ℕ → Type 0 where
  start : Reach fuel sl init init []
  later :
      {m m' : Heap} {held held' : List ℕ}
      → Reach fuel sl init m held
      → Step fuel sl m held m' held'
      → Reach fuel sl init m' held'

-- without an open slab there is nothing to give
root-alloc_none :
    (fuel sl : ℕ) (m : Heap)
    → (m.lists sl).lock ≡ 0
    → (m.lists sl).sl_owner ≡ 0
    → m.links.heads (free_slabs sl) ≡ 0
    → slab_list_alloc (suc fuel) sl m ≡ done (0, m)
unfolding slab_list_alloc
root-alloc_none fuel sl m free root none =
    let is_root : ((m.lists sl).sl_owner == 0) ≡ true = ground (arith, root) in
    let empty : (m.links.heads (free_slabs sl) == 0) ≡ true = ground (arith, none) in
    rw (lock-locked sl m free, ==_refl sl, is_root, empty, unlock-locked sl m m.lists free) refl

list_cases : (xs : List ℕ) → (xs ≡ []) ⊎ ((x : ℕ) × (ys : List ℕ) × (xs ≡ x ∷ ys))
list_cases [] = inl refl
list_cases (x ∷ xs) = inr (x, xs, refl)

-- what an allocation does in a state that calls can lead to
abbrev pub Allocated : (fuel sl : ℕ) → Heap → List ℕ → Type 0
Allocated fuel sl m held =
    (kmalloc_alloc fuel sl m ≡ done (0, m))
    ⊎ ((a : ℕ) × (m' : Heap) × (fs us : List ℕ) × (free : ℕ → List ℕ) × (kmalloc_alloc fuel sl m
          ≡ done (a, m'))
        × (a ≢ 0)
        × IsHeld m' sl fs us free (a ∷ held))

alloc-Allocated :
    {m : Heap} {sl : ℕ} {us : List ℕ} {free : ℕ → List ℕ} {held : List ℕ} (fuel : ℕ) (fs : List ℕ)
    → IsHeld m sl fs us free held
    → Allocated (suc fuel) sl m held
unfolding kmalloc_alloc
alloc-Allocated {m} {sl} fuel [] c =
    inl (root-alloc_none fuel sl m c.list.unlocked c.root c.list.lists.first)
alloc-Allocated {m} {sl} {us} {free} fuel (s ∷ fs) c =
    let v = (c.list.slab s (ground arith)).free in
    elim (list_cases (free s)) [
      | inl none ↦
          let nothing : length (free s) ≡ 0 = ap length none in
          absurd (omega (arith, v.count, nothing, c.list.some_free s (ground arith)))
      | inr (x, xs, e) ↦
          let (m', run, t) = slab_list_alloc-Takes fuel s x xs c.list e in
          inr (
            chunk_at s (m.slabs s) x,
            m',
            open_after s xs fs,
            full_after s xs us,
            update free s xs,
            run,
            λ z. c.list.lists.first.1 (omega (arith, z)),
            taken-IsHeld s x xs c e t,
          )
    ]

-- what giving back a chunk that is held does
free-Returns :
    {m : Heap} {sl : ℕ} {fs us : List ℕ} {free : ℕ → List ℕ} {held : List ℕ} (fuel a : ℕ)
    → IsHeld m sl fs us free held
    → has a held ≡ true
    → (m' : Heap) × (fs' us' : List ℕ) × (free' : ℕ → List ℕ) × (kmalloc_free (suc fuel) sl a m
        ≡ done m')
      × IsHeld m' sl fs' us' free' (erase a held)
unfolding kmalloc_free
free-Returns {m} {sl} {fs} {us} {free} {held} fuel a c h =
    let (s, i, mem, at, lo, hi, out) = c.all_taken a h in
    let (m', run, t) = slab_list_free-Frees s i c.list lo hi out fuel c.root mem in
    (
      m',
      open_returned s i c.list lo hi out,
      full_returned s i c.list lo hi out,
      update free s (i ∷ free s),
      rw at run,
      subst
          (λ b.
            IsHeld m' sl (open_returned s i c.list lo hi out) (full_returned s i c.list lo hi out)
              (update free s (i ∷ free s)) (erase b held))
          (sym at) (given-IsHeld s i c mem lo hi out t),
    )

-- the state between two calls
abbrev pub Sound : (sl : ℕ) → Heap → List ℕ → Type 0
Sound sl m held = (fs us : List ℕ) × (free : ℕ → List ℕ) × IsHeld m sl fs us free held

Step-Sound :
    {fuel sl : ℕ} {m m' : Heap} {held held' : List ℕ}
    → Step (suc fuel) sl m held m' held'
    → Sound sl m held
    → Sound sl m' held'
Step-Sound {fuel} {sl} {m} {m'} {held} (alloc {a} e ne) (fs, us, free, c) =
    elim (alloc-Allocated fuel fs c) [
      | inl none ↦ absurd (ne (ap (λ q. q.0) (done-eq (sym e ∙ none))))
      | inr (b, m1, fs', us', free', run, _, c') ↦
          subst (λ q. Sound sl (q.1) (q.0 ∷ held)) (done-eq (sym run ∙ e)) (fs', us', free', c')
    ]
Step-Sound {fuel} {sl} {m} {m'} {held} (refused e) (fs, us, free, c) =
    elim (alloc-Allocated fuel fs c) [
      | inl none ↦ subst (λ q. Sound sl (q.1) held) (done-eq (sym none ∙ e)) (fs, us, free, c)
      | inr (b, m1, fs', us', free', run, ne, _) ↦
          absurd (ne (ap (λ q. q.0) (done-eq (sym run ∙ e))))
    ]
Step-Sound {fuel} {sl} {m} {m'} {held} (give a h e) (fs, us, free, c) =
    let (m1, fs', us', free', run, c') = free-Returns fuel a c h in
    subst (λ q. Sound sl q (erase a held)) (done-eq (sym run ∙ e)) (fs', us', free', c')

Reach-Sound :
    {fuel sl : ℕ} {init m : Heap} {held : List ℕ}
    → Sound sl init []
    → Reach (suc fuel) sl init m held
    → Sound sl m held
Reach-Sound c start = c
Reach-Sound c (later r s) = Step-Sound s (Reach-Sound c r)

Starts-Sound : (m m' : Heap) (sl at : ℕ) → Starts m m' sl at → Sound sl m' []
Starts-Sound m m' sl at t = (
  at ∷ [],
  [],
  (λ _. range_from 1 127),
  record { list = t.0; root = t.1; distinct = tt; all_taken = λ a h. absurd (ground arith) },
)

-- Let `kmalloc_init` make the allocator, while the kernel's memory has room for three more pages of
-- 2M, and let clients call `kmalloc_alloc`, and `kmalloc_free` on what they hold, in any order. Then
-- no chunk is held twice, none that is held is free, and the list of slabs is well formed; the next
-- call does not panic or hang either, whether it is an allocation or gives back any chunk that is
-- held, and leaves the state so again.
pub kmalloc-Sound :
    {m : Heap} {held : List ℕ} (fuel sl : ℕ) (before init : Heap)
    → IsReady before.boot
    → before.boot.kernel_top + 2 ^ 21 + 2 ^ 21 + 2 ^ 21 ≤ 2 ^ 31
    → kmalloc_init (suc fuel) sl before ≡ done init
    → Reach (suc fuel) sl init m held
    → Sound sl m held
      × Allocated (suc fuel) sl m held
      × ((a : ℕ)
          → has a held ≡ true
          → (m' : Heap) × (kmalloc_free (suc fuel) sl a m ≡ done m') × Sound sl m' (erase a held))
kmalloc-Sound {m} {held} fuel sl before init ready room run r =
    let (m0, at, run0, t) = kmalloc_init-Starts (suc fuel) sl before ready room in
    let c0 =
      subst (λ q. Sound sl q []) (done-eq (sym run0 ∙ run)) (Starts-Sound before m0 sl at t) in
    let (fs, us, free, c) = Reach-Sound c0 r in
    (
      (fs, us, free, c),
      alloc-Allocated fuel fs c,
      λ a h.
          let (m', fs', us', free', e, c') = free-Returns fuel a c h in
          (m', e, (fs', us', free', c')),
    )
