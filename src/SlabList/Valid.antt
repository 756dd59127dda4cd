-- ===== src/SlabList/Valid.antt =====
-- src/slab.c: what a list of slabs is, between the calls of its operations.
use smor.Prelude.{
  eq_of_test, ◌≢◌, subst, sym, Bool-cases, inl, inr, ◌==◌, ==_refl, refl, done, ℕ, ◌*◌, ◌/◌, ◌^◌,
  ◌≤◌, ◌<◌, ◌≡◌, ◌||◌, true, List, has, update, fun_ext, arith,
}
use smor.Slab.{Slab}
use smor.Slab.FreeList.{IsFree}
use smor.Dlist.Pair.{ArePair}
use smor.SlabList.{SlabList, Heap, free_slabs, used_slabs, slab_list_lock, slab_list_unlock}

-- a slab at `s` in a list of slabs of `2 ^ shift` bytes, with the free chunks `xs`
pub record IsSlab (shift : ℕ) (v : Slab) (s : ℕ) (xs : List ℕ) : Type 0 where
  pub free : IsFree s v xs
  pub aligned : s / 2 ^ shift * 2 ^ shift ≡ s
  pub room : v.num_chunks * 2 ^ v.chunk_shift ≤ 2 ^ shift

-- The slabs of the list at `sl` are those of `fs`, which have free chunks, and those of `us`, which
-- have none; the free chunks of the slab `s` are `free s`.
pub record IsSlabList (m : Heap) (sl : ℕ) (fs us : List ℕ) (free : ℕ → List ℕ) : Type 0 where
  pub lists : ArePair m.links (free_slabs sl) (used_slabs sl) fs us
  pub slab :
      (s : ℕ)
      → (has s fs || has s us) ≡ true
      → IsSlab (m.lists sl).size_shift (m.slabs s) s (free s)
  pub some_free : (s : ℕ) → has s fs ≡ true → 0 < (m.slabs s).num_free
  pub none_free : (s : ℕ) → has s us ≡ true → (m.slabs s).num_free ≡ 0
  pub unlocked : (m.lists sl).lock ≡ 0

-- a slab that has changed, among slabs that have not
pub set-IsSlab :
    {shift : ℕ} {v : Slab} {s : ℕ} {xs : List ℕ} (slabs : ℕ → Slab) (free : ℕ → List ℕ)
    → IsSlab shift v s xs
    → (t : ℕ) → (t ≢ s → IsSlab shift (slabs t) t (free t))
    → IsSlab shift (update slabs s v t) t (update free s xs t)
set-IsSlab {shift} {v} {s} {xs} slabs free w t other = elim (Bool-cases (t == s)) [
  | inl e ↦ rw e (subst (λ a. IsSlab shift v a xs) (sym (eq_of_test t s e)) w)
  | inr e ↦ rw e (other (ground (arith, e)))
]

-- taking the lock of a list and giving it back leaves the list as it was
pub relocked :
    (lists : ℕ → SlabList) (sl : ℕ)
    → (lists sl).lock ≡ 0
    → update (update lists sl (record (lists sl) { lock = 1 })) sl (record (lists sl) { lock = 0 })
      ≡ lists
relocked lists sl free = fun_ext (λ i. ground (arith, free))

abbrev pub locked : (sl : ℕ) → (ℕ → SlabList) → ℕ → SlabList
locked sl lists = update lists sl (record (lists sl) { lock = 1 })

pub lock-locked :
    (sl : ℕ) (m : Heap)
    → (m.lists sl).lock ≡ 0
    → slab_list_lock sl m ≡ done (record m { lists = locked sl m.lists })
unfolding slab_list_lock
lock-locked sl m free = rw free refl

pub unlock-locked :
    (sl : ℕ) (m : Heap) (lists : ℕ → SlabList)
    → (lists sl).lock ≡ 0
    → slab_list_unlock sl (record m { lists = locked sl lists }) ≡ record m { lists = lists }
unfolding slab_list_unlock
unlock-locked sl m lists free = rw (==_refl sl) (λ i. record m { lists = relocked lists sl free i })
