-- ===== src/Slab/Tests.antt =====
-- A slab of eight chunks of 32 bytes, two of which hold its header, and the theorems at it.
use smor.Prelude.{ℕ, ◌+◌, ◌*◌, ◌^◌, ◌≤◌, ◌<◌, ◌≡◌, refl, [], ◌∷◌, done, arith, range_from}
use smor.Slab.{Slab, ceil_pow2, slab_layout, slab_init, slab_free}
use smor.Slab.Shift.{ceil_pow2_least}
use smor.Slab.FreeList.{
  IsFree, Allocates, taken, taken-IsFree, slab_alloc-Allocates, slab_free-IsFree,
}
use smor.Slab.Init.{layout-IsFree, slab_init-IsFree}

ceil_pow2_least_example : (k : ℕ) × (ceil_pow2 100 ≡ done k) × (100 ≤ 2 ^ k) × (2 ^ k < 2 * 100)
ceil_pow2_least_example = ceil_pow2_least 100 (omega arith) (omega arith)

abbrev small_slab : Slab
small_slab = slab_layout 5 8 2 (λ _. 0)

slab_init-IsFree_example :
    (s : Slab) × (slab_init 256 (2 ^ 5) (λ _. 0) ≡ done s) × IsFree (2 ^ 31) s (range_from 2 6)
slab_init-IsFree_example =
    slab_init-IsFree (2 ^ 31) 256 5 (λ _. 0) (omega arith) (omega arith) (omega arith) (omega arith)
      (omega arith) (omega arith)

small : IsFree (2 ^ 31) small_slab (2 ∷ 3 ∷ 4 ∷ 5 ∷ 6 ∷ 7 ∷ [])
small =
    layout-IsFree 5 8 2 (λ _. 0) (omega arith) (omega arith) (omega arith) (2 ^ 31) (omega arith)
      (omega arith) (omega arith)

slab_alloc-Allocates_example : Allocates (2 ^ 31) small_slab (2 ∷ 3 ∷ 4 ∷ 5 ∷ 6 ∷ 7 ∷ [])
slab_alloc-Allocates_example = slab_alloc-Allocates (2 ∷ 3 ∷ 4 ∷ 5 ∷ 6 ∷ 7 ∷ []) small

two_taken : IsFree (2 ^ 31) (taken small_slab 2) (3 ∷ 4 ∷ 5 ∷ 6 ∷ 7 ∷ [])
two_taken = taken-IsFree 2 (3 ∷ 4 ∷ 5 ∷ 6 ∷ 7 ∷ []) small

slab_free-IsFree_example :
    IsFree
      (2 ^ 31)
      (slab_free (2 ^ 31) (taken small_slab 2) (2 ^ 31 + 64))
      (2 ∷ 3 ∷ 4 ∷ 5 ∷ 6 ∷ 7 ∷ [])
unfolding slab_layout
slab_free-IsFree_example =
    slab_free-IsFree 2 (3 ∷ 4 ∷ 5 ∷ 6 ∷ 7 ∷ []) two_taken (omega arith) (omega arith) refl
