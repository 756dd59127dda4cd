-- ===== src/SlabList/Tests.antt =====
-- The kernel's allocator just after it is made, with one chunk taken, and the theorems at it.
use smor.Prelude.{ℕ, ◌≤◌, ◌<◌, ◌+◌, ◌≡◌, refl, [], ◌∷◌, has, erase, done, arith, range_from, true}
use smor.Kernel.{BootInfo, kernel_base}
use smor.Dlist.{nowhere}
use smor.Slab.{Slab}
use smor.Slab.FreeList.{chunk_at}
use smor.SlabList.{
  Heap, SlabList, kmalloc_init, kmalloc_alloc, kmalloc_free, slab_list_alloc, slab_list_free,
}
use smor.SlabList.Valid.{IsSlabList}
use smor.SlabList.Free.{Frees, slab_list_free-Frees}
use smor.SlabList.Alloc.{Takes, slab_list_alloc-Takes}
use smor.SlabList.Kmalloc.{Starts, kmalloc_init-Starts, with_slab, with_root, with_slab-IsSlabList}
use smor.SlabList.Trace.{Reach, start, later, alloc, Sound, Allocated, kmalloc-Sound}

abbrev no_list : SlabList
no_list = record { sl_owner = 0; size_shift = 0; chunk_shift = 0; flags = 0; lock = 0 }

abbrev no_slab : Slab
no_slab = record {
  chunk_shift = 0;
  num_chunks = 0;
  num_free = 0;
  num_reserved = 0;
  flags = 0;
  free_list = 0;
  chunk_list = λ _. 0;
}

abbrev boot : BootInfo
boot = record {
  kernel_end = 0x150000;
  kernel_top = 0x200000;
  kernel_slack = 0x150000;
  slack_lock = 0;
  mapped = [];
}

abbrev empty_heap : Heap
empty_heap = record {
  links = record { heads = λ _. 0; next = λ _. 0; prev = λ _. nowhere };
  slabs = λ _. no_slab;
  lists = λ _. no_list;
  boot = boot;
}

kmalloc_init-Starts_case :
    (m' : Heap) × (at : ℕ) × (kmalloc_init 1 64 empty_heap ≡ done m') × Starts empty_heap m' 64 at
kmalloc_init-Starts_case =
    kmalloc_init-Starts 1 64 empty_heap
      (record { inside = omega arith; aligned = omega arith; unlocked = refl }) (omega arith)

-- the slab of the allocator
abbrev slab_at : ℕ
slab_at = kernel_base + 0x200000

abbrev fresh : Heap
fresh = with_slab 64 slab_at boot (with_root 64 empty_heap)

fresh-IsSlabList : IsSlabList fresh 64 (slab_at ∷ []) [] (λ _. range_from 1 127)
fresh-IsSlabList =
    with_slab-IsSlabList 64 slab_at boot empty_heap (omega arith) (omega arith) (omega arith)

slab_list_alloc-Takes_example :
    (m' : Heap) × (slab_list_alloc 1 64 fresh ≡ done (chunk_at slab_at (fresh.slabs slab_at) 1, m'))
    × Takes fresh m' 64 slab_at 1 (range_from 2 126) [] [] (λ _. range_from 1 127)
slab_list_alloc-Takes_example =
    slab_list_alloc-Takes 0 slab_at 1 (range_from 2 126) fresh-IsSlabList refl

taking :
    (m' : Heap) × (slab_list_alloc 1 64 fresh ≡ done (chunk_at slab_at (fresh.slabs slab_at) 1, m'))
    × Takes fresh m' 64 slab_at 1 (range_from 2 126) [] [] (λ _. range_from 1 127)
taking = slab_list_alloc-Takes 0 slab_at 1 (range_from 2 126) fresh-IsSlabList refl

abbrev one_taken : Heap
one_taken = taking.0

first_inside :
    ((one_taken.slabs slab_at).num_reserved ≤ 1) × (1 < (one_taken.slabs slab_at).num_chunks)
first_inside = rw (taking.2.3) ((fresh-IsSlabList.slab slab_at refl).free.inside 1 refl)

one_taken-root : (one_taken.lists 64).sl_owner ≡ 0
one_taken-root = rw (taking.2.1) refl

slab_list_free-Frees_example :
    (m' : Heap) × (slab_list_free 1 64 (chunk_at slab_at (one_taken.slabs slab_at) 1) one_taken
      ≡ done m')
    × Frees slab_at 1 (taking.2.0) (first_inside.0) (first_inside.1) refl m'
slab_list_free-Frees_example =
    slab_list_free-Frees slab_at 1 (taking.2.0) (first_inside.0) (first_inside.1) refl 0
      one_taken-root refl

starting :
    (m' : Heap) × (at : ℕ) × (kmalloc_init 1 64 empty_heap ≡ done m') × Starts empty_heap m' 64 at
starting =
    kmalloc_init-Starts 1 64 empty_heap
      (record { inside = omega arith; aligned = omega arith; unlocked = refl }) (omega arith)

from_start :
    (m' : Heap) × (slab_list_alloc 1 64 starting.0
      ≡ done (chunk_at starting.1 (starting.0.slabs starting.1) 1, m'))
    × Takes starting.0 m' 64 starting.1 1 (range_from 2 126) [] [] (λ _. range_from 1 127)
from_start = slab_list_alloc-Takes 0 starting.1 1 (range_from 2 126) (starting.3.0) refl

first_chunk : ℕ
first_chunk = chunk_at starting.1 (starting.0.slabs starting.1) 1

one_held : Reach 1 64 starting.0 from_start.0 (first_chunk ∷ [])
unfolding first_chunk kmalloc_alloc
one_held = later start (alloc (from_start.1) (λ e. starting.3.0.lists.first.1 (omega (arith, e))))

kmalloc-Sound_example :
    Sound 64 from_start.0 (first_chunk ∷ [])
    × Allocated 1 64 from_start.0 (first_chunk ∷ [])
    × ((a : ℕ)
        → has a (first_chunk ∷ []) ≡ true
        → (m' : Heap) × (kmalloc_free 1 64 a from_start.0 ≡ done m')
          × Sound 64 m' (erase a (first_chunk ∷ [])))
kmalloc-Sound_example =
    kmalloc-Sound 0 64 empty_heap starting.0
      (record { inside = omega arith; aligned = omega arith; unlocked = refl }) (omega arith)
      (starting.2) one_held
