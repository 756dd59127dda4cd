-- ===== src/SlabList.antt =====
-- src/slab.c, the lists of slabs, and src/kmalloc.c. A list has its slabs with free chunks in
-- `free_slabs` and the full ones in `used_slabs`; the memory for a new slab is a chunk of the list's
-- owner. Lists and slabs are cells by address; the list heads are named by their addresses in
-- `struct slab_list_t`.
pub mod Valid
pub mod Alloc
pub mod Free
pub mod Kmalloc
pub mod Held
pub mod Trace
mod Tests
use smor.Prelude.{
  ℕ, zero, suc, ◌+◌, ◌-◌, ◌*◌, ◌/◌, ◌^◌, Bool, true, false, ◌&&◌, ◌||◌, not, ◌==◌, ltb,
  if◌then◌else◌, update, Outcome, done, hang, ◌>>=◌,
}
use smor.Thread.{spinlock_lock, spinlock_unlock}
use smor.Dlist.{Links, nowhere, slab_list_insert, slab_list_remove}
use smor.Kernel.{BootInfo, kernel_slack_alloc}
use smor.Slab.{
  Slab, ceil_pow2, slab_init, slab_alloc, slab_free, slab_is_empty, slab_is_full, slab_is_reserved,
}

pub record SlabList : Type 0 where
  pub sl_owner : ℕ
  pub size_shift : ℕ
  pub chunk_shift : ℕ
  pub flags : ℕ
  pub lock : ℕ

pub record Heap : Type 0 where
  pub links : Links
  pub slabs : ℕ → Slab
  pub lists : ℕ → SlabList
  pub boot : BootInfo

-- `&sl->free_slabs` and `&sl->used_slabs`
abbrev pub free_slabs : ℕ → ℕ
free_slabs sl = sl + 8

abbrev pub used_slabs : ℕ → ℕ
used_slabs sl = sl + 16

abbrev pub set_list : Heap → ℕ → SlabList → Heap
set_list m sl v = record m { lists = update m.lists sl v }

abbrev pub set_slab : Heap → ℕ → Slab → Heap
set_slab m s v = record m { slabs = update m.slabs s v }

abbrev pub insert : Heap → (h s : ℕ) → Heap
insert m h s = record m { links = slab_list_insert m.links h s }

abbrev pub remove : Heap → (s : ℕ) → Heap
remove m s = record m { links = slab_list_remove m.links s }

pub slab_list_lock : ℕ → Heap → Outcome Heap
slab_list_lock sl m = do
  counter ← spinlock_lock (m.lists sl).lock
  done (set_list m sl (record (m.lists sl) { lock = counter }))

pub slab_list_unlock : ℕ → Heap → Heap
slab_list_unlock sl m =
    set_list m sl (record (m.lists sl) { lock = spinlock_unlock (m.lists sl).lock })

-- The two functions are stubs in the source: there are no pages to take, and none are given back.
abbrev pub sys_alloc_page : (size : ℕ) → Heap → ℕ × Heap
sys_alloc_page size m = (0, m)

abbrev pub sys_free_page : (page : ℕ) → Heap → Heap
sys_free_page page m = m

pub slab_list_init : (sl sl_owner size chunk_size : ℕ) → Heap → Outcome (Bool × Heap)
slab_list_init sl sl_owner size chunk_size m = do
  size_shift ← ceil_pow2 size
  if not (sl_owner == 0) && not ((m.lists sl_owner).chunk_shift == size_shift)
      then done (false, m)
      else (do
        chunk_shift ← ceil_pow2 chunk_size
        let v : SlabList = record {
          sl_owner = sl_owner;
          size_shift = size_shift;
          chunk_shift = chunk_shift;
          flags = 0;
          lock = 0;
        }
        let heads = update (update m.links.heads (free_slabs sl) 0) (used_slabs sl) 0
        done (true, set_list (record m { links = record m.links { heads = heads } }) sl v))

-- `slab_init` at `p`, with the links that it clears
pub slab_init_at : (p size chunk_size : ℕ) → Heap → Outcome Heap
slab_init_at p size chunk_size m = do
  s ← slab_init size chunk_size (m.slabs p).chunk_list
  let links = record m.links {
    next = update m.links.next p 0;
    prev = update m.links.prev p nowhere;
  }
  done (set_slab (record m { links = links }) p s)

-- `slab_alloc` on the slab at `s`
pub slab_alloc_at : (s : ℕ) → Heap → ℕ × Heap
slab_alloc_at s m = let (addr, v) = slab_alloc s (m.slabs s) in (addr, set_slab m s v)

-- with a slab that has free chunks
pub alloc_from : (sl s : ℕ) → Heap → ℕ × Heap
alloc_from sl s m =
    let (addr, m1) = slab_alloc_at s m in
    (addr, if slab_is_full (m1.slabs s) then insert (remove m1 s) (used_slabs sl) s else m1)

-- with a new slab at `p`
pub alloc_new : (sl p : ℕ) → Heap → Outcome (ℕ × Heap)
alloc_new sl p m = do
  m1 ← slab_init_at p (2 ^ (m.lists sl).size_shift) (2 ^ (m.lists sl).chunk_shift) m
  done (slab_alloc_at p (insert m1 (free_slabs sl) p))

-- The recursion follows the owners; fuel bounds their number.
pub slab_list_alloc : ℕ → (sl : ℕ) → Heap → Outcome (ℕ × Heap)
slab_list_alloc zero sl m = hang
slab_list_alloc (suc fuel) sl m = do
  m1 ← slab_list_lock sl m
  let s = m1.links.heads (free_slabs sl)
  let owner = (m1.lists sl).sl_owner
  let page =
      if owner == 0
      then done (sys_alloc_page (2 ^ (m1.lists sl).size_shift) m1)
      else slab_list_alloc fuel owner m1
  if not (s == 0)
      then (let (addr, m2) = alloc_from sl s m1 in done (addr, slab_list_unlock sl m2))
      else (do
        (p, m2) ← page
        if p == 0
            then done (0, slab_list_unlock sl m2)
            else (do (addr, m3) ← alloc_new sl p m2; done (addr, slab_list_unlock sl m3)))

pub slab_list_free : ℕ → (sl addr : ℕ) → Heap → Outcome Heap
slab_list_free zero sl addr m = hang
slab_list_free (suc fuel) sl addr m =
    let s = addr / 2 ^ (m.lists sl).size_shift * 2 ^ (m.lists sl).size_shift in
    do
      m1 ← slab_list_lock sl m
      let was_full = slab_is_full (m1.slabs s)
      let v = slab_free s (m1.slabs s) addr
      let m2 = set_slab m1 s v
      let removed = remove m2 s
      let owner = (m1.lists sl).sl_owner
      let given_back =
          if owner == 0 then done (sys_free_page s removed) else slab_list_free fuel owner s removed
      if was_full
          then done (slab_list_unlock sl (insert removed (free_slabs sl) s))
          else if slab_is_empty v && not (slab_is_reserved v)
          then (given_back >>= λ m3. done (slab_list_unlock sl m3))
          else done (slab_list_unlock sl m2)

pub slab_list_reserve_on_slack : ℕ → (sl : ℕ) → Heap → Outcome (Bool × Heap)
slab_list_reserve_on_slack fuel sl m = do
  let size = 2 ^ (m.lists sl).size_shift
  let owner = (m.lists sl).sl_owner
  (p, m1) ←
      if owner == 0
      then (kernel_slack_alloc size size m.boot >>= λ r. done (r.0, record m { boot = r.1 }))
      else slab_list_alloc fuel owner m
  if p == 0 then done (false, m1) else (do
    m2 ← slab_init_at p size (2 ^ (m1.lists sl).chunk_shift) m1
    let reserved = record (m2.slabs p) {
      flags = if slab_is_reserved (m2.slabs p) then (m2.slabs p).flags else (m2.slabs p).flags + 1;
    }
    done (true, insert (set_slab m2 p reserved) (free_slabs sl) p))

-- src/kmalloc.c, with the addresses of `sl_root` and of the entries of `sl_table`
abbrev pub kmalloc_chunk_size : ℕ
kmalloc_chunk_size = 0x4000

pub kmalloc_init : (fuel sl_root : ℕ) → Heap → Outcome Heap
kmalloc_init fuel sl_root m = do
  (ok, m1) ← slab_list_init sl_root 0 (2 ^ 21) kmalloc_chunk_size m
  (reserved, m2) ← slab_list_reserve_on_slack fuel sl_root m1
  done m2

pub kmalloc_alloc : (fuel sl_root : ℕ) → Heap → Outcome (ℕ × Heap)
kmalloc_alloc fuel sl_root m = slab_list_alloc fuel sl_root m

pub kmalloc_free : (fuel sl_root ptr : ℕ) → Heap → Outcome Heap
kmalloc_free fuel sl_root ptr m = slab_list_free fuel sl_root ptr m

-- `sl_lock` is the counter of the lock on the table, which is 0 again at the end.
pub kmalloc_get_slab :
    (sl_root : ℕ) → (sl_table : ℕ → ℕ) → (sl_lock elem_size : ℕ) → Heap → Outcome (ℕ × Heap)
kmalloc_get_slab sl_root sl_table sl_lock elem_size m = do
  elem_shift ← ceil_pow2 elem_size
  if ltb elem_shift 4 || ltb 9 elem_shift then done (0, m) else (do
    held ← spinlock_lock sl_lock
    let sl = sl_table (elem_shift - 4)
    if (m.lists sl).sl_owner == 0
        then (do
          (ok, m1) ← slab_list_init sl sl_root kmalloc_chunk_size (2 ^ elem_shift) m
          done (sl, m1))
        else done (sl, m))
