-- ===== src/VmBoot/Cover.antt =====
-- src/vm_boot.c, vm_boot_map_range: every byte of the range that a caller names is mapped.
use smor.Prelude.{ℕ, ◌+◌, ◌*◌, ◌/◌, ◌%◌, ◌^◌, ◌≤◌, ◌<◌, ◌≡◌, ap, ◌∙◌, some, done, arith, u64}
use smor.PageDb.{page_2m_num}
use smor.Thread.{spinlock_unlock}
use smor.VmBoot.{BootTables, pml_index, pdp_index, page_2m_index, map_pages, vm_boot_map_range}
use smor.VmBoot.Walk.{translate, IsTree}
use smor.VmBoot.Leaf.{Supplied}
use smor.VmBoot.Range.{Covers, map_pages-Covers}

-- the address that the 2M page of `x` begins at
abbrev pub page_of : ℕ → ℕ
page_of x = x / 2 ^ 21 * 2 ^ 21

-- addresses of one page are translated alike
translate-page_of :
    (mem : ℕ → ℕ) (x y : ℕ) → x / 2 ^ 21 ≡ y / 2 ^ 21 → translate mem x ≡ translate mem y
unfolding translate
translate-page_of mem x y h =
    let l4 : pml_index x ≡ pml_index y = omega arith in
    let l3 : pdp_index x ≡ pdp_index y = omega arith in
    let l2 : page_2m_index x ≡ page_2m_index y = omega arith in rw (l4, l3, l2)

-- the number of pages that the source counts
abbrev pub num_pages : (vaddr size : ℕ) → ℕ
num_pages vaddr size = page_2m_num (u64 (size + vaddr % 2 ^ 21))

relock :
    (m : BootTables) (level : ℕ → ℕ) (v : ℕ) → IsTree m level → IsTree (record m { lock = v }) level
relock m level v t = record { root = t.root; next = t.next; entry = t.entry }

module _ {m : BootTables} {level : ℕ → ℕ} (vaddr paddr size : ℕ) (t : IsTree m level)
    (free : m.lock ≡ 0) (room : Supplied m (page_of vaddr))
    (congruent : vaddr % 2 ^ 21 ≡ paddr % 2 ^ 21) (giga : vaddr % 2 ^ 30 + size ≤ 2 ^ 30)
    (hv : vaddr + size + 2 ^ 22 < 2 ^ 64) (hp : paddr + size + 2 ^ 22 < 2 ^ 64) where
  num_pages_bounds :
      (size + vaddr % 2 ^ 21 ≤ num_pages vaddr size * 2 ^ 21)
      × ((page_of vaddr % 2 ^ 30) + num_pages vaddr size * 2 ^ 21 ≤ 2 ^ 30)
      × (num_pages vaddr size ≤ size / 2 ^ 21 + 2)
  num_pages_bounds = omega arith

  mapped_pages :
      (m' : BootTables) × (level' : ℕ → ℕ) × (map_pages
          (num_pages vaddr size)
          (page_of vaddr)
          (page_of paddr)
          (record m { lock = 1 })
        ≡ done m')
      × IsTree m' level'
      × Covers (record m { lock = 1 }) m' (page_of vaddr) (page_of paddr) (num_pages vaddr size)
  mapped_pages =
      map_pages-Covers (num_pages vaddr size) (page_of vaddr) (page_of paddr) (relock m level 1 t)
        (λ some_page. room) (omega arith) (omega (arith, num_pages_bounds))
        (omega (arith, num_pages_bounds)) (omega (arith, num_pages_bounds))

  byte :
      (m' : BootTables)
      → Covers (record m { lock = 1 }) m' (page_of vaddr) (page_of paddr) (num_pages vaddr size)
      → (d : ℕ) → d < size
      → translate m'.mem (vaddr + d) ≡ some (page_of (paddr + d))
  byte m' c d lt =
      let k : ℕ = (vaddr % 2 ^ 21 + d) / 2 ^ 21 in
      let there : page_of paddr + k * 2 ^ 21 ≡ page_of (paddr + d) = omega arith in
      translate-page_of m'.mem (vaddr + d) (page_of vaddr + k * 2 ^ 21) (omega arith)
      ∙ c.inside k (omega (arith, num_pages_bounds))
      ∙ ap some there

  -- For a range inside one gigabyte whose tables are there or have room, if the lock is free and the
  -- two addresses lie alike in their pages, `vm_boot_map_range` neither panics nor hangs, frees the
  -- lock again and leaves a tree; and each of the `size` bytes from `vaddr` is in a page that is
  -- translated to the page of the byte as far from `paddr`.
  pub map_range-translate :
      (m' : BootTables) × (level' : ℕ → ℕ) × (vm_boot_map_range vaddr paddr size m ≡ done m')
      × (m'.lock ≡ 0)
      × IsTree m' level'
      × ((d : ℕ) → d < size → translate m'.mem (vaddr + d) ≡ some (page_of (paddr + d)))
  unfolding vm_boot_map_range
  map_range-translate =
      let (m1, level1, run, t1, c) = mapped_pages in
      (
        record m1 { lock = spinlock_unlock m1.lock },
        level1,
        rw (free, run),
        rw c.lock,
        relock m1 level1 (spinlock_unlock m1.lock) t1,
        λ d lt. byte m1 c d lt,
      )
