-- ===== src/VmBoot.antt =====
-- src/vm_boot.c: the page tables that the boot code set up. `mem` is the word at a physical address
-- that is a multiple of 8; `KERNEL_VADDR` of an address below 2G leads there. The addresses of
-- which `invlpg` drops the translation are recorded, the last one first.
pub mod Walk
pub mod Grow
pub mod Leaf
pub mod Enter
pub mod Map
pub mod Range
pub mod Cover
pub mod Unmap
mod Tests
use Prim.Native.Nat.{bit_or}
use smor.Prelude.{
  ℕ, zero, suc, ◌+◌, ◌*◌, ◌/◌, ◌%◌, ◌^◌, Bool, ◌&&◌, ◌==◌, ltb, if◌then◌else◌, update, List, ◌∷◌,
  Outcome, done, check, ◌>>=◌, ◌>>◌, u32, u64,
}
use smor.Thread.{spinlock_lock, spinlock_unlock}
use smor.PageDb.{PageDb, page_2m_num, page_db_reserve_page}

abbrev pub boot_pml4 : ℕ
boot_pml4 = 0x10000

abbrev pub boot_page_next : ℕ
boot_page_next = 0x14000

abbrev pub boot_pages_top : ℕ
boot_pages_top = 0x30000

abbrev pub pml_index : ℕ → ℕ
pml_index x = x / 2 ^ 39 % 512

abbrev pub pdp_index : ℕ → ℕ
pdp_index x = x / 2 ^ 30 % 512

abbrev pub page_2m_index : ℕ → ℕ
page_2m_index x = x / 2 ^ 21 % 512

-- PDIR_ADDR clears the low 9 bits
abbrev pub pdir_addr : ℕ → ℕ
pdir_addr x = x / 512 * 512

abbrev pub is_present : ℕ → Bool
is_present entry = entry % 2 == 1

-- the flags PAGE_PRESENT, PAGE_WRITE and PAGE_2MB
abbrev pub as_table : ℕ → ℕ
as_table page = bit_or page 3

abbrev pub as_page : ℕ → ℕ
as_page paddr = bit_or paddr 0x83

pub record BootTables : Type 0 where
  pub mem : ℕ → ℕ
  pub boot_page : ℕ
  pub lock : ℕ
  pub invalidated : List ℕ

abbrev pub set_word : BootTables → (addr v : ℕ) → BootTables
set_word m addr v = record m { mem = update m.mem addr v }

-- the loop that clears a table of 512 entries
pub clear_table : ℕ → (p : ℕ) → (ℕ → ℕ) → ℕ → ℕ
clear_table zero p mem = mem
clear_table (suc n) p mem = clear_table n (p + 8) (update mem p 0)

pub boot_page_alloc : BootTables → Outcome (ℕ × BootTables)
unfolding clear_table
boot_page_alloc m = do
  let page = m.boot_page
  check (ltb page boot_pages_top)
  done (page, record m { boot_page = u64 (page + 2 ^ 12); mem = clear_table 512 page m.mem })

-- the entry at `addr`, which becomes a new table if it is not present
pub table_at : (addr : ℕ) → BootTables → Outcome (ℕ × BootTables)
unfolding boot_page_alloc
table_at addr m =
    if is_present (m.mem addr)
    then done (m.mem addr, m)
    else (do (page, m1) ← boot_page_alloc m; done (as_table page, set_word m1 addr (as_table page)))

pub vm_boot_map_page : (vaddr paddr : ℕ) → BootTables → Outcome BootTables
vm_boot_map_page vaddr paddr m = do
  (pdp_entry, m1) ← table_at (boot_pml4 + 8 * pml_index vaddr) m
  (pd_entry, m2) ← table_at (pdir_addr pdp_entry + 8 * pdp_index vaddr) m1
  let addr = pdir_addr pd_entry + 8 * page_2m_index vaddr
  let mapped = record (set_word m2 addr (as_page paddr)) { invalidated = vaddr ∷ m2.invalidated }
  if is_present (m2.mem addr) && (pdir_addr (m2.mem addr) == paddr) then done m2 else done mapped

pub vm_boot_unmap_page : (vaddr : ℕ) → BootTables → BootTables
vm_boot_unmap_page vaddr m =
    let pdp_entry = m.mem (boot_pml4 + 8 * pml_index vaddr) in
    let pd_entry = m.mem (pdir_addr pdp_entry + 8 * pdp_index vaddr) in
    let addr = pdir_addr pd_entry + 8 * page_2m_index vaddr in
    let unmapped = record (set_word m addr 0) { invalidated = vaddr ∷ m.invalidated } in
    if is_present pdp_entry && is_present pd_entry then unmapped else m

-- the loops over the pages of a range
pub map_pages : ℕ → (vaddr paddr : ℕ) → BootTables → Outcome BootTables
map_pages zero vaddr paddr m = done m
map_pages (suc n) vaddr paddr m = do
  m1 ← vm_boot_map_page vaddr paddr m
  map_pages n (u64 (vaddr + 2 ^ 21)) (u64 (paddr + 2 ^ 21)) m1

pub unmap_pages : ℕ → (vaddr : ℕ) → BootTables → BootTables
unfolding vm_boot_unmap_page
unmap_pages zero vaddr m = m
unmap_pages (suc n) vaddr m = unmap_pages n (u64 (vaddr + 2 ^ 21)) (vm_boot_unmap_page vaddr m)

pub vm_boot_map_range : (vaddr paddr size : ℕ) → BootTables → Outcome BootTables
vm_boot_map_range vaddr paddr size m = do
  let num_pages = page_2m_num (u64 (size + vaddr % 2 ^ 21))
  held ← spinlock_lock m.lock
  m1 ←
      map_pages num_pages (vaddr / 2 ^ 21 * 2 ^ 21) (paddr / 2 ^ 21 * 2 ^ 21)
        (record m { lock = held })
  done (record m1 { lock = spinlock_unlock m1.lock })

pub vm_boot_unmap_range : (vaddr size : ℕ) → BootTables → Outcome BootTables
unfolding unmap_pages
vm_boot_unmap_range vaddr size m = do
  let num_pages = page_2m_num (u64 (size + vaddr % 2 ^ 21))
  held ← spinlock_lock m.lock
  let m1 = unmap_pages num_pages (vaddr / 2 ^ 21 * 2 ^ 21) (record m { lock = held })
  done (record m1 { lock = spinlock_unlock m1.lock })

pub vm_boot_init : BootTables → BootTables
vm_boot_init m = record m { boot_page = boot_page_next }

-- the three nested loops of `vm_boot_sync`, over the entries that are not 0 of the table at `p`
pub sync_pd : ℕ → (p : ℕ) → (ℕ → ℕ) → PageDb → Outcome PageDb
sync_pd zero p mem db = done db
sync_pd (suc n) p mem db = do
  db1 ← (if mem p == 0 then done db else page_db_reserve_page db (u32 (pdir_addr (mem p) / 2 ^ 21)))
  sync_pd n (p + 8) mem db1

pub sync_pdp : ℕ → (p : ℕ) → (ℕ → ℕ) → PageDb → Outcome PageDb
unfolding sync_pd
sync_pdp zero p mem db = done db
sync_pdp (suc n) p mem db = do
  db1 ← (if mem p == 0 then done db else sync_pd 512 (pdir_addr (mem p)) mem db)
  sync_pdp n (p + 8) mem db1

pub sync_pml4 : ℕ → (p : ℕ) → (ℕ → ℕ) → PageDb → Outcome PageDb
unfolding sync_pdp
sync_pml4 zero p mem db = done db
sync_pml4 (suc n) p mem db = do
  db1 ← (if mem p == 0 then done db else sync_pdp 512 (pdir_addr (mem p)) mem db)
  sync_pml4 n (p + 8) mem db1

-- The ranges that the source then prints are left out.
pub vm_boot_sync : BootTables → PageDb → Outcome PageDb
unfolding sync_pml4
vm_boot_sync m db = sync_pml4 512 boot_pml4 m.mem db
