-- ===== src/PageDb.antt =====
-- src/vm_page.h and src/vm_page.c: the physical page database. The array `pages[]` is a function
-- from the index; the pointers of a descriptor are addresses, 0 for NULL.
pub mod FreeList
pub mod Init
pub mod Address
pub mod Reserve
pub mod Runs
pub mod Trace
pub mod Contents
pub mod Setup
mod Tests
use smor.Prelude.{
  ℕ, zero, suc, ◌+◌, ◌-◌, ◌*◌, ◌/◌, ◌%◌, ◌^◌, Bool, true, false, ◌&&◌, not, List, [], ◌∷◌, ltb, leb,
  ◌==◌, if◌then◌else◌, update, Outcome, done, panic, ◌>>=◌, ◌>>◌, check, u16, u32, u64, sub32,
}

pub record PageDesc : Type 0 where
  pub next_cache : ℕ
  pub prev_cache : ℕ
  pub next_hash : ℕ
  pub cache : ℕ
  pub cache_offset : ℕ
  pub next_free : ℕ
  pub flags : ℕ
  pub vaddr : ℕ
  pub reserved : ℕ

pub record PageDb : Type 0 where
  pub page_index : ℕ
  pub num_pages : ℕ
  pub num_free : ℕ
  pub free_list : ℕ
  pub lock : ℕ
  pub num_reserved : ℕ
  pub flags : ℕ
  pub pages : ℕ → PageDesc

-- PGF_FREE, PGF_USED and PGF_RESERVED
abbrev pub pgf_free : ℕ
pgf_free = 0

abbrev pub pgf_used : ℕ
pgf_used = 1

abbrev pub pgf_reserved : ℕ
pgf_reserved = 2

-- PAGE_2M_NUM: the number of 2M pages that hold `x` bytes, in `uint64_t` arithmetic
abbrev pub page_2m_num : ℕ → ℕ
page_2m_num x = u64 (x + (2 ^ 21 - 1)) / 2 ^ 21

-- PAGE_4K_ROUND
abbrev pub page_4k_round : ℕ → ℕ
page_4k_round x = u64 (x + (2 ^ 12 - 1)) / 2 ^ 12 * 2 ^ 12

-- PAGE_4K_INDEX
abbrev pub page_4k_index : ℕ → ℕ
page_4k_index x = x / 2 ^ 12 % 512

abbrev pub page_desc_init : ℕ → PageDesc
page_desc_init fl = record {
  next_cache = 0;
  prev_cache = 0;
  next_hash = 0;
  cache = 0;
  cache_offset = 0;
  next_free = 0;
  flags = fl;
  vaddr = 0;
  reserved = 0;
}

-- the first loop of `page_db_init_pages`: the number of rounds left, the index
mark_reserved : ℕ → ℕ → (ℕ → PageDesc) → ℕ → PageDesc
mark_reserved zero i pages = pages
mark_reserved (suc n) i pages =
    mark_reserved n (i + 1) (update pages i (page_desc_init pgf_reserved))

-- its second loop; `i + 1` is at most `num_pages - 1`
link_free : ℕ → ℕ → (ℕ → PageDesc) → ℕ → PageDesc
link_free zero i pages = pages
link_free (suc n) i pages =
    link_free n (i + 1) (update pages i (record (page_desc_init pgf_free) { next_free = i + 1 }))

-- The index is left at `num_pages - 1`, or at `num_reserved` if that is larger.
pub page_db_init_pages : PageDb → (num_pages num_reserved : ℕ) → PageDb
unfolding mark_reserved link_free
page_db_init_pages db num_pages num_reserved =
    let rounds = sub32 num_pages 1 - num_reserved in
    let linked = link_free rounds num_reserved (mark_reserved num_reserved 0 db.pages) in
    record db {
      pages = update linked (num_reserved + rounds) (page_desc_init pgf_free);
      free_list = num_reserved;
    }

-- `sizeof(struct page_db_t)` is 24 and `sizeof(struct page_desc_t)` is 64.
pub page_db_size : ℕ → ℕ
page_db_size num_pages = u32 (page_4k_round (24 + 64 * num_pages))

pub page_db_calc_size : ℕ → ℕ
unfolding page_db_size
page_db_calc_size memory_size = page_db_size (u32 (memory_size / 2 ^ 21))

-- the assignments that `page_db_init` and `page_db_init_4k` make before `page_db_init_pages`
abbrev pub page_db_header : PageDb → (page_index num_pages num_reserved : ℕ) → PageDb
page_db_header db page_index num_pages num_reserved = record db {
  page_index = page_index;
  num_pages = num_pages;
  num_free = sub32 num_pages num_reserved;
  num_reserved = u16 num_reserved;
  flags = 0;
  lock = 0;
}

pub page_db_init : PageDb → (memory_size reserved_size : ℕ) → PageDb
unfolding page_db_init_pages
page_db_init db memory_size reserved_size =
    let num_reserved = u32 (page_2m_num reserved_size) in
    let num_pages = u32 (memory_size / 2 ^ 21) in
    page_db_init_pages (page_db_header db 0 num_pages num_reserved) num_pages num_reserved

-- a 2M page split into 512 small ones, of which the first hold the database itself
pub page_db_init_4k : PageDb → (page_index : ℕ) → PageDb
unfolding page_db_init_pages page_db_size
page_db_init_4k db page_index =
    let num_pages = 2 ^ 21 / 2 ^ 12 in
    let num_reserved = page_db_size num_pages / 2 ^ 12 in
    page_db_init_pages (page_db_header db page_index num_pages num_reserved) num_pages num_reserved

pub page_db_alloc : PageDb → Outcome (ℕ × PageDb)
page_db_alloc db =
    let index = db.free_list in
    if ltb 0 index
    then (do
      check ((db.pages index).flags == pgf_free)
      done (
        index,
        record db {
          free_list = (db.pages index).next_free;
          pages = update db.pages index (record (db.pages index) { flags = pgf_used });
          num_free = sub32 db.num_free 1;
        },
      ))
    else done (index, db)

pub page_db_free : PageDb → ℕ → Outcome PageDb
page_db_free db index = do
  check (leb db.num_reserved index && ltb index db.num_pages)
  check (not ((db.pages index).flags == pgf_free))
  done (record db {
    pages =
        update db.pages index
          (record (db.pages index) { flags = pgf_free; next_free = db.free_list });
    free_list = index;
    num_free = u32 (db.num_free + 1);
  })

-- The shifts are made on `uintptr_t`.
pub page_db_index2addr : PageDb → ℕ → ℕ
page_db_index2addr db index =
    if db.page_index == 0
    then u64 (index * 2 ^ 21)
    else u64 (u64 (db.page_index * 2 ^ 21) + u64 (index * 2 ^ 12))

pub page_db_addr2index : PageDb → ℕ → Outcome ℕ
page_db_addr2index db addr = if db.page_index == 0 then done (u32 (addr / 2 ^ 21)) else (do
  let base = u64 (db.page_index * 2 ^ 21)
  let index = page_4k_index addr
  check (ltb base addr && ltb addr (u64 (base + 2 ^ 21)))
  check (leb db.num_reserved index && ltb index db.num_pages)
  done index)

-- `pdb` is the address of the database.
pub page_db_4k_vaddr : PageDb → (pdb index : ℕ) → Outcome ℕ
page_db_4k_vaddr db pdb index = do
  check (leb db.num_reserved index && ltb index db.num_pages)
  done (u64 (pdb + u64 (index * 2 ^ 12)))

pub page_db_alloc_addr : PageDb → Outcome (ℕ × PageDb)
unfolding page_db_alloc page_db_index2addr
page_db_alloc_addr db = do
  (index, db') ← page_db_alloc db
  done (if ltb 0 index then page_db_index2addr db' index else 0, db')

-- The address goes to `page_db_index2addr` as a `uint32_t`, and its result to a `uint32_t`.
pub page_db_free_addr : PageDb → ℕ → Outcome PageDb
unfolding page_db_free page_db_index2addr
page_db_free_addr db addr =
    let index = u32 (page_db_index2addr db (u32 addr)) in
    if index == 0 then done db else page_db_free db index

-- the search of `page_db_reserve_page` for the page before `page_index` in the free list
unlink_free : ℕ → ℕ → ℕ → (ℕ → PageDesc) → ℕ → PageDesc
unlink_free zero i page_index pages = pages
unlink_free (suc n) i page_index pages =
    let rest = unlink_free n (i + 1) page_index pages in
    let linked = update pages i (record (pages i) { next_free = (pages page_index).next_free }) in
    if (pages i).next_free == page_index
    then update linked page_index (record (linked page_index) { flags = pgf_reserved })
    else rest

pub page_db_reserve_page : PageDb → ℕ → Outcome PageDb
unfolding unlink_free
page_db_reserve_page db page_index =
    let page = db.pages page_index in
    if leb db.num_pages page_index
    then done db
    else if page.flags == pgf_reserved
    then done db
    else (do
      check (page.flags == pgf_free)
      done (
          if page_index == db.num_reserved
          then record db {
            pages =
                update db.pages page_index (record page { flags = pgf_reserved; next_free = 0 });
            num_reserved = u16 (db.num_reserved + 1);
            free_list = u16 (db.num_reserved + 1);
          }
          else record db {
            pages =
                unlink_free (db.num_pages - db.num_reserved) db.num_reserved page_index db.pages;
          }))

reserve_pages : ℕ → ℕ → PageDb → Outcome PageDb
reserve_pages zero page_index db = done db
reserve_pages (suc n) page_index db = do
  db' ← page_db_reserve_page db page_index
  reserve_pages n (u32 (page_index + 1)) db'

pub page_db_reserve_region : PageDb → (addr size : ℕ) → Outcome PageDb
unfolding reserve_pages page_db_reserve_page
page_db_reserve_region db addr size = do
  let page_index = u32 (addr / 2 ^ 21)
  check (leb db.num_reserved page_index)
  reserve_pages (u32 (page_2m_num (u64 (size + addr % 2 ^ 21)))) page_index db
