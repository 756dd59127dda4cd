-- ===== src/PageDb/Address.antt =====
-- src/vm_page.c, from page_db_index2addr to page_db_free_addr: pages and their addresses.
use smor.Prelude.{ℕ, ◌+◌, ◌^◌, ◌≤◌, ◌<◌, ◌≡◌, arith, done}
use smor.PageDb.{PageDb, page_db_index2addr, page_db_addr2index, page_db_free_addr}

-- In the database of 2M pages every index below 2 ^ 32 comes back from its address, and from any
-- other address in that page.
pub addr2index-index2addr_2m :
    (db : PageDb) (index offset : ℕ)
    → db.page_index ≡ 0
    → index < 2 ^ 32
    → offset < 2 ^ 21
    → page_db_addr2index db (page_db_index2addr db index + offset) ≡ done index
unfolding page_db_addr2index page_db_index2addr
addr2index-index2addr_2m db index offset big lt inside = ground arith

-- In a database of small pages every index that is not reserved comes back from its address.
pub addr2index-index2addr_4k :
    (db : PageDb) (index : ℕ)
    → 0 < db.page_index
    → db.page_index < 2 ^ 32
    → 0 < db.num_reserved
    → db.num_pages ≤ 512
    → db.num_reserved ≤ index
    → index < db.num_pages
    → page_db_addr2index db (page_db_index2addr db index) ≡ done index
unfolding page_db_addr2index page_db_index2addr
addr2index-index2addr_4k db index big narrow pos fits lo hi = ground arith

-- `page_db_free_addr` converts with `page_db_index2addr`, the wrong way round: on the database of 2M
-- pages it frees nothing, whatever page address it is given.
pub free_addr-leaks :
    (db : PageDb) (index : ℕ)
    → db.page_index ≡ 0
    → page_db_free_addr db (page_db_index2addr db index) ≡ done db
unfolding page_db_free_addr page_db_index2addr
free_addr-leaks db index big = ground arith
