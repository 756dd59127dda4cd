-- ===== src/PageDb/Init.antt =====
-- src/vm_page.c, page_db_init_pages, page_db_init and page_db_init_4k: the first free list.
use smor.Prelude.{
  ℕ, zero, suc, ◌+◌, ◌-◌, ◌/◌, ◌^◌, ◌≤◌, ◌<◌, ◌≡◌, refl, ◌&&◌, ltb, leb, if◌then◌else◌, update,
  arith, range_from, length-range_from, has-range_from, range_from-has, range_from-Distinct, u32,
  sub32,
}
use smor.PageDb.{
  PageDb, PageDesc, pgf_free, pgf_reserved, page_2m_num, page_desc_init, mark_reserved, link_free,
  page_db_init_pages, page_db_header, page_db_init, page_db_init_4k,
}
use smor.PageDb.FreeList.{Chain, IsFreeList}

mark_reserved_at :
    (n i : ℕ) (pages : ℕ → PageDesc) (j : ℕ)
    → mark_reserved n i pages j
      ≡ (if leb i j && ltb j (i + n) then page_desc_init pgf_reserved else pages j)
unfolding mark_reserved
mark_reserved_at zero i pages j = ground arith
mark_reserved_at (suc n) i pages j =
    ground (arith, mark_reserved_at n (i + 1) (update pages i (page_desc_init pgf_reserved)) j)

link_free_at :
    (n i : ℕ) (pages : ℕ → PageDesc) (j : ℕ)
    → link_free n i pages j ≡ (
        if leb i j && ltb j (i + n)
        then record (page_desc_init pgf_free) { next_free = j + 1 }
        else pages j)
unfolding link_free
link_free_at zero i pages j = ground arith
link_free_at (suc n) i pages j = ground (
  arith,
  link_free_at n (i + 1) (update pages i (record (page_desc_init pgf_free) { next_free = i + 1 }))
      j,
)

-- pages linked to their successors, the last one to 0
range-Chain :
    (n i m head : ℕ) (pages : ℕ → PageDesc)
    → 0 < i
    → i + n ≡ m
    → head ≡ i
    → ((j : ℕ) → i ≤ j → j < m → (pages j).next_free ≡ j + 1)
    → (pages m).next_free ≡ 0
    → Chain pages head (range_from i (suc n))
range-Chain zero i m head pages pos end e links last =
    let same : i ≡ m = omega arith in (e, omega arith, rw same last)
range-Chain (suc n) i m head pages pos end e links last = (
  e,
  omega arith,
  range-Chain n (i + 1) m ((pages i).next_free) pages (omega arith) (omega arith)
      (links i (omega arith) (omega arith)) (λ j l u. links j (omega arith) u) last,
)

module _ (db : PageDb) (np nr : ℕ) (pos : 0 < nr) (lt : nr < np) (small : np < 2 ^ 32) where
  -- the three kinds of pages that the loops leave behind
  page_at :
      (j : ℕ)
      → (page_db_init_pages db np nr).pages j ≡ (
          if leb np j
          then db.pages j
          else if ltb j nr
          then page_desc_init pgf_reserved
          else if ltb (j + 1) np
          then record (page_desc_init pgf_free) { next_free = j + 1 }
          else page_desc_init pgf_free)
  unfolding page_db_init_pages
  page_at j = ground (
    arith,
    mark_reserved_at nr 0 db.pages j,
    link_free_at (sub32 np 1 - nr) nr (mark_reserved nr 0 db.pages) j,
  )

  init_pages-IsFreeList :
      db.num_pages ≡ np
      → db.num_reserved ≡ nr
      → db.num_free ≡ np - nr
      → IsFreeList (page_db_init_pages db np nr) (range_from nr (np - nr))
  unfolding page_db_init_pages
  init_pages-IsFreeList e f g = record {
    chain =
        let n : np - nr ≡ suc (np - nr - 1) = omega arith in
        rw n (
          range-Chain (np - nr - 1) nr (np - 1) nr ((page_db_init_pages db np nr).pages) pos
            (omega arith) refl (λ j l u. ground (arith, page_at j))
            (ground (arith, page_at (np - 1))));
    distinct = range_from-Distinct nr (np - nr);
    count = omega (arith, length-range_from nr (np - nr));
    inside = λ i h. ground (arith, has-range_from i nr (np - nr));
    free = λ i h. ground (arith, has-range_from i nr (np - nr), page_at i);
    complete = λ i l u h. range_from-has i nr (np - nr) (omega arith) (omega arith);
    reserved = omega arith;
    small = omega arith;
  }

-- For a machine whose memory has more 2M pages than the reserved part and fewer than 2 ^ 32, with at
-- least one and fewer than 2 ^ 16 reserved ones, `page_db_init` leaves the free list of all pages
-- after the reserved ones, in ascending order.
pub init-IsFreeList :
    (db : PageDb) (memory_size reserved_size : ℕ)
    → 0 < page_2m_num reserved_size
    → page_2m_num reserved_size < 2 ^ 16
    → page_2m_num reserved_size < memory_size / 2 ^ 21
    → memory_size / 2 ^ 21 < 2 ^ 32
    → let nr = page_2m_num reserved_size in
      IsFreeList
        (page_db_init db memory_size reserved_size)
        (range_from nr (memory_size / 2 ^ 21 - nr))
unfolding page_db_init
init-IsFreeList db memory_size reserved_size pos narrow lt small =
    let nr_eq : u32 (page_2m_num reserved_size) ≡ page_2m_num reserved_size = omega arith in
    let np_eq : u32 (memory_size / 2 ^ 21) ≡ memory_size / 2 ^ 21 = omega arith in
    let nr = page_2m_num reserved_size in
    let np = memory_size / 2 ^ 21 in
    rw (nr_eq, np_eq)
      (init_pages-IsFreeList (page_db_header db 0 np nr) np nr pos lt small refl (omega arith)
        (omega arith))

-- `page_db_init_4k` reserves the nine small pages that hold the database, and its free list is the
-- other 503 pages.
pub init_4k-IsFreeList :
    (db : PageDb) (page_index : ℕ) → IsFreeList (page_db_init_4k db page_index) (range_from 9 503)
unfolding page_db_init_4k
init_4k-IsFreeList db page_index =
    init_pages-IsFreeList (page_db_header db page_index 512 9) 512 9 (omega arith) (omega arith)
      (omega arith) refl refl refl
