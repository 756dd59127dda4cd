-- ===== src/PageDb/Tests.antt =====
-- A database of six pages, two of them reserved, and the theorems at it.
use smor.Prelude.{
  ℕ, ◌+◌, ◌*◌, ◌^◌, ◌≤◌, ◌<◌, ◌≡◌, ◌≢◌, refl, List, [], ◌∷◌, some, done, arith, update,
}
use smor.PageDb.{
  PageDb, page_db_calc_size, pgf_free, pgf_used, pgf_reserved, page_desc_init, page_db_init,
  page_db_alloc, page_db_free, page_db_index2addr, page_db_free_addr, page_db_reserve_page,
}
use smor.PageDb.FreeList.{
  Chain, IsFreeList, Allocates, alloc-Allocates, free-IsFreeList, taken-IsFreeList,
}
use smor.Kernel.{BootInfo, kernel_base}
use smor.PageDb.Setup.{vm_page_init, IsSetUp, vm_page_init-IsSetUp}
use smor.PageDb.Init.{init-IsFreeList}
use smor.PageDb.Address.{free_addr-leaks}
use smor.PageDb.Trace.{Reach, start, later, alloc, give, Conserved, Reach-Conserved}
use smor.PageDb.Reserve.{reserve_middle}
use smor.PageDb.Runs.{page_db_dump_free_list, expand, dump_free_list-expand}

abbrev blank : PageDb
blank = record {
  page_index = 0;
  num_pages = 0;
  num_free = 0;
  free_list = 0;
  lock = 0;
  num_reserved = 0;
  flags = 0;
  pages = λ _. page_desc_init pgf_used;
}

abbrev small_db : PageDb
small_db = record blank {
  num_pages = 6;
  num_free = 4;
  free_list = 2;
  num_reserved = 2;
  pages = (page_db_init blank (6 * 2 ^ 21) (2 ^ 21 + 1)).pages;
}

small_db-init : page_db_init blank (6 * 2 ^ 21) (2 ^ 21 + 1) ≡ small_db
unfolding page_db_init
small_db-init = refl

-- the free list after the start
init-IsFreeList_case :
    IsFreeList (page_db_init blank (6 * 2 ^ 21) (2 ^ 21 + 1)) (2 ∷ 3 ∷ 4 ∷ 5 ∷ [])
init-IsFreeList_case =
    init-IsFreeList blank (6 * 2 ^ 21) (2 ^ 21 + 1) (omega arith) (omega arith) (omega arith)
      (omega arith)

small : IsFreeList small_db (2 ∷ 3 ∷ 4 ∷ 5 ∷ [])
unfolding page_db_init
small = init-IsFreeList_case

alloc-Allocates_example : Allocates small_db (2 ∷ 3 ∷ 4 ∷ 5 ∷ [])
alloc-Allocates_example = alloc-Allocates (2 ∷ 3 ∷ 4 ∷ 5 ∷ []) small

-- page 1 is reserved at the start, and not free: it lies outside the pages that can be given back
-- `small_db` after one allocation
abbrev used_db : PageDb
used_db = record small_db {
  num_free = 3;
  free_list = 3;
  pages = update small_db.pages 2 (record (small_db.pages 2) { flags = pgf_used });
}

used_db-alloc : page_db_alloc small_db ≡ done (2, used_db)
unfolding page_db_init page_db_alloc
used_db-alloc = refl

used : IsFreeList used_db (3 ∷ 4 ∷ 5 ∷ [])
unfolding page_db_init
used = taken-IsFreeList 2 (3 ∷ 4 ∷ 5 ∷ []) small

free-IsFreeList_example :
    (db' : PageDb) × (page_db_free used_db 2 ≡ done db') × IsFreeList db' (2 ∷ 3 ∷ 4 ∷ 5 ∷ [])
free-IsFreeList_example =
    free-IsFreeList 2 (3 ∷ 4 ∷ 5 ∷ []) used (omega arith) (omega arith) (omega arith)

abbrev small_pages : PageDb
small_pages = record blank { page_index = 3; num_pages = 512; num_reserved = 9 }

free_addr-leaks_example : page_db_free_addr used_db (page_db_index2addr used_db 2) ≡ done used_db
free_addr-leaks_example = free_addr-leaks used_db 2 refl

only_3 : (j : ℕ) → 2 ≤ j → j < 6 → j ≢ 3 → (small_db.pages j).next_free ≢ 4
unfolding page_db_init
only_3 j l u ne = ground arith

reserve_middle_case :
    (db' : PageDb) × (page_db_reserve_page small_db 4 ≡ done db')
    × Chain db'.pages db'.free_list (2 ∷ 3 ∷ 5 ∷ [])
    × ((db'.pages 4).flags ≡ pgf_reserved)
    × (db'.num_free ≡ 3 + 1)
reserve_middle_case = reserve_middle 3 4 (2 ∷ []) (5 ∷ []) small (omega arith) only_3

dump_free_list-expand_example :
    (rs : List (ℕ × ℕ)) × (page_db_dump_free_list 5 small_db ≡ some rs)
    × (expand rs ≡ 2 ∷ 3 ∷ 4 ∷ 5 ∷ [])
dump_free_list-expand_example = dump_free_list-expand 5 (2 ∷ 3 ∷ 4 ∷ 5 ∷ []) small (omega arith)

-- one allocation, and another whose page is given back
abbrev twice_db : PageDb
twice_db = record used_db {
  num_free = 2;
  free_list = 4;
  pages = update used_db.pages 3 (record (used_db.pages 3) { flags = pgf_used });
}

abbrev back_db : PageDb
back_db = record twice_db {
  num_free = 3;
  free_list = 2;
  pages = update twice_db.pages 2 (record (twice_db.pages 2) { flags = pgf_free; next_free = 4 });
}

three_calls : Reach small_db back_db (3 ∷ [])
unfolding page_db_init page_db_alloc page_db_free
three_calls =
    later (later (later start (alloc refl (omega arith))) (alloc refl (omega arith)))
      (give 2 refl refl)

Reach-Conserved_example : (ys : List ℕ) × Conserved back_db (3 ∷ []) ys
Reach-Conserved_example = Reach-Conserved (2 ∷ 3 ∷ 4 ∷ 5 ∷ []) small (omega arith) three_calls

-- a kernel image of 4M, on a machine of 128M
abbrev boot : BootInfo
boot = record {
  kernel_end = 4194000;
  kernel_top = 2 * 2 ^ 21;
  kernel_slack = 4194000;
  slack_lock = 0;
  mapped = [];
}

vm_page_init-IsSetUp_example :
    (p : ℕ) × (db' : PageDb) × (b' : BootInfo) × (vm_page_init (2 ^ 27) blank boot
      ≡ done (kernel_base + p, db', b'))
    × IsSetUp (2 ^ 27) p boot db' b'
unfolding page_db_calc_size
vm_page_init-IsSetUp_example =
    vm_page_init-IsSetUp (2 ^ 27) blank boot
      (record { inside = omega arith; aligned = refl; unlocked = refl }) (omega arith) (omega arith)
      (omega arith) (omega arith)
