-- ===== src/PageDb/Setup.antt =====
-- src/vm_page.c, vm_page_init: the page database is put behind the kernel image.
use smor.Prelude.{
  ℕ, ◌+◌, ◌-◌, ◌*◌, ◌/◌, ◌^◌, ◌≤◌, ◌<◌, ◌≡◌, refl, true, subst, Outcome, done, ◌>>=◌, arith, has,
  range_from, has-range_from,
}
use smor.Kernel.{BootInfo, kernel_base, kernel_slack_alloc}
use smor.Kernel.Slack.{IsReady, Block, slack_alloc-Block}
use smor.PageDb.{PageDb, page_2m_num, page_db_calc_size, page_db_init}
use smor.PageDb.FreeList.{IsFreeList}
use smor.PageDb.Init.{init-IsFreeList}

-- `mmap_top` is the field of that name; `db` is what lies at the place of the database
pub vm_page_init : (mmap_top : ℕ) → PageDb → BootInfo → Outcome (ℕ × PageDb × BootInfo)
vm_page_init mmap_top db b = do
  (page_db, b1) ← kernel_slack_alloc (page_db_calc_size mmap_top) 16 b
  done (page_db, page_db_init db mmap_top b1.kernel_top, b1)

-- the pages of a database that lies at `p`, on a machine with memory up to `mmap_top`
pub record IsSetUp (mmap_top p : ℕ) (b : BootInfo) (db' : PageDb) (b' : BootInfo) : Type 0 where
  pub block : Block b (page_db_calc_size mmap_top) 16 p b'
  pub free :
      IsFreeList db'
        (range_from (b'.kernel_top / 2 ^ 21) (mmap_top / 2 ^ 21 - b'.kernel_top / 2 ^ 21))
  pub apart :
      (i : ℕ)
      → has i (range_from (b'.kernel_top / 2 ^ 21) (mmap_top / 2 ^ 21 - b'.kernel_top / 2 ^ 21))
        ≡ true
      → (p + page_db_calc_size mmap_top ≤ i * 2 ^ 21) × (i * 2 ^ 21 + 2 ^ 21 ≤ mmap_top)

-- With the slack memory ready, a kernel image that is not at address 0, room for the database below 2G
-- and memory past that, but fewer than 2 ^ 32 pages of it, `vm_page_init` returns. The free pages are
-- those from the mapped top on to the end of memory, and none of them overlaps the database.
pub vm_page_init-IsSetUp :
    (mmap_top : ℕ) (db : PageDb) (b : BootInfo)
    → IsReady b
    → 0 < b.kernel_top
    → b.kernel_top + page_db_calc_size mmap_top + 16 + 2 ^ 21 ≤ 2 ^ 31
    → b.kernel_top + page_db_calc_size mmap_top + 16 + 2 ^ 22 ≤ mmap_top
    → mmap_top / 2 ^ 21 < 2 ^ 32
    → (p : ℕ) × (db' : PageDb) × (b' : BootInfo) × (vm_page_init mmap_top db b
        ≡ done (kernel_base + p, db', b'))
      × IsSetUp mmap_top p b db' b'
unfolding vm_page_init
vm_page_init-IsSetUp mmap_top db b ready low room more small =
    let size = page_db_calc_size mmap_top in
    let (p, b', run, block) = slack_alloc-Block size 4 ready (omega arith) (omega (arith, room)) in
    let num : page_2m_num b'.kernel_top ≡ b'.kernel_top / 2 ^ 21 =
      omega (arith, block.ready.aligned, block.tight, room) in
    let last : b'.kernel_top / 2 ^ 21 < mmap_top / 2 ^ 21 = omega (arith, block.tight, more) in
    (
      p,
      page_db_init db mmap_top b'.kernel_top,
      b',
      rw run refl,
      record {
        block = block;
        free =
            subst
              (λ n.
                IsFreeList (page_db_init db mmap_top b'.kernel_top)
                  (range_from n (mmap_top / 2 ^ 21 - n)))
              num
              (init-IsFreeList db mmap_top b'.kernel_top
                (omega (arith, num, block.ready.aligned, block.top, low))
                (omega (arith, num, block.tight, room)) (omega (arith, num, last)) small);
        apart = λ i h.
            let (from, below) =
              has-range_from i (b'.kernel_top / 2 ^ 21) (mmap_top / 2 ^ 21 - b'.kernel_top / 2 ^ 21)
                h in
            (
              omega (arith, from, block.ends, block.ready.inside, block.ready.aligned),
              omega (arith, below, last),
            );
      },
    )
