-- ===== src/PageDb/Reserve.antt =====
-- src/vm_page.c, page_db_reserve_page: a free page taken out of the free list for good.
use smor.Prelude.{
  ℕ, zero, suc, ◌+◌, ◌-◌, ◌^◌, ◌≤◌, ◌<◌, ◌≡◌, ◌≢◌, true, false, List, [], ◌∷◌, ◌++◌, arith, done,
  Bool-cases, inl, inr, ◌==◌, update, length, length-append, has, has-append, u16, Distinct,
}
use smor.PageDb.{PageDb, PageDesc, pgf_reserved, unlink_free, page_db_reserve_page}
use smor.PageDb.FreeList.{Chain, IsFreeList, Chain-update}

-- the pages after `x`, the page before `p`, is made to skip `p`
abbrev skip : ℕ → ℕ → (ℕ → PageDesc) → ℕ → PageDesc
skip x p pages =
    let linked = update pages x (record (pages x) { next_free = (pages p).next_free }) in
    update linked p (record (linked p) { flags = pgf_reserved })

-- `x` is the one page of the range whose link leads to `p`, so the search stops there
unlink_free-skip :
    (n i x p : ℕ) (pages : ℕ → PageDesc)
    → i ≤ x
    → x < i + n
    → (pages x).next_free ≡ p
    → ((j : ℕ) → i ≤ j → j < i + n → j ≢ x → (pages j).next_free ≢ p)
    → unlink_free n i p pages ≡ skip x p pages
unfolding unlink_free
unlink_free-skip zero i x p pages lo hi e only = absurd (omega arith)
unlink_free-skip (suc n) i x p pages lo hi e only = elim (Bool-cases (i == x)) [
  | inl same ↦
      let eq : i ≡ x = ground arith in
      let hit : ((pages x).next_free == p) ≡ true = ground arith in rw eq (rw hit)
  | inr other ↦
      let miss : ((pages i).next_free == p) ≡ false = ground (arith, only i) in
      rw miss (
        unlink_free-skip n (i + 1) x p pages (ground arith) (omega arith) e
          (λ j l u. only j (omega arith) (omega arith)))
]

-- skipping `p` after its predecessor `x` takes it out of the chain
skip-Chain :
    (x p : ℕ) (pages : ℕ → PageDesc) (head : ℕ) (ys zs : List ℕ)
    → Distinct (ys ++ x ∷ p ∷ zs)
    → Chain pages head (ys ++ x ∷ p ∷ zs)
    → Chain (skip x p pages) head (ys ++ x ∷ zs)
skip-Chain x p pages head [] zs d c = (
  c.0,
  c.1,
  ground (
    arith,
    Chain-update (update pages x (record (pages x) { next_free = (pages p).next_free }))
        (record (pages p) { flags = pgf_reserved }) p ((pages p).next_free) zs,
    Chain-update pages (record (pages x) { next_free = (pages p).next_free }) x
        ((pages p).next_free) zs,
  ),
)
skip-Chain x p pages head (y ∷ ys) zs d c =
    let away : (y ≢ x) × (y ≢ p) = (
      ground (arith, has-append y ys (x ∷ p ∷ zs)),
      ground (arith, has-append y ys (x ∷ p ∷ zs)),
    ) in
    (
      c.0,
      c.1,
      ground (arith, skip-Chain x p pages ((pages y).next_free) ys zs d.1 (c.2), away.0, away.1),
    )

next_of_middle :
    (x p : ℕ) (pages : ℕ → PageDesc) (head : ℕ) (ys zs : List ℕ)
    → Chain pages head (ys ++ x ∷ p ∷ zs)
    → (pages x).next_free ≡ p
next_of_middle x p pages head [] zs c = c.2.0
next_of_middle x p pages head (y ∷ ys) zs c =
    next_of_middle x p pages ((pages y).next_free) ys zs (c.2)

-- If `p` is on the free list behind `x`, is not the first page after the reserved ones, and no other
-- page of the database is linked to `p`, then `page_db_reserve_page` marks it reserved and takes it
-- out of the chain; it does not lower `num_free`, which is then one more than the pages left.
pub reserve_middle :
    {db : PageDb} (x p : ℕ) (ys zs : List ℕ)
    → IsFreeList db (ys ++ x ∷ p ∷ zs)
    → p ≢ db.num_reserved
    → ((j : ℕ) → db.num_reserved ≤ j → j < db.num_pages → j ≢ x → (db.pages j).next_free ≢ p)
    → (db' : PageDb) × (page_db_reserve_page db p ≡ done db')
      × Chain db'.pages db'.free_list (ys ++ x ∷ zs)
      × ((db'.pages p).flags ≡ pgf_reserved)
      × (db'.num_free ≡ length (ys ++ x ∷ zs) + 1)
unfolding page_db_reserve_page
reserve_middle {db} x p ys zs v front only = (
  record db { pages = skip x p db.pages },
  ground (
    arith,
    v.inside p on_list,
    v.free p on_list,
    unlink_free-skip (db.num_pages - db.num_reserved) db.num_reserved x p db.pages
        (ground (arith, v.inside x before)) (ground (arith, v.inside x before))
        (next_of_middle x p db.pages db.free_list ys zs v.chain)
        (λ j l u. only j l (omega (arith, v.inside x before))),
  ),
  skip-Chain x p db.pages db.free_list ys zs v.distinct v.chain,
  ground arith,
  omega (arith, v.count, length-append ys (x ∷ p ∷ zs), length-append ys (x ∷ zs)),
)
  where
    on_list : has p (ys ++ x ∷ p ∷ zs) ≡ true
    on_list = ground (arith, has-append p ys (x ∷ p ∷ zs))

    before : has x (ys ++ x ∷ p ∷ zs) ≡ true
    before = ground (arith, has-append x ys (x ∷ p ∷ zs))

-- If the free list begins with the first page after the reserved ones and goes on with the page
-- after that, `page_db_reserve_page` of the first page takes it off the front and raises
-- `num_reserved`; `num_free` stays, and is then one more than the pages left.
pub reserve_front :
    {db : PageDb} (xs : List ℕ)
    → IsFreeList db (db.num_reserved ∷ (db.num_reserved + 1) ∷ xs)
    → db.num_reserved + 1 < 2 ^ 16
    → (db' : PageDb) × (page_db_reserve_page db db.num_reserved ≡ done db')
      × Chain db'.pages db'.free_list ((db.num_reserved + 1) ∷ xs)
      × (db'.num_reserved ≡ db.num_reserved + 1)
      × ((db'.pages db.num_reserved).flags ≡ pgf_reserved)
      × (db'.num_free ≡ length ((db.num_reserved + 1) ∷ xs) + 1)
unfolding page_db_reserve_page
reserve_front {db} xs v narrow = (
  record db {
    pages = update db.pages nr (record (db.pages nr) { flags = pgf_reserved; next_free = 0 });
    num_reserved = u16 (nr + 1);
    free_list = u16 (nr + 1);
  },
  ground (arith, v.inside nr, v.free nr),
  Chain-update db.pages (record (db.pages nr) { flags = pgf_reserved; next_free = 0 }) nr
      (u16 (nr + 1)) ((nr + 1) ∷ xs) v.distinct.0 (omega arith, v.chain.2.1, v.chain.2.2),
  omega arith,
  ground arith,
  omega (arith, v.count),
)
  where
    nr : ℕ
    nr = db.num_reserved
