-- ===== src/PageDb/FreeList.antt =====
-- src/vm_page.c, page_db_alloc and page_db_free: the free list threaded through `next_free`.
use smor.Prelude.{
  ℕ, ◌+◌, ◌^◌, ◌≤◌, ◌<◌, ◌≡◌, ◌≢◌, refl, true, false, List, [], ◌∷◌, done, arith, length, has,
  Distinct, length-le_of_Distinct, update, fun_ext, ap, sym, sub32, u32, ◌⊎◌, panic, ◌>>=◌,
}
use smor.PageDb.{PageDb, PageDesc, pgf_free, pgf_used, page_db_alloc, page_db_free}

-- from `head` the `next_free` links lead through `xs` to the terminator 0
abbrev pub Chain : (ℕ → PageDesc) → ℕ → List ℕ → Type 0
Chain pages head [] = head ≡ 0
Chain pages head (x ∷ xs) = (head ≡ x) × (x ≢ 0) × Chain pages ((pages x).next_free) xs

-- `xs` is the free list of `db`: the free pages of the database, each once, and as many as
-- `num_free` says
pub record IsFreeList (db : PageDb) (xs : List ℕ) : Type 0 where
  pub chain : Chain db.pages db.free_list xs
  pub distinct : Distinct xs
  pub count : db.num_free ≡ length xs
  pub inside : (i : ℕ) → has i xs ≡ true → (db.num_reserved ≤ i) × (i < db.num_pages)
  pub free : (i : ℕ) → has i xs ≡ true → (db.pages i).flags ≡ pgf_free
  pub complete :
      (i : ℕ)
      → db.num_reserved ≤ i
      → i < db.num_pages
      → (db.pages i).flags ≡ pgf_free
      → has i xs ≡ true
  pub reserved : 0 < db.num_reserved
  pub small : db.num_pages < 2 ^ 32

-- a write to a page that is not on the list leaves the list alone
pub Chain-update :
    (pages : ℕ → PageDesc) (p : PageDesc) (i head : ℕ) (xs : List ℕ)
    → has i xs ≡ false
    → Chain pages head xs
    → Chain (update pages i p) head xs
Chain-update pages p i head [] out c = c
Chain-update pages p i head (x ∷ xs) out c =
    (c.0, c.1, ground (arith, Chain-update pages p i ((pages x).next_free) xs))

-- The list is no longer than the database has pages, so the counter does not wrap.
length-lt : {db : PageDb} {xs : List ℕ} → IsFreeList db xs → length xs < db.num_pages + 1
length-lt {db} {xs} v =
    omega (
      arith,
      length-le_of_Distinct db.num_pages xs v.distinct (λ j i. ground (arith, v.inside j i)),
    )

-- what `page_db_alloc` leaves of `db` when it takes the page `x`
abbrev pub taken : PageDb → ℕ → PageDb
taken db x = record db {
  free_list = (db.pages x).next_free;
  pages = update db.pages x (record (db.pages x) { flags = pgf_used });
  num_free = sub32 db.num_free 1;
}

pub taken-IsFreeList :
    {db : PageDb} (x : ℕ) (xs : List ℕ) → IsFreeList db (x ∷ xs) → IsFreeList (taken db x) xs
taken-IsFreeList {db} x xs v = record {
  chain =
      Chain-update db.pages (record (db.pages x) { flags = pgf_used }) x _ xs (v.distinct.0)
        (v.chain.2);
  distinct = v.distinct.1;
  count = omega (arith, length-lt v, v.count, v.small);
  inside = λ i h. ground (arith, v.inside i);
  free = λ i h. ground (arith, v.free i);
  complete = λ i lo hi h. ground (arith, v.complete i lo hi);
  reserved = v.reserved;
  small = v.small;
}

pub alloc-taken :
    {db : PageDb} (x : ℕ) (xs : List ℕ)
    → IsFreeList db (x ∷ xs)
    → page_db_alloc db ≡ done (x, taken db x)
unfolding page_db_alloc
alloc-taken {db} x xs v = ground (arith, v.chain.0, v.chain.1, v.free x)

-- what a call of `page_db_alloc` does, by the free list `xs`
abbrev pub Allocates : PageDb → List ℕ → Type 0
Allocates db [] = page_db_alloc db ≡ done (0, db)
Allocates db (x ∷ xs) =
    (db' : PageDb) × (page_db_alloc db ≡ done (x, db'))
    × IsFreeList db' xs
    × ((db'.pages x).flags ≡ pgf_used)
    × ((i : ℕ) → i ≢ x → db'.pages i ≡ db.pages i)

-- On a database with the free list `xs`, `page_db_alloc` does not panic. If `xs` is empty it returns
-- 0 and changes nothing; otherwise it returns the first page of `xs`, marks it used, leaves every
-- other page as it was, and the rest of `xs` is the free list of the result.
pub alloc-Allocates : {db : PageDb} (xs : List ℕ) → IsFreeList db xs → Allocates db xs
unfolding page_db_alloc
alloc-Allocates [] v = ground (arith, v.chain)
alloc-Allocates {db} (x ∷ xs) v =
    (taken db x, alloc-taken x xs v, taken-IsFreeList x xs v, ground arith, λ i h. ground arith)

-- what `page_db_free` leaves of `db` when it gives back the page `i`
abbrev pub given : PageDb → ℕ → PageDb
given db i = record db {
  pages = update db.pages i (record (db.pages i) { flags = pgf_free; next_free = db.free_list });
  free_list = i;
  num_free = u32 (db.num_free + 1);
}

pub given-IsFreeList :
    {db : PageDb} (i : ℕ) (xs : List ℕ)
    → IsFreeList db xs
    → db.num_reserved ≤ i
    → i < db.num_pages
    → has i xs ≡ false
    → IsFreeList (given db i) (i ∷ xs)
given-IsFreeList {db} i xs v lo hi out = record {
  chain = (
    refl,
    omega (arith, v.reserved),
    ground (
      arith,
      Chain-update db.pages (record (db.pages i) { flags = pgf_free; next_free = db.free_list }) i
          db.free_list xs out v.chain,
    ),
  );
  distinct = (out, v.distinct);
  count = omega (arith, length-lt v, v.count, v.small, longer);
  inside = λ j h. ground (arith, v.inside j);
  free = λ j h. ground (arith, v.free j);
  complete = λ j l u h. ground (arith, v.complete j l u);
  reserved = v.reserved;
  small = v.small;
}
  where
    longer : length (i ∷ xs) ≤ db.num_pages
    longer =
        length-le_of_Distinct db.num_pages (i ∷ xs) (out, v.distinct)
          (λ j m. ground (arith, v.inside j))

-- In a database with a well-formed free list, a page past the reserved ones at the front that is not
-- free can be given back: `page_db_free` does not panic, and the page becomes the first of the free
-- list.
pub free-IsFreeList :
    {db : PageDb} (i : ℕ) (xs : List ℕ)
    → IsFreeList db xs
    → db.num_reserved ≤ i
    → i < db.num_pages
    → (db.pages i).flags ≢ pgf_free
    → (db' : PageDb) × (page_db_free db i ≡ done db') × IsFreeList db' (i ∷ xs)
unfolding page_db_free
free-IsFreeList {db} i xs v lo hi used =
    (given db i, ground arith, given-IsFreeList i xs v lo hi (ground (arith, v.free i)))

-- A call of `page_db_free` panics if the index is one of the reserved pages at the front or past the
-- last page, or if the page is on the free list already.
pub free-panics :
    {db : PageDb} (i : ℕ) (xs : List ℕ)
    → IsFreeList db xs
    → (i < db.num_reserved) ⊎ (db.num_pages ≤ i) ⊎ (has i xs ≡ true)
    → page_db_free db i ≡ panic
unfolding page_db_free
free-panics {db} i xs v h = ground (arith, v.free i)

-- Giving back the page that `page_db_alloc` has just returned restores the database exactly.
pub free-alloc :
    {db : PageDb} (x : ℕ) (xs : List ℕ)
    → IsFreeList db (x ∷ xs)
    → (page_db_alloc db >>= λ r. page_db_free r.1 r.0) ≡ done db
unfolding page_db_free
free-alloc {db} x xs v = rw (alloc-taken x xs v) (rw checks (ap done restored))
  where
    checks : (page_db_free (taken db x) x) ≡ done (given (taken db x) x)
    checks = ground (arith, v.inside x)

    pages_eq : (given (taken db x) x).pages ≡ db.pages
    pages_eq = fun_ext (λ j. ground (arith, v.free x))

    num_free_eq : (given (taken db x) x).num_free ≡ db.num_free
    num_free_eq = omega (arith, length-lt v, v.count, v.small)

    restored : given (taken db x) x ≡ db
    restored = λ k. record db {
      pages = pages_eq k;
      free_list = sym (v.chain.0) k;
      num_free = num_free_eq k;
    }
