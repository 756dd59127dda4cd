-- ===== src/PageDb/Trace.antt =====
-- src/vm_page.c: any run of clients that allocate pages and give back pages they hold.
use smor.Prelude.{
  ℕ, ◌+◌, ◌≤◌, ◌<◌, ◌≡◌, ◌≢◌, sym, ap, subst, ◌∙◌, true, List, [], ◌∷◌, done, done-eq, arith,
  length, has, Distinct, erase, has-erase, erase-Distinct, length-erase_of_has,
}
use smor.PageDb.{PageDb, pgf_used, page_db_alloc, page_db_free}
use smor.PageDb.FreeList.{
  IsFreeList, alloc-Allocates, taken, alloc-taken, taken-IsFreeList, given, given-IsFreeList,
}

-- a call of a client that holds the pages `held`; an allocation that returns 0 gives it nothing
pub data Step (db : PageDb) (held : List ℕ) : PageDb → List ℕ → Type 0 where
  alloc :
      {i : ℕ} {db' : PageDb}
      → page_db_alloc db ≡ done (i, db')
      → i ≢ 0
      → Step db held db' (i ∷ held)
  refused : {db' : PageDb} → page_db_alloc db ≡ done (0, db') → Step db held db' held
  give :
      {db' : PageDb} (i : ℕ)
      → has i held ≡ true
      → page_db_free db i ≡ done db'
      → Step db held db' (erase i held)

-- the databases that calls lead to from `init`, with the pages then held
pub data Reach (init : PageDb) : PageDb → List ℕ → Type 0 where
  start : Reach init init []
  later :
      {db db' : PageDb} {held held' : List ℕ}
      → Reach init db held
      → Step db held db' held'
      → Reach init db' held'

-- Every page that is not reserved is on the free list `xs` or held by one client, and not both.
pub record Conserved (db : PageDb) (held xs : List ℕ) : Type 0 where
  pub list : IsFreeList db xs
  pub distinct : Distinct held
  pub used : (i : ℕ) → has i held ≡ true → (db.pages i).flags ≡ pgf_used
  pub inside : (i : ℕ) → has i held ≡ true → (db.num_reserved ≤ i) × (i < db.num_pages)
  pub total : db.num_free + length held + db.num_reserved ≡ db.num_pages

alloc-Conserved :
    {db : PageDb} {held : List ℕ} (x : ℕ) (xs : List ℕ)
    → Conserved db held (x ∷ xs)
    → Conserved (taken db x) (x ∷ held) xs
alloc-Conserved {db} {held} x xs c = record {
  list = taken-IsFreeList x xs c.list;
  distinct = (ground (arith, c.used x, c.list.free x), c.distinct);
  used = λ i h. ground (arith, c.used i);
  inside = λ i h. ground (arith, c.inside i, c.list.inside i);
  total = omega (arith, c.total, c.list.count, (taken-IsFreeList x xs c.list).count);
}

give-Conserved :
    {db : PageDb} {held : List ℕ} (i : ℕ) (xs : List ℕ)
    → Conserved db held xs
    → has i held ≡ true
    → (page_db_free db i ≡ done (given db i)) × Conserved (given db i) (erase i held) (i ∷ xs)
unfolding page_db_free
give-Conserved {db} {held} i xs c m = (
  ground (arith, c.used i, c.inside i),
  record {
    list = freed;
    distinct = erase-Distinct i held c.distinct;
    used = λ j h. ground (arith, has-erase j i held c.distinct h, c.used j);
    inside = λ j h. ground (arith, has-erase j i held c.distinct h, c.inside j);
    total = omega (arith, c.total, c.list.count, freed.count, length-erase_of_has i held m);
  },
)
  where
    freed : IsFreeList (given db i) (i ∷ xs)
    freed =
        given-IsFreeList i xs c.list (ground (arith, c.inside i)) (ground (arith, c.inside i))
          (ground (arith, c.used i, c.list.free i))

Step-Conserved :
    {db db' : PageDb} {held held' : List ℕ} (xs : List ℕ)
    → Conserved db held xs
    → Step db held db' held'
    → (ys : List ℕ) × Conserved db' held' ys
Step-Conserved [] c (alloc e ne) =
    absurd (ne (ap (λ r. r.0) (done-eq (sym e ∙ alloc-Allocates [] c.list))))
Step-Conserved {held} [] c (refused e) =
    ([], subst (λ r. Conserved r.1 held []) (done-eq (sym (alloc-Allocates [] c.list) ∙ e)) c)
Step-Conserved {held} (x ∷ xs) c (alloc e ne) = (
  xs,
  subst (λ r. Conserved r.1 (r.0 ∷ held) xs) (done-eq (sym (alloc-taken x xs c.list) ∙ e))
      (alloc-Conserved x xs c),
)
Step-Conserved (x ∷ xs) c (refused e) =
    absurd (c.list.chain.1 (ap (λ r. r.0) (done-eq (sym (alloc-taken x xs c.list) ∙ e))))
Step-Conserved {held} xs c (give i m e) =
    let (freed, c') = give-Conserved i xs c m in
    (i ∷ xs, subst (λ d. Conserved d (erase i held) (i ∷ xs)) (done-eq (sym freed ∙ e)) c')

-- Start from a database whose free list has every page that is not reserved, and let clients
-- allocate pages, find that none is left, and give back pages they hold, in any order. Then the
-- pages held are distinct, marked used and not reserved, the free pages form the free list, and
-- the free pages, the pages held and the reserved ones add up to all pages.
pub Reach-Conserved :
    {init db : PageDb} {held : List ℕ} (xs : List ℕ)
    → IsFreeList init xs
    → init.num_free + init.num_reserved ≡ init.num_pages
    → Reach init db held
    → (ys : List ℕ) × Conserved db held ys
Reach-Conserved {init} xs v all start = (
  xs,
  record {
    list = v;
    distinct = tt;
    used = λ i h. absurd (ground arith);
    inside = λ i h. absurd (ground arith);
    total = omega arith;
  },
)
Reach-Conserved xs v all (later r s) =
    let (ys, c) = Reach-Conserved xs v all r in Step-Conserved ys c s
