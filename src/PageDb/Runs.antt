-- ===== src/PageDb/Runs.antt =====
-- src/vm_page.c, page_db_dump_free_list: the free list printed as runs of neighbouring pages.
use smor.Prelude.{
  ℕ, zero, suc, ◌+◌, ◌-◌, ◌<◌, ◌≤◌, ◌≡◌, refl, ◌&&◌, List, [], ◌∷◌, ◌++◌, Option, none, some, arith,
  not, ap, ◌∙◌, sym, ltb, ◌==◌, if◌then◌else◌, length, range_from, Bool-cases, inl, inr,
}
use smor.PageDb.{PageDb, PageDesc}
use smor.PageDb.FreeList.{Chain, IsFreeList}

-- the inner loop: the last index of the run that `index` is in
run_end : ℕ → (ℕ → PageDesc) → ℕ → Option ℕ
run_end zero pages index = none
run_end (suc fuel) pages index =
    let rest = run_end fuel pages (index + 1) in
    let next = (pages index).next_free in
    if not (next == 0) && (next == index + 1) then rest else some index

-- the outer loop: each printed run as its first index and its number of pages
runs_from : ℕ → (ℕ → PageDesc) → ℕ → Option (List (ℕ × ℕ))
unfolding run_end
runs_from zero pages index = none
runs_from (suc fuel) pages index =
    let rest : Option (List (ℕ × ℕ)) = elim (run_end fuel pages index) [
      | none ↦ none
      | some last ↦ elim (runs_from fuel pages ((pages last).next_free)) [
        | none ↦ none
        | some rs ↦ some ((index, last + 1 - index) ∷ rs)
      ]
    ] in
    if ltb 0 index then rest else some []

pub page_db_dump_free_list : ℕ → PageDb → Option (List (ℕ × ℕ))
unfolding runs_from
page_db_dump_free_list fuel db = runs_from fuel db.pages db.free_list

-- the pages that a list of runs names
pub expand : List (ℕ × ℕ) → List ℕ
expand [] = []
expand ((s, n) ∷ rs) = range_from s n ++ expand rs

-- what the inner loop finds at the page `x`, which the rest `xs` of the chain follows
record IsStretch (fuel : ℕ) (pages : ℕ → PageDesc) (x : ℕ) (xs : List ℕ) : Type 0 where
  last : ℕ
  more : ℕ
  rest : List ℕ
  stops : run_end fuel pages x ≡ some last
  size : last ≡ x + more
  splits : x ∷ xs ≡ range_from x (suc more) ++ rest
  follows : Chain pages ((pages last).next_free) rest
  shorter : length rest ≤ length xs

run_end-IsStretch :
    (fuel : ℕ) (pages : ℕ → PageDesc) (x : ℕ) (xs : List ℕ)
    → length xs < fuel
    → Chain pages ((pages x).next_free) xs
    → IsStretch fuel pages x xs
unfolding run_end
run_end-IsStretch zero pages x xs h c = absurd (omega arith)
run_end-IsStretch (suc fuel) pages x [] h c = record {
  last = x;
  more = 0;
  rest = [];
  stops = ground arith;
  size = omega arith;
  splits = refl;
  follows = c;
  shorter = omega arith;
}
run_end-IsStretch (suc fuel) pages x (y ∷ ys) h c = elim (Bool-cases (y == x + 1)) [
  | inl joined ↦
      let eq : y ≡ x + 1 = ground arith in
      let c' : Chain pages ((pages (x + 1)).next_free) ys = rw eq at c.2 in
      let r = run_end-IsStretch fuel pages (x + 1) ys (omega arith) c' in
      record {
        last = r.last;
        more = suc r.more;
        rest = r.rest;
        stops = ground (arith, c.0, r.stops);
        size = omega (arith, r.size);
        splits = ap (λ k. x ∷ k ∷ ys) eq ∙ ap (λ l. x ∷ l) r.splits;
        follows = r.follows;
        shorter = omega (arith, r.shorter);
      }
  | inr apart ↦ record {
    last = x;
    more = 0;
    rest = y ∷ ys;
    stops = ground (arith, c.0);
    size = omega arith;
    splits = refl;
    follows = c;
    shorter = omega arith;
  }
]

runs_from-expand :
    (fuel : ℕ) (pages : ℕ → PageDesc) (head : ℕ) (xs : List ℕ)
    → length xs < fuel
    → Chain pages head xs
    → (rs : List (ℕ × ℕ)) × (runs_from fuel pages head ≡ some rs) × (expand rs ≡ xs)
unfolding runs_from expand
runs_from-expand zero pages head xs h c = absurd (omega arith)
runs_from-expand (suc fuel) pages head [] h c = ([], ground arith, refl)
runs_from-expand (suc fuel) pages head (x ∷ xs) h c =
    let r = run_end-IsStretch fuel pages x xs (omega arith) (c.2) in
    let tail =
      runs_from-expand fuel pages ((pages r.last).next_free) r.rest (omega (arith, r.shorter))
        r.follows in
    (
      (x, suc r.more) ∷ tail.0,
      ground (arith, c.0, c.1, r.stops, r.size, tail.1),
      rw (tail.2) (sym r.splits),
    )

-- On a database with the free list `xs`, `page_db_dump_free_list` ends, within one round of fuel more
-- than `xs` has pages, and the runs that it prints name exactly the pages of `xs`, in order.
pub dump_free_list-expand :
    {db : PageDb} (fuel : ℕ) (xs : List ℕ)
    → IsFreeList db xs
    → length xs < fuel
    → (rs : List (ℕ × ℕ)) × (page_db_dump_free_list fuel db ≡ some rs) × (expand rs ≡ xs)
unfolding page_db_dump_free_list
dump_free_list-expand {db} fuel xs v h = runs_from-expand fuel db.pages db.free_list xs h v.chain
