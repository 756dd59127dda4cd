-- ===== src/VmBoot/Range.antt =====
-- src/vm_boot.c, the loop of vm_boot_map_range: what a range of addresses is translated to after it
-- is mapped.
use smor.Prelude.{
  ℕ, zero, suc, ◌+◌, ◌*◌, ◌%◌, ◌^◌, ◌≤◌, ◌<◌, ◌≡◌, ◌≢◌, refl, sym, ap, ◌∙◌, inl, inr, true,
  if◌then◌else◌, Option, none, some, done, arith, u64, Bool-cases,
}
use smor.VmBoot.{
  BootTables, boot_pml4, pml_index, pdp_index, page_2m_index, vm_boot_map_page, map_pages,
}
use smor.VmBoot.Walk.{walk, translate, entry_of, entry_at, is_at, IsTree, tables_of, Stays}
use smor.VmBoot.Leaf.{Supplied}
use smor.VmBoot.Map.{map_page-Retargets}

entry_at-stays :
    (j : ℕ) (o o' : Option ℕ) {a : ℕ}
    → ((q : ℕ) → o ≡ some q → o' ≡ some q)
    → entry_at j o ≡ some a
    → entry_at j o' ≡ some a
entry_at-stays j none o' h e = absurd (cc)
entry_at-stays j (some q) o' h e = rw (h q refl) e

entry_of_kept :
    (m m' : BootTables) (w : ℕ) {a : ℕ}
    → Stays m m'
    → entry_of m.mem w ≡ some a
    → entry_of m'.mem w ≡ some a
unfolding entry_of
entry_of_kept m m' w x e =
    entry_at-stays (page_2m_index w) (walk m.mem _ (tables_of w)) (walk m'.mem _ (tables_of w))
      (x w) e

is_at-eq : (a : ℕ) (o : Option ℕ) → is_at a o ≡ true → o ≡ some a
is_at-eq a none h = absurd (cc)
is_at-eq a (some b) h = ground arith

entry_at-apart :
    (i j : ℕ) (o : Option ℕ) {a : ℕ} → i ≢ j → entry_at i o ≡ some a → entry_at j o ≢ some a
entry_at-apart i j none ne e = absurd (cc)
entry_at-apart i j (some q) ne e = λ e'. ground arith

-- two pages of one last-level table do not share an entry
entry_of-apart :
    (mem : ℕ → ℕ) (v w : ℕ) {a : ℕ}
    → pml_index v ≡ pml_index w
    → pdp_index v ≡ pdp_index w
    → page_2m_index v ≢ page_2m_index w
    → entry_of mem v ≡ some a
    → entry_of mem w ≢ some a
unfolding entry_of
entry_of-apart mem v w e4 e3 ne e =
    entry_at-apart (page_2m_index v) (page_2m_index w) (walk mem boot_pml4 (tables_of w)) ne
      (rw (e4, e3) at e)

walk-of-entry_at : (j : ℕ) (o : Option ℕ) {a : ℕ} → entry_at j o ≡ some a → (q : ℕ) × (o ≡ some q)
walk-of-entry_at j none e = absurd (cc)
walk-of-entry_at j (some q) e = (q, refl)

-- the range lies in one gigabyte, so one last-level table serves it
abbrev pub InGigabyte : (vaddr n : ℕ) → Type 0
InGigabyte vaddr n = vaddr % 2 ^ 30 + n * 2 ^ 21 ≤ 2 ^ 30

-- a page of the range is mapped, and an address that shares no entry with the range is left alone
pub record Covers (m m' : BootTables) (vaddr paddr n : ℕ) : Type 0 where
  pub lock : m'.lock ≡ m.lock
  pub stays : Stays m m'
  pub inside : (k : ℕ) → k < n → translate m'.mem (vaddr + k * 2 ^ 21) ≡ some (paddr + k * 2 ^ 21)
  pub outside :
      (w : ℕ)
      → ((k : ℕ) → k < n → entry_of m'.mem w ≢ entry_of m'.mem (vaddr + k * 2 ^ 21))
      → translate m'.mem w ≡ translate m.mem w

Covers-zero : (m : BootTables) (vaddr paddr : ℕ) → Covers m m vaddr paddr 0
Covers-zero m vaddr paddr = record {
  lock = refl;
  stays = λ w q e. e;
  inside = λ k h. absurd (omega arith);
  outside = λ w h. refl;
}

next_page : (b k : ℕ) → b + 2 ^ 21 + k * 2 ^ 21 ≡ b + suc k * 2 ^ 21
next_page b k = omega arith

first_page : (b : ℕ) → b + 0 * 2 ^ 21 ≡ b
first_page b = omega arith

module _ (m m1 m2 : BootTables) (vaddr paddr n : ℕ) (giga : InGigabyte vaddr (suc n))
    (same : m1.lock ≡ m.lock) (x : Stays m m1)
    (c : Covers m1 m2 (vaddr + 2 ^ 21) (paddr + 2 ^ 21) n) (a : ℕ)
    (here : entry_of m1.mem vaddr ≡ some a)
    (r : (w : ℕ)
      → translate m1.mem w
        ≡ (if is_at a (entry_of m1.mem w) then some paddr else translate m.mem w)) where
  abbrev entry : ℕ → Option ℕ
  entry w = entry_of m2.mem w

  first : translate m2.mem vaddr ≡ some paddr
  first = rw (c.outside vaddr apart, r vaddr, here) (ground arith)
    where
      kept : entry vaddr ≡ some a
      kept = entry_of_kept m1 m2 vaddr c.stays here

      apart : (k : ℕ) → k < n → entry vaddr ≢ entry (vaddr + 2 ^ 21 + k * 2 ^ 21)
      apart k lt e =
          entry_of-apart m2.mem vaddr (vaddr + 2 ^ 21 + k * 2 ^ 21) (omega arith) (omega arith)
            (omega arith) kept (sym e ∙ kept)

  inside : (k : ℕ) → k < suc n → translate m2.mem (vaddr + k * 2 ^ 21) ≡ some (paddr + k * 2 ^ 21)
  inside zero lt = rw (first_page vaddr, first_page paddr) first
  inside (suc k) lt = rw (← next_page vaddr k, ← next_page paddr k) (c.inside k (omega arith))

  outside :
      (w : ℕ)
      → ((k : ℕ) → k < suc n → entry w ≢ entry (vaddr + k * 2 ^ 21))
      → translate m2.mem w ≡ translate m.mem w
  outside w h =
      rw (c.outside w (λ k lt e. h (suc k) (omega arith) (e ∙ ap entry (next_page vaddr k))), r w)
        (elim (Bool-cases (is_at a (entry_of m1.mem w))) [
          | inl same ↦ absurd (
              h 0 (omega arith) (
                entry_of_kept m1 m2 w c.stays (is_at-eq a (entry_of m1.mem w) same)
                ∙ sym (entry_of_kept m1 m2 vaddr c.stays here)
                ∙ ap entry (sym (first_page vaddr))))
          | inr other ↦ rw other
        ])

  Covers-suc : Covers m m2 vaddr paddr (suc n)
  Covers-suc = record {
    lock = c.lock ∙ same;
    stays = λ w q e. c.stays w q (x w q e);
    inside = inside;
    outside = outside;
  }

run :
    (m m1 m2 : BootTables) (n vaddr paddr : ℕ)
    → vaddr + 2 ^ 21 < 2 ^ 64
    → paddr + 2 ^ 21 < 2 ^ 64
    → vm_boot_map_page vaddr paddr m ≡ done m1
    → map_pages n (vaddr + 2 ^ 21) (paddr + 2 ^ 21) m1 ≡ done m2
    → map_pages (suc n) vaddr paddr m ≡ done m2
unfolding map_pages
run m m1 m2 n vaddr paddr hv hp run1 run2 =
    let v : u64 (vaddr + 2 ^ 21) ≡ vaddr + 2 ^ 21 = omega arith in
    let p : u64 (paddr + 2 ^ 21) ≡ paddr + 2 ^ 21 = omega arith in rw (run1, v, p) run2

-- the tables that serve a page serve the next one of its gigabyte
Supplied-next :
    (m : BootTables) (vaddr n : ℕ) {a : ℕ}
    → InGigabyte vaddr (suc n)
    → entry_of m.mem vaddr ≡ some a
    → 0 < n
    → Supplied m (vaddr + 2 ^ 21)
unfolding entry_of
Supplied-next m vaddr n giga here more =
    let (q, e) =
      walk-of-entry_at (page_2m_index vaddr) (walk m.mem boot_pml4 (tables_of vaddr)) here in
    let e4 : pml_index (vaddr + 2 ^ 21) ≡ pml_index vaddr = omega arith in
    let e3 : pdp_index (vaddr + 2 ^ 21) ≡ pdp_index vaddr = omega arith in inr (q, rw (e4, e3) e)

-- If the tables of a range inside one gigabyte are there, or have room, mapping its `n` pages one by
-- one does not panic and leaves a tree. Each page of the range then is translated to its physical
-- page, and an address that shares no entry with the range is translated as before.
pub map_pages-Covers :
    (n : ℕ) {m : BootTables} {level : ℕ → ℕ} (vaddr paddr : ℕ)
    → IsTree m level
    → (0 < n → Supplied m vaddr)
    → paddr % 2 ^ 21 ≡ 0
    → InGigabyte vaddr n
    → vaddr + n * 2 ^ 21 < 2 ^ 64
    → paddr + n * 2 ^ 21 < 2 ^ 64
    → (m' : BootTables) × (level' : ℕ → ℕ) × (map_pages n vaddr paddr m ≡ done m')
      × IsTree m' level'
      × Covers m m' vaddr paddr n
unfolding map_pages
map_pages-Covers zero {m} {level} vaddr paddr t room al giga hv hp =
    (m, level, refl, t, Covers-zero m vaddr paddr)
map_pages-Covers (suc n) {m} vaddr paddr t room al giga hv hp =
    let (m1, level1, run1, t1, x, (a, here, r)) =
      map_page-Retargets vaddr paddr t (room (omega arith)) al in
    let (m2, level2, run2, t2, c) =
      map_pages-Covers n (vaddr + 2 ^ 21) (paddr + 2 ^ 21) t1 (Supplied-next m1 vaddr n giga here)
        (omega arith) (omega arith) (omega arith) (omega arith) in
    (
      m2,
      level2,
      run m m1 m2 n vaddr paddr (omega arith) (omega arith) run1 run2,
      t2,
      Covers-suc m m1 m2 vaddr paddr n giga x.lock x.stays c a here r,
    )
