-- ===== src/VmBoot/Grow.antt =====
-- src/vm_boot.c: an entry that is not present is filled with a new table.
use Prim.Native.Nat.{bit_or}
use smor.Prelude.{
  ℕ, ◌+◌, ◌*◌, ◌/◌, ◌%◌, ◌^◌, ◌<◌, ◌≡◌, ◌≢◌, refl, subst, inl, inr, true, false, ◌==◌, update, some,
  List, [], ◌∷◌, length, done, u64, arith, bit_or_add, Bool-cases,
}
use smor.VmBoot.{
  BootTables, boot_pml4, boot_pages_top, pdir_addr, is_present, as_table, clear_table,
  boot_page_alloc, table_at,
}
use smor.VmBoot.Walk.{walk, IsTable, IsTree, AreIndices, clear_table-outside, clear_table-inside}

pub as_table_add : (page : ℕ) → page % 2 ^ 12 ≡ 0 → as_table page ≡ page + 3
as_table_add page h =
    let e : 2 ^ 2 * (page / 4) ≡ page = omega arith in
    subst (λ x. bit_or x 3 ≡ x + 3) e (bit_or_add 2 (page / 4) 3 (omega arith))

-- the entry at `a` has become a new, empty table
pub record Grown (m m' : BootTables) (a : ℕ) : Type 0 where
  pub page : m'.boot_page ≡ m.boot_page + 2 ^ 12
  pub lock : m'.lock ≡ m.lock
  pub filled : m'.mem a ≡ m.boot_page + 3
  pub kept : (b : ℕ) → b < m.boot_page → b ≢ a → m'.mem b ≡ m.mem b
  pub empty : (j : ℕ) → j < 512 → m'.mem (m.boot_page + 8 * j) ≡ 0

abbrev grown : BootTables → (a : ℕ) → BootTables
grown m a = record m {
  boot_page = u64 (m.boot_page + 2 ^ 12);
  mem = update (clear_table 512 m.boot_page m.mem) a (as_table m.boot_page);
}

grown-Grown :
    (m : BootTables) (a : ℕ)
    → m.boot_page < boot_pages_top
    → m.boot_page % 2 ^ 12 ≡ 0
    → a < m.boot_page
    → Grown m (grown m a) a
grown-Grown m a room al lo = record {
  page = omega arith;
  lock = refl;
  filled = ground (arith, as_table_add m.boot_page al);
  kept = λ b lo ne. ground (arith, clear_table-outside 512 m.boot_page m.mem b);
  empty = λ j hj. ground (arith, clear_table-inside 512 m.boot_page m.mem j);
}

pub table_at-Grown :
    (m : BootTables) (a : ℕ)
    → m.boot_page < boot_pages_top
    → m.boot_page % 2 ^ 12 ≡ 0
    → a < m.boot_page
    → is_present (m.mem a) ≡ false
    → (m' : BootTables) × (table_at a m ≡ done (m.boot_page + 3, m')) × Grown m m' a
unfolding table_at boot_page_alloc
table_at-Grown m a room al lo h =
    (grown m a, ground (arith, as_table_add m.boot_page al), grown-Grown m a room al lo)

pub table_at-present :
    (m : BootTables) (a : ℕ) → is_present (m.mem a) ≡ true → table_at a m ≡ done (m.mem a, m)
unfolding table_at
table_at-present m a h = ground arith

module _ {m m' : BootTables} {level : ℕ → ℕ} (t : IsTree m level) (n q i : ℕ) (lt : n < 3)
    (tq : IsTable m level n q) (hi : i < 512) (g : Grown m m' (q + 8 * i)) where
  abbrev pub grown_level : ℕ → ℕ
  grown_level = update level m.boot_page (n + 1)

  pub grown-IsTable : (k r : ℕ) → IsTable m level k r → IsTable m' grown_level k r
  grown-IsTable k r tr = ground (arith, t.next, g.page)

  pub new-IsTable : IsTable m' grown_level (n + 1) m.boot_page
  new-IsTable = ground (arith, t.next, g.page)

  grown-entry :
      (k r j : ℕ)
      → k < 3
      → IsTable m' grown_level k r
      → j < 512
      → is_present (m'.mem (r + 8 * j)) ≡ true
      → IsTable m' grown_level (k + 1) (pdir_addr (m'.mem (r + 8 * j)))
  grown-entry k r j small tr hj h = elim (Bool-cases (r == m.boot_page)) [
    | inl e ↦ absurd (ground (arith, g.empty j hj))
    | inr e ↦ elim (Bool-cases (r + 8 * j == q + 8 * i)) [
      | inl same ↦
          let now : m'.mem (r + 8 * j) ≡ m.boot_page + 3 = ground (arith, g.filled) in
          rw now (ground (arith, t.next, g.page))
      | inr ne ↦
          let now : m'.mem (r + 8 * j) ≡ m.mem (r + 8 * j) =
            ground (arith, g.kept (r + 8 * j), t.next, g.page) in
          rw now (
            grown-IsTable (k + 1) (pdir_addr (m.mem (r + 8 * j)))
              (t.entry k r j small (ground (arith, g.page, t.next)) hj (rw (← now) h)))
    ]
  ]

  pub grown-IsTree : IsTree m' grown_level
  grown-IsTree = record {
    root = grown-IsTable 1 boot_pml4 t.root;
    next = omega (arith, t.next, g.page);
    entry = grown-entry;
  }

  pub walk-Grown :
      is_present (m.mem (q + 8 * i)) ≡ false
      → (k r : ℕ) (is : List ℕ) → IsTable m level k r
      → k + length is ≡ 4
      → AreIndices is
      → walk m'.mem r is ≡ walk m.mem r is
  unfolding walk
  walk-Grown h k r [] tr len ix = refl
  walk-Grown h k r (j ∷ []) tr len ix =
      let now : m'.mem (r + 8 * j) ≡ m.mem (r + 8 * j) =
        ground (arith, g.kept (r + 8 * j), t.next) in
      rw (walk, now)
  walk-Grown h k r (j ∷ j' ∷ is) tr len ix = elim (Bool-cases (r + 8 * j == q + 8 * i)) [
    | inl same ↦
        let now : m'.mem (r + 8 * j) ≡ m.boot_page + 3 = ground (arith, g.filled) in
        let next : pdir_addr (m.boot_page + 3) ≡ m.boot_page = omega (arith, t.next) in
        let was : is_present (m.mem (r + 8 * j)) ≡ false = ground arith in
        let there : is_present (m.boot_page + 3) ≡ true = ground (arith, t.next) in
        rw (walk, now, there, next, g.empty j' (ix.1.0), was)
    | inr ne ↦
        let now : m'.mem (r + 8 * j) ≡ m.mem (r + 8 * j) =
          ground (arith, g.kept (r + 8 * j), t.next) in
        elim (Bool-cases (is_present (m.mem (r + 8 * j)))) [
          | inl p ↦
              rw (walk, now, p)
                (walk-Grown h (k + 1) _ (j' ∷ is) (t.entry k r j (omega arith) tr (ix.0) p)
                  (omega arith) (ix.1))
          | inr p ↦ rw (walk, now, p)
        ]
  ]

  -- what the present entries lead to stays
  pub walk-stays :
      is_present (m.mem (q + 8 * i)) ≡ false
      → (k r : ℕ) (is : List ℕ) {x : ℕ} → IsTable m level k r
      → k + length is ≡ 3
      → AreIndices is
      → walk m.mem r is ≡ some x
      → walk m'.mem r is ≡ some x
  unfolding walk
  walk-stays h k r [] c len ix e = e
  walk-stays h k r (j ∷ is) {x} c len ix e = elim (Bool-cases (is_present (m.mem (r + 8 * j)))) [
    | inl p ↦
        let now : m'.mem (r + 8 * j) ≡ m.mem (r + 8 * j) =
          ground (arith, g.kept (r + 8 * j), t.next) in
        rw (walk, now, p)
          (walk-stays h (k + 1) _ is (t.entry k r j (omega arith) c (ix.0) p) (omega arith) (ix.1)
            (rw (walk, p) at e))
    | inr p ↦ absurd (cc (rw (walk, p) at e))
  ]
