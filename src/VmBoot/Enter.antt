-- ===== src/VmBoot/Enter.antt =====
-- src/vm_boot.c: an entry of a table that is read, or filled with a new table if it is not present.
use smor.Prelude.{
  ℕ, ◌+◌, ◌*◌, ◌^◌, ◌≤◌, ◌<◌, ◌≡◌, ◌≢◌, refl, subst, ◌∙◌, inl, inr, true, false, some, List, length,
  done, arith, Bool-cases,
}
use smor.VmBoot.{
  BootTables, boot_pml4, boot_pages_top, pml_index, pdp_index, pdir_addr, is_present, table_at,
}
use smor.VmBoot.Walk.{
  walk, translate, IsTable, IsTree, AreIndices, tables_of, indices_of, tables_of-AreIndices,
  indices_of-AreIndices,
}
use smor.VmBoot.Grow.{
  table_at-Grown, table_at-present, grown_level, grown-IsTable, grown-IsTree, walk-Grown,
  walk-stays,
}
use smor.VmBoot.Leaf.{Ready}

-- the entry `i` of the table `q` is `e` and present; `walks` says that no address is translated
-- differently
pub record Entered (m : BootTables) (level : ℕ → ℕ) (q i : ℕ) (m' : BootTables) (level' : ℕ → ℕ)
    (e : ℕ) : Type 0 where
  pub result : table_at (q + 8 * i) m ≡ done (e, m')
  pub tree : IsTree m' level'
  pub stored : m'.mem (q + 8 * i) ≡ e
  pub there : is_present e ≡ true
  pub same : (k r : ℕ) → IsTable m level k r → IsTable m' level' k r
  pub keep : (b : ℕ) → b < m.boot_page → b ≢ q + 8 * i → m'.mem b ≡ m.mem b
  pub walks :
      (k r : ℕ) (is : List ℕ)
      → IsTable m level k r
      → k + length is ≡ 4
      → AreIndices is
      → walk m'.mem r is ≡ walk m.mem r is
  pub stays :
      (k r : ℕ) (is : List ℕ) {x : ℕ}
      → IsTable m level k r
      → k + length is ≡ 3
      → AreIndices is
      → walk m.mem r is ≡ some x
      → walk m'.mem r is ≡ some x
  pub room : m'.boot_page ≤ m.boot_page + 2 ^ 12
  pub lock : m'.lock ≡ m.lock

pub table_at-Entered :
    {m : BootTables} {level : ℕ → ℕ} (n q i : ℕ)
    → IsTree m level
    → n < 3
    → IsTable m level n q
    → i < 512
    → (is_present (m.mem (q + 8 * i)) ≡ false → m.boot_page < boot_pages_top)
    → (m' : BootTables) × (level' : ℕ → ℕ) × (e : ℕ) × Entered m level q i m' level' e
table_at-Entered {m} {level} n q i t lt tq hi room =
    elim (Bool-cases (is_present (m.mem (q + 8 * i)))) [
      | inl p ↦ (
        m,
        level,
        m.mem (q + 8 * i),
        record {
          result = table_at-present m (q + 8 * i) p;
          tree = t;
          stored = refl;
          there = p;
          same = λ k r c. c;
          keep = λ b lo ne. refl;
          walks = λ k r is c len ix. refl;
          stays = λ k r is c len ix e. e;
          room = omega arith;
          lock = refl;
        },
      )
      | inr p ↦
          (let lo : q + 8 * i < m.boot_page = omega (arith, t.next) in
            let (m', made, g) = table_at-Grown m (q + 8 * i) (room p) t.next lo p in
            (
              m',
              grown_level t n q i lt tq hi g,
              m.boot_page + 3,
              record {
                result = made;
                tree = grown-IsTree t n q i lt tq hi g;
                stored = g.filled;
                there = ground (arith, t.next);
                same = grown-IsTable t n q i lt tq hi g;
                keep = g.kept;
                walks = walk-Grown t n q i lt tq hi g p;
                stays = walk-stays t n q i lt tq hi g p;
                room = omega (arith, g.page);
                lock = g.lock;
              },
            ))
    ]

pub Entered-table :
    {m m' : BootTables} {level level' : ℕ → ℕ} (n q i e : ℕ)
    → n < 3
    → IsTable m level n q
    → i < 512
    → Entered m level q i m' level' e
    → IsTable m' level' (n + 1) (pdir_addr e)
Entered-table {m' = m'} {level' = level'} n q i e lt tq hi s =
    subst (λ x. IsTable m' level' (n + 1) (pdir_addr x)) (s.stored)
      (s.tree.entry n q i lt (s.same n q tq) hi (rw s.stored s.there))

pub Entered-Ready :
    {m m1 m2 : BootTables} {level level1 level2 : ℕ → ℕ} (vaddr e1 e2 : ℕ)
    → IsTree m level
    → Entered m level boot_pml4 (pml_index vaddr) m1 level1 e1
    → Entered m1 level1 (pdir_addr e1) (pdp_index vaddr) m2 level2 e2
    → Ready m vaddr m2 level2 (pdir_addr e2)
unfolding translate walk
Entered-Ready {m} {m1} {m2} {level} {level1} vaddr e1 e2 t s1 s2 = record {
  tree = s2.tree;
  table = Entered-table 2 (pdir_addr e1) (pdp_index vaddr) e2 (omega arith) below (omega arith) s2;
  path = rw (walk, first, s1.there, walk, s2.stored, s2.there, walk);
  same = λ w.
      s2.walks 1 boot_pml4 (indices_of w) (s1.tree.root) refl (indices_of-AreIndices w)
      ∙ s1.walks 1 boot_pml4 (indices_of w) (t.root) refl (indices_of-AreIndices w);
  extends = record {
    stays = λ w z e.
        s2.stays 1 boot_pml4 (tables_of w) s1.tree.root refl (tables_of-AreIndices w)
          (s1.stays 1 boot_pml4 (tables_of w) t.root refl (tables_of-AreIndices w) e);
    room = omega (arith, s1.room, s2.room);
    lock = s2.lock ∙ s1.lock;
  };
}
  where
    below : IsTable m1 level1 2 (pdir_addr e1)
    below = Entered-table 1 boot_pml4 (pml_index vaddr) e1 (omega arith) t.root (omega arith) s1

    first : m2.mem (boot_pml4 + 8 * pml_index vaddr) ≡ e1
    first =
        s2.keep (boot_pml4 + 8 * pml_index vaddr) (omega (arith, s1.tree.root, s1.tree.next))
          (λ e. absurd (ground (arith, s1.tree.root, below)))
        ∙ s1.stored
