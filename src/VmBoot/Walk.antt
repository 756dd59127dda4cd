-- ===== src/VmBoot/Walk.antt =====
-- src/vm_boot.c: the walk that the processor makes through the page tables, the tables told apart by
-- their levels, and a table's entry that is filled with a new table.
use smor.Prelude.{
  ℕ, zero, suc, ◌+◌, ◌*◌, ◌%◌, ◌^◌, ◌≤◌, ◌<◌, ◌≡◌, refl, Bool, true, false, ◌==◌, if◌then◌else◌,
  update, Option, none, some, List, [], ◌∷◌, arith, inl, inr, Bool-cases,
}
use smor.VmBoot.{
  BootTables, boot_pml4, pml_index, pdp_index, page_2m_index, pdir_addr, is_present, clear_table,
}

-- where the entry `i` of the table at `q` leads
abbrev pub child : (ℕ → ℕ) → (q i : ℕ) → Option ℕ
child mem q i = if is_present (mem (q + 8 * i)) then some (pdir_addr (mem (q + 8 * i))) else none

-- where the entries `is` of the tables from the one at `q` on lead
unfoldable pub walk : (ℕ → ℕ) → ℕ → List ℕ → Option ℕ
walk mem q [] = some q
walk mem q (i ∷ is) = elim (child mem q i) [ none ↦ none | some r ↦ walk mem r is ]

-- the indices that the walk for `vaddr` takes to the last-level table, and to the page
abbrev pub tables_of : ℕ → List ℕ
tables_of vaddr = pml_index vaddr ∷ pdp_index vaddr ∷ []

abbrev pub indices_of : ℕ → List ℕ
indices_of vaddr = pml_index vaddr ∷ pdp_index vaddr ∷ page_2m_index vaddr ∷ []

pub walk-first :
    (mem : ℕ → ℕ) (r i : ℕ) (is : List ℕ) {q : ℕ}
    → walk mem r (i ∷ is) ≡ some q
    → is_present (mem (r + 8 * i)) ≡ true
unfolding walk
walk-first mem r i is e = elim (Bool-cases (is_present (mem (r + 8 * i)))) [
  | inl p ↦ p
  | inr p ↦ absurd (cc (rw (walk, p) at e))
]

pub walk-second :
    (mem : ℕ → ℕ) (r i j : ℕ) {q : ℕ}
    → walk mem r (i ∷ j ∷ []) ≡ some q
    → is_present (mem (pdir_addr (mem (r + 8 * i)) + 8 * j)) ≡ true
unfolding walk
walk-second mem r i j e =
    walk-first mem (pdir_addr (mem (r + 8 * i))) j []
      (rw (walk, walk-first mem r i (j ∷ []) e) at e)

-- the address of the entry `j` of the table that `is` lead to
abbrev pub entry_at : ℕ → Option ℕ → Option ℕ
entry_at j none = none
entry_at j (some q) = some (q + 8 * j)

-- the address of the last-level entry that serves `vaddr`
unfoldable pub entry_of : (ℕ → ℕ) → (vaddr : ℕ) → Option ℕ
entry_of mem vaddr = entry_at (page_2m_index vaddr) (walk mem boot_pml4 (tables_of vaddr))

abbrev pub is_at : ℕ → Option ℕ → Bool
is_at a none = false
is_at a (some b) = b == a

-- the address that the 2M page of `vaddr` is mapped to
unfoldable pub translate : (ℕ → ℕ) → (vaddr : ℕ) → Option ℕ
translate mem vaddr = walk mem boot_pml4 (indices_of vaddr)

-- `q` is a table of the level `n` by `level`
abbrev pub IsTable : BootTables → (level : ℕ → ℕ) → (n q : ℕ) → Type 0
IsTable m level n q = (level q ≡ n) × (q % 2 ^ 12 ≡ 0) × (q < m.boot_page)

-- The tables are pages below `boot_page`, each of one of the levels 1 to 3, and an entry of a table
-- of the level 1 or 2 is not present or leads to a table of the next. Two entries may lead to one table.
pub record IsTree (m : BootTables) (level : ℕ → ℕ) : Type 0 where
  pub root : IsTable m level 1 boot_pml4
  pub next : m.boot_page % 2 ^ 12 ≡ 0
  pub entry :
      (n q i : ℕ)
      → n < 3
      → IsTable m level n q
      → i < 512
      → is_present (m.mem (q + 8 * i)) ≡ true
      → IsTable m level (n + 1) (pdir_addr (m.mem (q + 8 * i)))

-- the indices of a walk
abbrev pub AreIndices : List ℕ → Type 0
AreIndices [] = Unit
AreIndices (i ∷ is) = (i < 512) × AreIndices is

pub tables_of-AreIndices : (w : ℕ) → AreIndices (tables_of w)
tables_of-AreIndices w = (omega arith, (omega arith, tt))

pub indices_of-AreIndices : (w : ℕ) → AreIndices (indices_of w)
indices_of-AreIndices w = (omega arith, (omega arith, (omega arith, tt)))

-- the last-level tables that are there stay
abbrev pub Stays : BootTables → BootTables → Type 0
Stays m m' =
    (w q : ℕ)
    → walk m.mem boot_pml4 (tables_of w) ≡ some q
    → walk m'.mem boot_pml4 (tables_of w) ≡ some q

-- and there is less room by two tables at most
pub record Extends (m m' : BootTables) : Type 0 where
  pub stays : Stays m m'
  pub room : m'.boot_page ≤ m.boot_page + 2 * 2 ^ 12
  pub lock : m'.lock ≡ m.lock

pub clear_table-outside : (n p : ℕ) (mem : ℕ → ℕ) (a : ℕ) → a < p → clear_table n p mem a ≡ mem a
unfolding clear_table
clear_table-outside zero p mem a h = refl
clear_table-outside (suc n) p mem a h =
    ground (arith, clear_table-outside n (p + 8) (update mem p 0) a)

pub clear_table-inside :
    (n p : ℕ) (mem : ℕ → ℕ) (j : ℕ) → j < n → clear_table n p mem (p + 8 * j) ≡ 0
unfolding clear_table
clear_table-inside zero p mem j h = absurd (omega arith)
clear_table-inside (suc n) p mem zero h =
    ground (arith, clear_table-outside n (p + 8) (update mem p 0) p)
clear_table-inside (suc n) p mem (suc j) h =
    ground (arith, clear_table-inside n (p + 8) (update mem p 0) j)
