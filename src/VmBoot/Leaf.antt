-- ===== src/VmBoot/Leaf.antt =====
-- src/vm_boot.c: what is translated otherwise after an entry of a last-level table is written.
use Prim.Native.Nat.{bit_or}
use smor.Prelude.{
  ℕ, ◌+◌, ◌*◌, ◌/◌, ◌%◌, ◌^◌, ◌≤◌, ◌<◌, ◌≡◌, ◌≢◌, refl, subst, ◌∙◌, inl, inr, ◌&&◌, ◌==◌,
  if◌then◌else◌, Option, none, some, List, [], ◌∷◌, ◌++◌, length, arith, bit_or_add, Bool-cases,
  ◌⊎◌,
}
use smor.VmBoot.{
  BootTables, boot_pml4, boot_pages_top, page_2m_index, pdir_addr, is_present, as_page, set_word,
}
use smor.VmBoot.Walk.{
  walk, translate, entry_of, entry_at, is_at, IsTable, IsTree, AreIndices, tables_of,
  tables_of-AreIndices, Extends,
}

as_page_add : (paddr : ℕ) → paddr % 2 ^ 21 ≡ 0 → as_page paddr ≡ paddr + 0x83
as_page_add paddr h =
    let e : 2 ^ 8 * (paddr / 2 ^ 8) ≡ paddr = omega arith in
    subst (λ x. bit_or x 0x83 ≡ x + 0x83) e (bit_or_add 8 (paddr / 2 ^ 8) 0x83 (omega arith))

option_eta : (x : Option ℕ) → elim x [ none ↦ none | some r ↦ some r ] ≡ x
option_eta none = refl
option_eta (some r) = refl

-- the entry `i` of the last-level table `q` has become `v`, and nothing else has changed
pub record Written (m m' : BootTables) (q i v : ℕ) : Type 0 where
  pub page : m'.boot_page ≡ m.boot_page
  pub lock : m'.lock ≡ m.lock
  pub here : m'.mem (q + 8 * i) ≡ v
  pub others : (b : ℕ) → b ≢ q + 8 * i → m'.mem b ≡ m.mem b

-- where a last-level entry leads
abbrev pub leads : ℕ → Option ℕ
leads v = if is_present v then some (pdir_addr v) else none

module _ {m m' : BootTables} {level : ℕ → ℕ} (t : IsTree m level) (q i v : ℕ)
    (tq : IsTable m level 3 q) (hi : i < 512) (w : Written m m' q i v) where
  written-kept :
      (k r j : ℕ) → k < 3 → IsTable m level k r → j < 512 → m'.mem (r + 8 * j) ≡ m.mem (r + 8 * j)
  written-kept k r j small c hj = w.others (r + 8 * j) (λ e. absurd (ground arith))

  pub written-IsTree : IsTree m' level
  written-IsTree = record {
    root = ground (arith, t.root, w.page);
    next = omega (arith, t.next, w.page);
    entry = λ k r j small c hj p.
        let c' : IsTable m level k r = ground (arith, w.page) in
        let now = written-kept k r j small c' hj in
        let old = t.entry k r j small c' hj (rw (← now) p) in rw now (ground (arith, w.page));
  }

  pub tables-Written :
      (k r : ℕ) (is : List ℕ)
      → IsTable m level k r
      → k + length is ≡ 3
      → AreIndices is
      → walk m'.mem r is ≡ walk m.mem r is
  unfolding walk
  tables-Written k r [] c len ix = refl
  tables-Written k r (x ∷ is) c len ix =
      let now = written-kept k r x (omega arith) c (ix.0) in
      elim (Bool-cases (is_present (m.mem (r + 8 * x)))) [
        | inl p ↦
            rw (walk, now, p)
              (tables-Written (k + 1) _ is (t.entry k r x (omega arith) c (ix.0) p) (omega arith)
                (ix.1))
        | inr p ↦ rw (walk, now, p)
      ]

  pub walk-Written :
      (k r j : ℕ) (is : List ℕ)
      → IsTable m level k r
      → k + length is ≡ 3
      → AreIndices is
      → j < 512
      → walk m'.mem r (is ++ (j ∷ [])) ≡ (
          if is_at (q + 8 * i) (entry_at j (walk m'.mem r is))
          then leads v
          else walk m.mem r (is ++ (j ∷ [])))
  unfolding walk
  walk-Written k r j [] c len ix hj = elim (Bool-cases (r + 8 * j == q + 8 * i)) [
    | inl same ↦
        let now : m'.mem (r + 8 * j) ≡ v = ground (arith, w.here) in
        rw (same, walk, now, walk) (option_eta (leads v))
    | inr ne ↦
        let now : m'.mem (r + 8 * j) ≡ m.mem (r + 8 * j) = ground (arith, w.others (r + 8 * j)) in
        rw (ne, walk, now, walk)
  ]
  walk-Written k r j (x ∷ is) c len ix hj =
      let now = written-kept k r x (omega arith) c (ix.0) in
      elim (Bool-cases (is_present (m.mem (r + 8 * x)))) [
        | inl p ↦
            rw (walk, now, p)
              (walk-Written (k + 1) _ j is (t.entry k r x (omega arith) c (ix.0) p) (omega arith)
                (ix.1) hj)
        | inr p ↦ rw (walk, now, p)
      ]

-- two tables may have to be made
abbrev pub HasRoom : BootTables → Type 0
HasRoom m = m.boot_page + 2 * 2 ^ 12 ≤ boot_pages_top

-- there is room, or the tables of `vaddr` are there already
abbrev pub Supplied : BootTables → (vaddr : ℕ) → Type 0
Supplied m vaddr = HasRoom m ⊎ ((q : ℕ) × (walk m.mem boot_pml4 (tables_of vaddr) ≡ some q))

-- `a` is the entry of `vaddr` in `m'`, and only the addresses that use it are translated otherwise
-- than in `m`: to `v`
abbrev pub Retargets : (m m' : BootTables) (vaddr : ℕ) (v : Option ℕ) → Type 0
Retargets m m' vaddr v =
    (a : ℕ) × (entry_of m'.mem vaddr ≡ some a)
    × ((w : ℕ)
        → translate m'.mem w ≡ (if is_at a (entry_of m'.mem w) then v else translate m.mem w))

-- the last-level table of `vaddr` is `q`, and all is translated as in `m`
pub record Ready (m : BootTables) (vaddr : ℕ) (m' : BootTables) (level' : ℕ → ℕ) (q : ℕ)
    : Type 0 where
  pub tree : IsTree m' level'
  pub table : IsTable m' level' 3 q
  pub path : walk m'.mem boot_pml4 (tables_of vaddr) ≡ some q
  pub same : (w : ℕ) → translate m'.mem w ≡ translate m.mem w
  pub extends : Extends m m'

pub Ready-Retargets :
    {m m2 m' : BootTables} {level : ℕ → ℕ} (vaddr q v : ℕ)
    → Ready m vaddr m2 level q
    → Written m2 m' q (page_2m_index vaddr) v
    → Retargets m m' vaddr (leads v)
unfolding translate entry_of
Ready-Retargets {m} {m2} {m'} vaddr q v r w = (
  q + 8 * page_2m_index vaddr,
  rw (path, r.path),
  λ x. rw (← r.same x) (
      walk-Written r.tree q (page_2m_index vaddr) v r.table (omega arith) w 1 boot_pml4
        (page_2m_index x) (tables_of x) r.tree.root refl (tables_of-AreIndices _) (omega arith)),
)
  where
    path : walk m'.mem boot_pml4 (tables_of vaddr) ≡ walk m2.mem boot_pml4 (tables_of vaddr)
    path =
        tables-Written r.tree q (page_2m_index vaddr) v r.table (omega arith) w 1 boot_pml4
          (tables_of vaddr) r.tree.root refl (tables_of-AreIndices _)

pub Ready-Extends :
    {m m2 m' : BootTables} {level : ℕ → ℕ} (vaddr q v : ℕ)
    → Ready m vaddr m2 level q
    → Written m2 m' q (page_2m_index vaddr) v
    → Extends m m'
Ready-Extends vaddr q v r w = record {
  stays = λ x z e.
      tables-Written r.tree q (page_2m_index vaddr) v r.table (omega arith) w 1 boot_pml4
        (tables_of x) r.tree.root refl (tables_of-AreIndices x)
      ∙ r.extends.stays x z e;
  room = omega (arith, w.page, r.extends.room);
  lock = w.lock ∙ r.extends.lock;
}

-- the state that `vm_boot_map_page` leaves when it has the entry at `a`
unfoldable pub mapped : BootTables → (a vaddr paddr : ℕ) → BootTables
mapped m a vaddr paddr =
    if is_present (m.mem a) && (pdir_addr (m.mem a) == paddr)
    then m
    else record (set_word m a (as_page paddr)) { invalidated = vaddr ∷ m.invalidated }

pub mapped-Written :
    (m : BootTables) (q i vaddr paddr : ℕ)
    → Written m
        (mapped m (q + 8 * i) vaddr paddr)
        q
        i
        ((mapped m (q + 8 * i) vaddr paddr).mem (q + 8 * i))
unfolding mapped
mapped-Written m q i vaddr paddr = record {
  page = ground arith;
  lock = ground arith;
  here = refl;
  others = λ b ne. ground arith;
}

pub mapped-leads :
    (m : BootTables) (a vaddr paddr : ℕ)
    → paddr % 2 ^ 21 ≡ 0
    → leads ((mapped m a vaddr paddr).mem a) ≡ some paddr
unfolding mapped
mapped-leads m a vaddr paddr al = ground (arith, as_page_add paddr al)
