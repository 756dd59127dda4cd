-- ===== src/VmBoot/Map.antt =====
-- src/vm_boot.c, vm_boot_map_page: what the processor translates an address to after a page is
-- mapped.
use smor.Prelude.{
  ℕ, ◌+◌, ◌*◌, ◌%◌, ◌^◌, ◌<◌, ◌≡◌, refl, subst, inl, inr, false, [], ◌∷◌, some, done, arith,
}
use smor.VmBoot.{
  BootTables, boot_pml4, pml_index, pdp_index, page_2m_index, pdir_addr, is_present, boot_pages_top,
  vm_boot_map_page,
}
use smor.VmBoot.Walk.{IsTree, Extends, walk-first, walk-second, tables_of, tables_of-AreIndices}
use smor.VmBoot.Leaf.{
  written-IsTree, Supplied, Retargets, Ready-Retargets, Ready-Extends, mapped, mapped-Written,
  mapped-leads,
}
use smor.VmBoot.Enter.{Entered, table_at-Entered, Entered-table, Entered-Ready}

map_page-run :
    {m m1 m2 : BootTables} {level level1 level2 : ℕ → ℕ} (vaddr paddr e1 e2 : ℕ)
    → Entered m level boot_pml4 (pml_index vaddr) m1 level1 e1
    → Entered m1 level1 (pdir_addr e1) (pdp_index vaddr) m2 level2 e2
    → vm_boot_map_page vaddr paddr m
      ≡ done (mapped m2 (pdir_addr e2 + 8 * page_2m_index vaddr) vaddr paddr)
unfolding vm_boot_map_page mapped
map_page-run vaddr paddr e1 e2 s1 s2 = rw (s1.result, s2.result) (ground arith)

map_page-Ready :
    {m m1 m2 : BootTables} {level level1 level2 : ℕ → ℕ} (vaddr paddr e1 e2 : ℕ)
    → IsTree m level
    → paddr % 2 ^ 21 ≡ 0
    → Entered m level boot_pml4 (pml_index vaddr) m1 level1 e1
    → Entered m1 level1 (pdir_addr e1) (pdp_index vaddr) m2 level2 e2
    → (m' : BootTables) × (level' : ℕ → ℕ) × (vm_boot_map_page vaddr paddr m ≡ done m')
      × IsTree m' level'
      × Extends m m'
      × Retargets m m' vaddr (some paddr)
map_page-Ready {m} {m1} {m2} {level} {level1} {level2} vaddr paddr e1 e2 t al s1 s2 =
    let q = pdir_addr e2 in
    let i = page_2m_index vaddr in
    let r = Entered-Ready vaddr e1 e2 t s1 s2 in
    let m' = mapped m2 (q + 8 * i) vaddr paddr in
    let v = m'.mem (q + 8 * i) in
    let w = mapped-Written m2 q i vaddr paddr in
    (
      m',
      level2,
      map_page-run vaddr paddr e1 e2 s1 s2,
      written-IsTree r.tree q i v r.table (omega arith) w,
      Ready-Extends vaddr q v r w,
      subst (Retargets m m' vaddr) (mapped-leads m2 (q + 8 * i) vaddr paddr al)
          (Ready-Retargets vaddr q v r w),
    )

first_room :
    (m : BootTables) (vaddr : ℕ)
    → Supplied m vaddr
    → is_present (m.mem (boot_pml4 + 8 * pml_index vaddr)) ≡ false
    → m.boot_page < boot_pages_top
first_room m vaddr (inl room) h = omega arith
first_room m vaddr (inr (q, e)) h =
    absurd (cc (walk-first m.mem boot_pml4 (pml_index vaddr) (pdp_index vaddr ∷ []) e))

second_room :
    {m m1 : BootTables} {level level1 : ℕ → ℕ} (vaddr e1 : ℕ)
    → IsTree m level
    → Supplied m vaddr
    → Entered m level boot_pml4 (pml_index vaddr) m1 level1 e1
    → is_present (m1.mem (pdir_addr e1 + 8 * pdp_index vaddr)) ≡ false
    → m1.boot_page < boot_pages_top
second_room vaddr e1 t (inl room) s1 h = omega (arith, s1.room)
second_room {m} {m1} vaddr e1 t (inr (q, e)) s1 h =
    let there = s1.stays 1 boot_pml4 (tables_of vaddr) t.root refl (tables_of-AreIndices vaddr) e in
    let p = walk-second m1.mem boot_pml4 (pml_index vaddr) (pdp_index vaddr) there in
    absurd (cc (rw s1.stored at p))

map_page-Entered :
    {m m1 : BootTables} {level level1 : ℕ → ℕ} (vaddr paddr e1 : ℕ)
    → IsTree m level
    → Supplied m vaddr
    → paddr % 2 ^ 21 ≡ 0
    → Entered m level boot_pml4 (pml_index vaddr) m1 level1 e1
    → (m' : BootTables) × (level' : ℕ → ℕ) × (vm_boot_map_page vaddr paddr m ≡ done m')
      × IsTree m' level'
      × Extends m m'
      × Retargets m m' vaddr (some paddr)
map_page-Entered vaddr paddr e1 t room al s1 =
    let (m2, level2, e2, s2) =
      table_at-Entered 2 (pdir_addr e1) (pdp_index vaddr) s1.tree (omega arith)
        (Entered-table 1 boot_pml4 (pml_index vaddr) e1 (omega arith) t.root (omega arith) s1)
        (omega arith) (second_room vaddr e1 t room s1) in
    map_page-Ready vaddr paddr e1 e2 t al s1 s2

-- For a physical address that is a multiple of 2M, and where two tables more have room or those of
-- `vaddr` are there, `vm_boot_map_page` does not panic, and leaves a tree again. Then the page-table
-- entry of `vaddr` leads to `paddr` for every address that shares it; each other address is
-- translated as before. The page tables that were there stay, and at most two
-- are added.
pub map_page-Retargets :
    {m : BootTables} {level : ℕ → ℕ} (vaddr paddr : ℕ)
    → IsTree m level
    → Supplied m vaddr
    → paddr % 2 ^ 21 ≡ 0
    → (m' : BootTables) × (level' : ℕ → ℕ) × (vm_boot_map_page vaddr paddr m ≡ done m')
      × IsTree m' level'
      × Extends m m'
      × Retargets m m' vaddr (some paddr)
map_page-Retargets {m} {level} vaddr paddr t room al =
    let (m1, level1, e1, s1) =
      table_at-Entered 1 boot_pml4 (pml_index vaddr) t (omega arith) t.root (omega arith)
        (first_room m vaddr room) in
    map_page-Entered vaddr paddr e1 t room al s1
