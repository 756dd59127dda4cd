-- ===== src/VmBoot/Unmap.antt =====
-- src/vm_boot.c, vm_boot_unmap_page: what the processor translates an address to after a page is
-- unmapped, and that a page that is mapped and unmapped again is not mapped.
use smor.Prelude.{
  ℕ, ◌+◌, ◌*◌, ◌≡◌, refl, sym, subst, ◌⊎◌, inl, inr, true, false, none, arith, Bool-cases,
}
use smor.VmBoot.{
  BootTables, boot_pml4, pml_index, pdp_index, page_2m_index, pdir_addr, is_present,
  vm_boot_unmap_page,
}
use smor.VmBoot.Walk.{walk, translate, IsTable, IsTree}
use smor.VmBoot.Leaf.{Ready, Written, written-IsTree, Retargets, Ready-Retargets}

-- the page is not mapped and nothing changes, or its entry is cleared
abbrev pub Unmaps : (m m' : BootTables) (vaddr : ℕ) → Type 0
Unmaps m m' vaddr = ((translate m.mem vaddr ≡ none) × (m' ≡ m)) ⊎ Retargets m m' vaddr none

module _ {m : BootTables} {level : ℕ → ℕ} (vaddr : ℕ) (t : IsTree m level) where
  abbrev pdp_entry : ℕ
  pdp_entry = m.mem (boot_pml4 + 8 * pml_index vaddr)

  abbrev pd_entry : ℕ
  pd_entry = m.mem (pdir_addr pdp_entry + 8 * pdp_index vaddr)

  written :
      is_present pdp_entry ≡ true
      → is_present pd_entry ≡ true
      → Written m (vm_boot_unmap_page vaddr m) (pdir_addr pd_entry) (page_2m_index vaddr) 0
  unfolding vm_boot_unmap_page
  written p1 p2 = record {
    page = ground arith;
    lock = ground arith;
    here = ground arith;
    others = λ b ne. ground arith;
  }

  cleared :
      is_present pdp_entry ≡ true
      → is_present pd_entry ≡ true
      → IsTree (vm_boot_unmap_page vaddr m) level × Unmaps m (vm_boot_unmap_page vaddr m) vaddr
  unfolding walk
  cleared p1 p2 =
      let q = pdir_addr pd_entry in
      let i = page_2m_index vaddr in
      let below = t.entry 1 boot_pml4 (pml_index vaddr) (omega arith) t.root (omega arith) p1 in
      let table : IsTable m level 3 q =
        t.entry 2 (pdir_addr pdp_entry) (pdp_index vaddr) (omega arith) below (omega arith) p2 in
      let w : Written m (vm_boot_unmap_page vaddr m) q i 0 = written p1 p2 in
      let r : Ready m vaddr m level q = record {
        tree = t;
        table = table;
        path = rw (walk, p1, walk, p2, walk);
        same = λ w. refl;
        extends = record { stays = λ w q e. e; room = omega arith; lock = refl };
      } in
      (written-IsTree t q i 0 table (omega arith) w, inr (Ready-Retargets vaddr q 0 r w))

  no_table :
      (is_present pdp_entry ≡ false) ⊎ (is_present pd_entry ≡ false)
      → (translate m.mem vaddr ≡ none) × (vm_boot_unmap_page vaddr m ≡ m)
  unfolding vm_boot_unmap_page translate walk
  no_table (inl p) = (rw (walk, p), ground arith)
  no_table (inr p) = elim (Bool-cases (is_present pdp_entry)) [
    | inl p1 ↦ (rw (walk, p1, walk, p), ground arith)
    | inr p1 ↦ (rw (walk, p1), ground arith)
  ]

  kept :
      (is_present pdp_entry ≡ false) ⊎ (is_present pd_entry ≡ false)
      → IsTree (vm_boot_unmap_page vaddr m) level × Unmaps m (vm_boot_unmap_page vaddr m) vaddr
  kept p =
      let (none_there, same) = no_table p in
      (subst (λ x. IsTree x level) (sym same) t, inl (none_there, same))

  -- `vm_boot_unmap_page` leaves a tree. If the tables of `vaddr` are not there, `vaddr` is not
  -- translated and nothing changes; else `vaddr` is no longer translated, nor is any address that
  -- shares its page-table entry, and each other address is translated as before.
  pub unmap_page-Unmaps :
      IsTree (vm_boot_unmap_page vaddr m) level × Unmaps m (vm_boot_unmap_page vaddr m) vaddr
  unmap_page-Unmaps = elim (Bool-cases (is_present pdp_entry)) [
    | inl p1 ↦ elim (Bool-cases (is_present pd_entry)) [
      | inl p2 ↦ cleared p1 p2
      | inr p2 ↦ kept (inr p2)
    ]
    | inr p1 ↦ kept (inl p1)
  ]
