-- ===== src/VmBoot/Tests.antt =====
-- The page tables as src/boot.S leaves them: the first pages at 0 and at the kernel's address,
-- by one table of the last level. The theorems are applied to them.
use smor.Prelude.{
  inl, ℕ, ◌+◌, ◌-◌, ◌*◌, ◌/◌, ◌^◌, ◌<◌, ◌≡◌, refl, ◌||◌, ◌==◌, ltb, leb, ◌&&◌, if◌then◌else◌, none,
  some, [], done, arith,
}
use smor.VmBoot.{
  BootTables, boot_page_next, vm_boot_map_page, vm_boot_unmap_page, vm_boot_map_range,
}
use smor.VmBoot.Walk.{walk, translate, IsTree, Extends}
use smor.VmBoot.Leaf.{Retargets}
use smor.VmBoot.Map.{map_page-Retargets}
use smor.VmBoot.Cover.{page_of, map_range-translate}
use smor.VmBoot.Unmap.{Unmaps, unmap_page-Unmaps}

abbrev boot_word : ℕ → ℕ
boot_word a =
    if a == 0x10000
    then 0x13003
    else if a == 0x10000 + 8 * 511
    then 0x12003
    else if a == 0x13000
    then 0x11003
    else if a == 0x12000 + 8 * 510
    then 0x11003
    else if leb 0x11000 a && ltb a (0x11000 + 8 * 4)
    then (a - 0x11000) / 8 * 2 ^ 21 + 0x83
    else 0

abbrev booted : BootTables
booted = record { mem = boot_word; boot_page = boot_page_next; lock = 0; invalidated = [] }

abbrev boot_level : ℕ → ℕ
boot_level q =
    if q == 0x10000
    then 1
    else if q == 0x12000 || (q == 0x13000)
    then 2
    else if q == 0x11000
    then 3
    else 0

booted-IsTree : IsTree booted boot_level
booted-IsTree = record {
  root = omega arith;
  next = omega arith;
  entry = λ n q i lt tq hi p. ground arith;
}

-- both the low addresses and the kernel's are translated by the table at 0x11000
low : translate boot_word 0x400000 ≡ some 0x400000
unfolding translate walk
low = refl

high : translate boot_word 0xffffffff80400000 ≡ some 0x400000
unfolding translate walk
high = refl

map_page-Retargets_example :
    (m' : BootTables) × (level' : ℕ → ℕ) × (vm_boot_map_page 0xfec00000 0xfec00000 booted ≡ done m')
    × IsTree m' level'
    × Extends booted m'
    × Retargets booted m' 0xfec00000 (some 0xfec00000)
map_page-Retargets_example =
    map_page-Retargets 0xfec00000 0xfec00000 booted-IsTree (inl (omega arith)) (omega arith)

unmap_page-Unmaps_example :
    IsTree (vm_boot_unmap_page 0x400000 booted) boot_level
    × Unmaps booted (vm_boot_unmap_page 0x400000 booted) 0x400000
unmap_page-Unmaps_example = unmap_page-Unmaps 0x400000 booted-IsTree

-- a low page that is unmapped takes the kernel's page of the same memory with it
unmapped_too : translate (vm_boot_unmap_page 0x400000 booted).mem 0xffffffff80400000 ≡ none
unfolding translate walk vm_boot_unmap_page
unmapped_too = refl

-- a frame buffer of 16M
map_range-translate_example :
    (m' : BootTables) × (level' : ℕ → ℕ) × (vm_boot_map_range 0xfd000000 0xfd000000 0x1000000 booted
      ≡ done m')
    × (m'.lock ≡ 0)
    × IsTree m' level'
    × ((d : ℕ)
        → d < 0x1000000
        → translate m'.mem (0xfd000000 + d) ≡ some (page_of (0xfd000000 + d)))
map_range-translate_example =
    map_range-translate 0xfd000000 0xfd000000 0x1000000 booted-IsTree refl (inl (omega arith)) refl
      (omega arith) (omega arith) (omega arith)
