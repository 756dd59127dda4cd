-- ===== src/IoApic/Mask.antt =====
-- src/io_apic.c: `io_apic_init`.
use smor.Prelude.{
  ℕ, zero, suc, ◌+◌, ◌%◌, ◌/◌, ◌^◌, ◌<◌, ◌≤◌, ◌≡◌, refl, ◌∙◌, sym, ap, ◌&&◌, leb, ltb,
  if◌then◌else◌, done, arith,
}
use smor.IoApic.{
  IoApic, io_apic_redtbl_get, io_apic_redtbl_set, interrupt_off, mask_from, io_apic_init,
  io_apic_read,
}
use smor.IoApic.Table.{num_entries, redtbl_get-set}
use smor.VmBoot.{BootTables, vm_boot_map_range}

mask_from-get :
    (n i : ℕ) (a : IoApic) (j : ℕ)
    → i + n ≤ num_entries
    → j < num_entries
    → io_apic_redtbl_get (mask_from n i a) j
      ≡ (if leb i j && ltb j (i + n) then interrupt_off else io_apic_redtbl_get a j)
unfolding mask_from
mask_from-get zero i a j h hj = ground arith
mask_from-get (suc n) i a j h hj =
    let a1 = io_apic_redtbl_set i interrupt_off a in
    let one = redtbl_get-set a i j interrupt_off (omega arith) hj (omega arith) in
    ground (arith, one, mask_from-get n (i + 1) a1 j (omega arith) hj)

mask_from-num_redtbl : (n i : ℕ) (a : IoApic) → (mask_from n i a).num_redtbl ≡ a.num_redtbl
unfolding mask_from io_apic_redtbl_set
mask_from-num_redtbl zero i a = refl
mask_from-num_redtbl (suc n) i a =
    mask_from-num_redtbl n (i + 1) (io_apic_redtbl_set i interrupt_off a)

mask_all :
    (a : IoApic) (n : ℕ) (found : IoApic) (j : ℕ)
    → n ≤ num_entries
    → j < num_entries
    → found.num_redtbl ≡ n
    → ((i : ℕ) → io_apic_redtbl_get found i ≡ io_apic_redtbl_get a i)
    → io_apic_redtbl_get (mask_from n 0 found) j
      ≡ (if ltb j (mask_from n 0 found).num_redtbl then interrupt_off else io_apic_redtbl_get a j)
mask_all a n found j le h size same =
    let bound : (mask_from n 0 found).num_redtbl ≡ n = mask_from-num_redtbl n 0 found ∙ size in
    let all : io_apic_redtbl_get (mask_from n 0 found) j
        ≡ (if ltb j n then interrupt_off else io_apic_redtbl_get a j) =
      ground (arith, mask_from-get n 0 found j (omega arith) h, same j) in
    all ∙ ap (λ b. if ltb j b then interrupt_off else io_apic_redtbl_get a j) (sym bound)

same_get :
    (a b : IoApic) (i : ℕ) → a.regs ≡ b.regs → io_apic_redtbl_get a i ≡ io_apic_redtbl_get b i
unfolding io_apic_redtbl_get
same_get a b i e = rw e refl

-- If the registers are mapped and the table is not longer than what the register numbers reach,
-- `io_apic_init` ends with every entry of the table masked, and the entries past it as they were.
pub io_apic_init-Masks :
    (a : IoApic) (m m1 : BootTables)
    → vm_boot_map_range a.io_apic_addr a.io_apic_addr 0x1000 m ≡ done m1
    → io_apic_read a 1 / 2 ^ 16 % 2 ^ 8 + 1 ≤ num_entries
    → (a' : IoApic) × (io_apic_init a m ≡ done (a', m1))
      × (a'.num_redtbl ≡ io_apic_read a 1 / 2 ^ 16 % 2 ^ 8 + 1)
      × ((j : ℕ)
          → j < num_entries
          → io_apic_redtbl_get a' j
            ≡ (if ltb j a'.num_redtbl then interrupt_off else io_apic_redtbl_get a j))
unfolding io_apic_init
io_apic_init-Masks a m m1 mapped le =
    let num_redtbl = io_apic_read a 1 / 2 ^ 16 % 2 ^ 8 + 1 in
    let found : IoApic = record a {
      id = io_apic_read a 0 / 2 ^ 24 % 2 ^ 4;
      ver = io_apic_read a 1 % 2 ^ 8;
      num_redtbl = num_redtbl;
    } in
    (
      mask_from num_redtbl 0 found,
      rw mapped refl,
      mask_from-num_redtbl num_redtbl 0 found,
      λ j h. mask_all a num_redtbl found j le h refl (λ i. same_get found a i refl),
    )
