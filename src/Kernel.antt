-- ===== src/Kernel.antt =====
-- src/types.h (ALIGN_UP) and src/kernel.c, kernel_slack_alloc: memory taken behind the kernel image.
-- The calls of `vm_boot_map_range` are recorded in order, the last one first.
mod Tests
pub mod Slack
use Prim.Native.Nat.{bit_and}
use smor.Prelude.{
  ℕ, ◌+◌, ◌-◌, ◌*◌, ◌/◌, ◌%◌, ◌^◌, List, [], ◌∷◌, Outcome, done, hang, ◌==◌, ltb, if◌then◌else◌,
  u64,
}

-- one call of `vm_boot_map_range`
pub record MapCall : Type 0 where
  pub vaddr : ℕ
  pub paddr : ℕ
  pub size : ℕ

-- the fields of `struct boot_info_t` that the allocator uses, and its lock
pub record BootInfo : Type 0 where
  pub kernel_end : ℕ
  pub kernel_top : ℕ
  pub kernel_slack : ℕ
  pub slack_lock : ℕ
  pub mapped : List MapCall

-- `KERNEL_BASE` is the top 2G of the address space.
abbrev pub kernel_base : ℕ
kernel_base = 2 ^ 64 - 2 ^ 31

-- ALIGN_UP on `uint64_t`; `x & ~m` is `x - (x & m)`
unfoldable pub align_up : (addr align : ℕ) → ℕ
align_up addr align =
    let mask = u64 (align + 2 ^ 64 - 1) in let x = u64 (addr + mask) in x - bit_and x mask

-- PAGE_2M_ROUND
abbrev pub page_2m_round : ℕ → ℕ
page_2m_round x = u64 (x + (2 ^ 21 - 1)) / 2 ^ 21 * 2 ^ 21

-- KERNEL_VADDR; `x | KERNEL_BASE` is `x` modulo 2 ^ 31 above the base
abbrev pub kernel_vaddr : ℕ → ℕ
kernel_vaddr x = kernel_base + x % 2 ^ 31

-- `image_end` is the address of `_end`, which the linker places.
pub kernel_init : (image_end : ℕ) → BootInfo → BootInfo
kernel_init image_end b =
    let kernel_end = u64 (image_end + 2 ^ 64 - kernel_base) in
    record b {
      kernel_end = kernel_end;
      kernel_top = page_2m_round kernel_end;
      kernel_slack = kernel_end;
    }

unfoldable pub kernel_slack_alloc : (size align : ℕ) → BootInfo → Outcome (ℕ × BootInfo)
kernel_slack_alloc size align b =
    let slack = align_up b.kernel_slack align in
    let top = u64 (slack + size) in
    let alloc_size = page_2m_round (u64 (top + 2 ^ 64 - b.kernel_top)) in
    let call : MapCall = record {
      vaddr = kernel_vaddr b.kernel_top;
      paddr = b.kernel_top;
      size = alloc_size;
    } in
    let b1 =
      if ltb b.kernel_top top
      then record b { kernel_top = u64 (b.kernel_top + alloc_size); mapped = call ∷ b.mapped }
      else b in
    if b.slack_lock == 0 then done (kernel_vaddr slack, record b1 { kernel_slack = top }) else hang
