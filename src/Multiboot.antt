-- ===== src/Multiboot.antt =====
-- src/multiboot.c: what the boot loader tells of the machine, in a sequence of tags in memory. The
-- information is read at `mb_addr + 8` in the kernel's address space.
pub mod Mmap
pub mod Tags
mod Tests
use smor.Prelude.{
  ℕ, zero, suc, ◌+◌, ◌*◌, ◌/◌, ◌%◌, ◌^◌, Bool, true, false, ◌==◌, ltb, if◌then◌else◌, update,
  Outcome, done, hang, check, ◌>>=◌, ◌>>◌, u8, u32, u64,
}
use smor.Bytes.{read8, read32, read64}
use smor.Kernel.{kernel_vaddr}

-- `struct boot_info_mmap_t`
pub record MmapEntry : Type 0 where
  pub addr : ℕ
  pub size : ℕ
  pub flags : ℕ

-- the fields of `struct boot_info_t` that `multiboot_init` reads and fills
pub record MbInfo : Type 0 where
  pub mb_magic : ℕ
  pub mb_addr : ℕ
  pub mmap : ℕ → MmapEntry
  pub num_mmap : ℕ
  pub mmap_top : ℕ
  pub memory_size : ℕ
  pub fb_addr : ℕ
  pub fb_pitch : ℕ
  pub fb_width : ℕ
  pub fb_height : ℕ
  pub fb_bpp : ℕ
  pub fb_type : ℕ
  pub cmd_line : ℕ → ℕ

abbrev pub multiboot2_bootloader_magic : ℕ
multiboot2_bootloader_magic = 0x36d76289

abbrev pub boot_info_mmap_max : ℕ
boot_info_mmap_max = 32

-- the loop of `multiboot_cmdline`: `s` in memory goes to the index `p`
copy_line : ℕ → (mem : ℕ → ℕ) → (s p : ℕ) → (ℕ → ℕ) → Outcome (ℕ → ℕ)
copy_line zero mem s p line = hang
copy_line (suc fuel) mem s p line =
    let rest = copy_line fuel mem (s + 1) (p + 1) (update line p (mem s)) in
    if mem s == 0 then done (update line p 0) else rest

pub multiboot_cmdline : ℕ → (mem : ℕ → ℕ) → (tag : ℕ) → MbInfo → Outcome MbInfo
unfolding copy_line
multiboot_cmdline fuel mem tag b = do
  line ← copy_line fuel mem (tag + 8) 0 b.cmd_line
  done (record b { cmd_line = line })

pub multiboot_framebuffer : (mem : ℕ → ℕ) → (tag : ℕ) → MbInfo → MbInfo
multiboot_framebuffer mem tag b = record b {
  fb_addr = read64 mem (tag + 8);
  fb_pitch = read32 mem (tag + 16);
  fb_width = read32 mem (tag + 20);
  fb_height = read32 mem (tag + 24);
  fb_bpp = read8 mem (tag + 28);
  fb_type = read8 mem (tag + 29);
}

pub multiboot_meminfo : (mem : ℕ → ℕ) → (tag : ℕ) → MbInfo → MbInfo
multiboot_meminfo mem tag b =
    let mem_lower = read32 mem (tag + 8) * 1024 in
    let mem_upper = read32 mem (tag + 12) * 1024 in
    record b { memory_size = u64 (mem_lower + mem_upper) }

-- MULTIBOOT_MEMORY_AVAILABLE
abbrev pub memory_available : ℕ
memory_available = 1

-- the body of the loop of `multiboot_mmap`, at the entry `e`
pub mmap_entry : (mem : ℕ → ℕ) → (e : ℕ) → MbInfo → Outcome MbInfo
mmap_entry mem e b = do
  check (ltb b.num_mmap boot_info_mmap_max)
  let available = read32 mem (e + 16) == memory_available
  let top = u64 (read64 mem e + read64 mem (e + 8))
  let m : MmapEntry = record {
    addr = read64 mem e;
    size = read64 mem (e + 8);
    flags = if available then 1 else 0;
  }
  done (record b {
    num_mmap = b.num_mmap + 1;
    mmap = update b.mmap b.num_mmap m;
    mmap_top = if available then (if ltb b.mmap_top top then top else b.mmap_top) else b.mmap_top;
  })

pub mmap_entries : ℕ → (mem : ℕ → ℕ) → (e stop step : ℕ) → MbInfo → Outcome MbInfo
mmap_entries zero mem e stop step b = hang
mmap_entries (suc fuel) mem e stop step b =
    let rest = (mmap_entry mem e b >>= λ b1. mmap_entries fuel mem (e + step) stop step b1) in
    if ltb e stop then rest else done b

pub multiboot_mmap : ℕ → (mem : ℕ → ℕ) → (tag : ℕ) → MbInfo → Outcome MbInfo
multiboot_mmap fuel mem tag b =
    mmap_entries fuel mem (tag + 16) (tag + read32 mem (tag + 4)) (read32 mem (tag + 8))
      (record b { num_mmap = 0; mmap_top = 0 })

-- the `switch` over the type of the tag
pub handle_tag : ℕ → (mem : ℕ → ℕ) → (tag : ℕ) → MbInfo → Outcome MbInfo
handle_tag fuel mem tag b =
    let type = read32 mem tag in
    if type == 1
    then multiboot_cmdline fuel mem tag b
    else if type == 4
    then done (multiboot_meminfo mem tag b)
    else if type == 8
    then done (multiboot_framebuffer mem tag b)
    else if type == 6
    then multiboot_mmap fuel mem tag b
    else done b

-- `(size + 7) & ~7` on `uint32_t`
abbrev pub tag_stride : ℕ → ℕ
tag_stride size = u32 (size + 7) / 8 * 8

-- the fuel `inner` is that of the loops over one tag
pub handle_tags : (inner : ℕ) → ℕ → (mem : ℕ → ℕ) → (tag : ℕ) → MbInfo → Outcome MbInfo
handle_tags inner zero mem tag b = hang
handle_tags inner (suc fuel) mem tag b =
    let rest =
      (handle_tag inner mem tag b >>= λ b1.
      handle_tags inner fuel mem (tag + tag_stride (read32 mem (tag + 4))) b1) in
    if read32 mem tag == 0 then done b else rest

-- the address is computed on `uint32_t`
abbrev pub first_tag : MbInfo → ℕ
first_tag b = kernel_vaddr (u32 (b.mb_addr + 8))

pub multiboot_init : (inner fuel : ℕ) → (mem : ℕ → ℕ) → MbInfo → Outcome (Bool × MbInfo)
multiboot_init inner fuel mem b =
    if b.mb_magic == multiboot2_bootloader_magic
    then (handle_tags inner fuel mem (first_tag b) b >>= λ b1. done (true, b1))
    else done (false, b)
