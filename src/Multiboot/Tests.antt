-- ===== src/Multiboot/Tests.antt =====
-- The information of a boot loader with the basic sizes of memory and a map of two entries, and the
-- theorems at it.
use smor.Prelude.{ℕ, ◌+◌, ◌-◌, ◌/◌, ◌%◌, ◌^◌, ◌≡◌, refl, List, [], ◌∷◌, ◌++◌, done, arith, get_or}
use smor.Kernel.{kernel_vaddr}
use smor.Multiboot.{MbInfo, multiboot2_bootloader_magic, multiboot_mmap}
use smor.Multiboot.Mmap.{Reads, multiboot_mmap-Reads}

abbrev le32 : ℕ → List ℕ
le32 n = n % 2 ^ 8 ∷ n / 2 ^ 8 % 2 ^ 8 ∷ n / 2 ^ 16 % 2 ^ 8 ∷ n / 2 ^ 24 % 2 ^ 8 ∷ []

abbrev meminfo_tag : List ℕ
meminfo_tag = le32 4 ++ le32 16 ++ le32 640 ++ le32 65536

-- 640K that can be used, and 1M that cannot
abbrev mmap_tag : List ℕ
mmap_tag =
    le32 6
    ++ le32 64
    ++ le32 24
    ++ le32 0
    ++ le32 0
    ++ le32 0
    ++ le32 0xA0000
    ++ le32 0
    ++ le32 1
    ++ le32 0
    ++ le32 0x100000
    ++ le32 0
    ++ le32 0x100000
    ++ le32 0
    ++ le32 2
    ++ le32 0

abbrev base : ℕ
base = kernel_vaddr 8

abbrev memory : ℕ → ℕ
memory a = get_or (meminfo_tag ++ mmap_tag ++ le32 0 ++ le32 8) (a - base) 0

abbrev blank : MbInfo
blank = record {
  mb_magic = multiboot2_bootloader_magic;
  mb_addr = 0;
  mmap = λ _. record { addr = 0; size = 0; flags = 0 };
  num_mmap = 0;
  mmap_top = 0;
  memory_size = 0;
  fb_addr = 0;
  fb_pitch = 0;
  fb_width = 0;
  fb_height = 0;
  fb_bpp = 0;
  fb_type = 0;
  cmd_line = λ _. 0;
}

multiboot_mmap-Reads_example :
    (b' : MbInfo) × (multiboot_mmap 8 memory (base + 16) blank ≡ done b')
    × Reads memory 2 (base + 32) 24 (record blank { num_mmap = 0; mmap_top = 0 }) b'
multiboot_mmap-Reads_example =
    multiboot_mmap-Reads 8 2 memory (base + 16) blank (omega arith) (omega arith) refl (omega arith)
