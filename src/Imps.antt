-- ===== src/Imps.antt =====
-- src/imps.c: the tables of the multiprocessor specification. What the source prints of an entry is
-- recorded as the entry's type and address.
pub mod Scan
mod Tests
use smor.Prelude.{
  ℕ, zero, suc, ◌+◌, ◌-◌, ◌*◌, ◌/◌, ◌%◌, ◌^◌, Bool, true, false, ◌&&◌, ◌||◌, ◌==◌, if◌then◌else◌,
  Option, none, some, List, [], ◌∷◌, ◌++◌, Outcome, done, hang, ◌>>=◌, u32, sub32,
}
use smor.Bytes.{read8, read16, read32, add_bytes}
use smor.Kernel.{kernel_vaddr}

-- `_MP_`
abbrev pub imps_fps_signature : ℕ
imps_fps_signature = 0x5f504d5f

pub imps_checksum : (mem : ℕ → ℕ) → (base len : ℕ) → ℕ
unfolding add_bytes
imps_checksum mem base len = add_bytes 32 len mem base 0 % 2 ^ 8

-- `sizeof(struct imps_fps_t)` is 16
unfoldable pub imps_check_fps : (mem : ℕ → ℕ) → (fps : ℕ) → Bool
unfolding imps_checksum
imps_check_fps mem fps =
    (read32 mem fps == imps_fps_signature)
    && (read8 mem (fps + 8) == 1)
    && ((read8 mem (fps + 9) == 1) || (read8 mem (fps + 9) == 4))
    && (imps_checksum mem fps 16 == 0)

-- the address of the structure, 0 for NULL
unfoldable pub imps_scan : ℕ → (mem : ℕ → ℕ) → (addr len : ℕ) → Outcome ℕ
imps_scan zero mem addr len = hang
imps_scan (suc fuel) mem addr len =
    let rest = imps_scan fuel mem (addr + 16) (sub32 len 16) in
    if len == 0 then done 0 else if imps_check_fps mem addr then done addr else rest

-- `imps_find`: the extended BIOS data area, the last kilobyte of the base memory, and the BIOS ROM
pub imps_find : ℕ → (mem : ℕ → ℕ) → Outcome ℕ
imps_find fuel mem = do
  let ebda_addr = read16 mem (kernel_vaddr 0x40E) * 2 ^ 4
  ebda ← imps_scan fuel mem (kernel_vaddr ebda_addr) 1024
  let rom = imps_scan fuel mem (kernel_vaddr 0xF0000) 0x10000
  let last =
      (imps_scan fuel mem (kernel_vaddr (639 * 1024)) 1024 >>= λ fps.
      if fps == 0 then rom else done fps)
  if ebda == 0 then last else done ebda

pub record ImpsEntry : Type 0 where
  pub type : ℕ
  pub addr : ℕ

-- the loop of `imps_read_config_table`: the number of entries left; an entry of a processor has 20
-- bytes, and every other one 8
pub read_entries : ℕ → (mem : ℕ → ℕ) → (addr : ℕ) → List ImpsEntry
read_entries zero mem addr = []
read_entries (suc n) mem addr =
    let entry : ImpsEntry = record { type = read8 mem addr; addr = addr } in
    entry ∷ read_entries n mem (if read8 mem addr == 0 then addr + 12 + 8 else addr + 8)

-- `sizeof(struct imps_cth_t)` is 44
pub imps_read_config_table : (mem : ℕ → ℕ) → (addr : ℕ) → List ImpsEntry
unfolding read_entries
imps_read_config_table mem addr = read_entries (read16 mem (addr + 34)) mem (addr + 44)

-- the entries of the table, if the structure is found and names one
pub imps_init : ℕ → (mem : ℕ → ℕ) → Outcome (Option (List ImpsEntry))
imps_init fuel mem = do
  fps ← imps_find fuel mem
  let table = read32 mem (fps + 4)
  if fps == 0
      then done none
      else done (some (if table == 0 then [] else imps_read_config_table mem (kernel_vaddr table)))
