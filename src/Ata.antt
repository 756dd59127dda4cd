-- ===== src/Ata.antt =====
-- src/ata.c: the search for a disk. The ports of the processor are the parameter `p`, on a state that
-- the hardware keeps; what is printed is the result.
pub mod Identify
mod Tests
use Prim.Native.Nat.{bit_or}
use smor.Prelude.{
  ℕ, zero, suc, ◌+◌, ◌-◌, ◌*◌, ◌/◌, ◌%◌, ◌^◌, Bool, true, false, not, ◌&&◌, ◌==◌, ltb,
  if◌then◌else◌, update, Option, none, some, Outcome, done, hang, ◌>>=◌, digit, u8, u16, u32,
}
use smor.Thread.{Machine, get_cpu_id}
use smor.LocalApic.{bit_of}
use smor.IoApic.{IoApic}
use smor.Interrupt.{Interrupts, intr_register_irq_handler, intr_irq_enable}

pub record Ports (S : Type 0) : Type 0 where
  pub outb : (port value : ℕ) → S → S
  pub inb : (port : ℕ) → S → ℕ × S
  pub inw : (port : ℕ) → S → ℕ × S

abbrev pub ata_primary_io : ℕ
ata_primary_io = 0x1f0

abbrev pub has_bit : (value k : ℕ) → Bool
has_bit value k = digit value k == 1

abbrev pub ata_id_has_lba : (id : ℕ → ℕ) → Bool
ata_id_has_lba id = has_bit (id 49) 9

pub ata_id_u32 : (id : ℕ → ℕ) → (n : ℕ) → ℕ
ata_id_u32 id n = bit_or (id (n + 1) * 2 ^ 16) (id n)

pub ata_id_u64 : (id : ℕ → ℕ) → (n : ℕ) → ℕ
ata_id_u64 id n =
    bit_or (bit_or (bit_or (id (n + 3) * 2 ^ 48) (id (n + 2) * 2 ^ 32)) (id (n + 1) * 2 ^ 16))
      (id n)

-- `& 0xc000` keeps the bits 14 and 15
pub ata_id_has_lba48 : (id : ℕ → ℕ) → Bool
unfolding ata_id_u64
ata_id_has_lba48 id =
    if id 83 / 2 ^ 14 % 4 == 1
    then (if ata_id_u64 id 100 == 0 then false else has_bit (id 83) 10)
    else false

pub ata_id_lba48_enabled : (id : ℕ → ℕ) → Bool
unfolding ata_id_has_lba48
ata_id_lba48_enabled id =
    if ata_id_has_lba48 id
    then (if id 87 / 2 ^ 14 % 4 == 1 then has_bit (id 86) 10 else false)
    else false

-- what `ata_init` prints of the size
pub data Capacity : Type 0 where
  lba48 : ℕ → Capacity
  lba : ℕ → Capacity
  chs : ℕ → Capacity

pub capacity : (id : ℕ → ℕ) → Capacity
capacity id =
    if ata_id_lba48_enabled id
    then lba48 (ata_id_u64 id 100)
    else (if ata_id_has_lba id
        then lba (ata_id_u32 id 60)
        else chs (u32 (u32 (id 1 * id 3) * id 6)))

-- what `ata_interrupt` does with the status
pub data AtaEvent : Type 0 where
  failed : (err : ℕ) → AtaEvent
  skipped : AtaEvent
  got_data : (buf : ℕ → ℕ) → AtaEvent
  weird : (status : ℕ) → AtaEvent

module _ {S : Type 0} (p : Ports S) where
  abbrev pub read_byte : (reg : ℕ) → S → ℕ × S
  read_byte reg s = let (value, s1) = p.inb (ata_primary_io + reg) s in (u8 value, s1)

  abbrev pub write_byte : (reg value : ℕ) → S → S
  write_byte reg value s = p.outb (ata_primary_io + reg) (u8 value) s

  -- the loops that read a block: the words left, the index
  pub read_block : ℕ → (i : ℕ) → (ℕ → ℕ) → S → (ℕ → ℕ) × S
  read_block zero i buf s = (buf, s)
  read_block (suc n) i buf s =
      let (word, s1) = p.inw ata_primary_io s in read_block n (i + 1) (update buf i (u16 word)) s1

  -- ATA_STATUS_READY, ATA_STATUS_DRQ and ATA_STATUS_DSC are the bits 6, 3 and 4
  pub ata_interrupt : (int_skip : Bool) → S → AtaEvent × S
  ata_interrupt int_skip s =
      let (status, s1) = read_byte 7 s in
      let (err, s2) = read_byte 1 s1 in
      let (buf, s3) = read_block 256 0 (λ _. 0) s1 in
      let ready = has_bit status 6 && (has_bit status 3 && has_bit status 4) in
      if has_bit status 0
      then (failed err, s2)
      else (if not (has_bit status 7) && ready
          then (if int_skip then (skipped, s1) else (got_data buf, s3))
          else (weird status, s1))

  -- the writes up to the command that asks for the identification
  unfoldable pub ask_ident : S → S
  ask_ident s =
      let s1 = write_byte 0x206 0x08 s in
      let s2 = write_byte 6 0xa0 s1 in
      let s3 = write_byte 5 0 (write_byte 4 0 (write_byte 3 0 (write_byte 2 0 s2))) in
      write_byte 7 0xec s3

  -- the loop that waits for the answer: whether there is an error
  pub await_ident : ℕ → S → Outcome (Bool × S)
  await_ident zero s = hang
  await_ident (suc fuel) s =
      let (status, s1) = read_byte 7 s in
      let rest = await_ident fuel s1 in
      if has_bit status 0
      then done (true, s1)
      else (if not (has_bit status 7) && has_bit status 3 then done (false, s1) else rest)

  abbrev pub lba_addr : ℕ
  lba_addr = 419430400 - 1

  -- the writes that ask for a sector; the bytes 4 and 5 of `lba` are 0
  pub ask_sector : S → S
  ask_sector s =
      let s1 = write_byte 6 0x40 s in
      let high =
        write_byte 5 0
          (write_byte 4 0 (write_byte 3 (lba_addr / 2 ^ 24 % 2 ^ 8) (write_byte 2 0 s1))) in
      let low = write_byte 5 (lba_addr / 2 ^ 16 % 2 ^ 8) (
        write_byte 4 (lba_addr / 2 ^ 8 % 2 ^ 8)
          (write_byte 3 (lba_addr % 2 ^ 8) (write_byte 2 1 high))) in
      write_byte 7 0x24 low

  -- `ata_init` after the interrupt is enabled: the identification, unless there is no disk or an
  -- error. What `int_skip` is at the end is the first result.
  pub identify : (fuel : ℕ) → S → Outcome (Bool × Option (ℕ → ℕ) × S)
  identify fuel s = do
    let (status, s1) = read_byte 7 (ask_ident s)
    let answer = await_ident fuel s1
    if status == 0 then done (true, none, s1) else (do
      (err, s2) ← answer
      let (buf, s3) = read_block 256 0 (λ _. 0) s2
      if err then done (true, none, s2) else done (false, some buf, ask_sector s3))

  pub ata_init :
      (stub : ℕ → ℕ) (handler fuel : ℕ)
      → Interrupts
      → IoApic
      → Machine
      → S
      → Outcome (Interrupts × IoApic × Machine × Bool × Option (ℕ → ℕ) × S)
  ata_init stub handler fuel intr io m s = do
    (intr1, m1) ← intr_register_irq_handler stub 14 handler intr m
    bit ← bit_of (get_cpu_id m1)
    (io1, m2) ← intr_irq_enable 14 (u8 bit) intr1 io m1
    (int_skip, buf, s1) ← identify fuel s
    done (intr1, io1, m2, int_skip, buf, s1)
