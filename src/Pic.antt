-- ===== src/Pic.antt =====
-- src/pic.c and src/pit.c: the legacy interrupt controllers and the timer behind them. What `outb` and
-- the assembly of the acknowledgements write is recorded as the port and the byte, the last write last.
pub mod Masks
mod Tests
use Prim.Native.Nat.{bit_or}
use smor.Prelude.{
  ℕ, ◌+◌, ◌-◌, ◌*◌, ◌/◌, ◌%◌, ◌^◌, ◌==◌, ltb, if◌then◌else◌, List, [], ◌∷◌, ◌++◌, Outcome, done,
  undefined, ◌>>=◌, digit, u8, u16,
}

pub record Pic : Type 0 where
  pub irq_mask : ℕ
  pub outputs : List (ℕ × ℕ)

abbrev pub outb : (port value : ℕ) → Pic → Pic
outb port value p = record p { outputs = p.outputs ++ ((port, u8 value) ∷ []) }

abbrev pub master_pic_cmd : ℕ
master_pic_cmd = 0x20

abbrev pub master_pic_intmask : ℕ
master_pic_intmask = 0x21

abbrev pub second_pic_cmd : ℕ
second_pic_cmd = 0xA0

abbrev pub second_pic_intmask : ℕ
second_pic_intmask = 0xA1

abbrev pub slave_irq : ℕ
slave_irq = 8

abbrev pub master_slave : ℕ
master_slave = 2

-- the command words of one controller; ICW2_INTVEC_MASK keeps the bits 3 to 7
abbrev pub init_words : (cmd intmask vector cascade : ℕ) → Pic → Pic
init_words cmd intmask vector cascade p =
    let icw1 = outb cmd (2 ^ 4 + 1) p in
    let icw2 = outb intmask (vector % 2 ^ 8 / 8 * 8) icw1 in
    let icw3 = outb intmask cascade icw2 in
    let icw4 = outb intmask 1 icw3 in outb cmd (2 ^ 5) (outb intmask 0xFF icw4)

pub pic_init : Pic → Pic
pic_init p =
    init_words second_pic_cmd second_pic_intmask 0x28 2
      (init_words master_pic_cmd master_pic_intmask 0x20 (2 ^ 2) p)

abbrev pub irq_ack_master : Pic → Pic
irq_ack_master p = outb 0x20 0x20 p

abbrev pub irq_ack_slave : Pic → Pic
irq_ack_slave p = outb 0xA0 0x20 (outb 0x20 0x20 p)

pub pic_eoi : (irq_num : ℕ) → Pic → Pic
pic_eoi irq_num p = if ltb 8 irq_num then irq_ack_master p else irq_ack_slave p

-- `mask & ~(1 << k)` and `mask | (1 << k)`, on 16 bits
abbrev pub clear_bit : (mask k : ℕ) → ℕ
clear_bit mask k = if digit mask k == 1 then mask - 2 ^ k else mask

abbrev pub set_bit : (mask k : ℕ) → ℕ
set_bit mask k = u16 (bit_or mask (2 ^ k))

-- the last two writes of both operations
abbrev pub write_masks : Pic → Pic
write_masks p =
    outb second_pic_intmask (p.irq_mask / 2 ^ 8 % 2 ^ 8)
      (outb master_pic_intmask (p.irq_mask % 2 ^ 8) p)

-- a shift by 32 or more is undefined
pub pic_enable_irq : (irq_num : ℕ) → Pic → Outcome Pic
pic_enable_irq irq_num p =
    let mask = clear_bit p.irq_mask irq_num in
    let mask1 = if ltb irq_num slave_irq then mask else clear_bit mask master_slave in
    if ltb irq_num 32 then done (write_masks (record p { irq_mask = mask1 })) else undefined

pub pic_disable_irq : (irq_num : ℕ) → Pic → Outcome Pic
pic_disable_irq irq_num p =
    let mask = set_bit p.irq_mask irq_num in
    let mask1 = if ltb irq_num slave_irq then mask else set_bit mask master_slave in
    if ltb irq_num 32 then done (write_masks (record p { irq_mask = mask1 })) else undefined

-- `CLKNUM / HZ`
abbrev pub pit_clock : ℕ
pit_clock = 1193167 / 1000

unfoldable pub pit_init : Pic → Pic
pit_init p =
    outb 0x40 (pit_clock / 2 ^ 8 % 2 ^ 8)
      (outb 0x40 (pit_clock % 2 ^ 8) (outb 0x43 (0x30 + 0x06) p))
