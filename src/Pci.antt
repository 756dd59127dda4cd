-- ===== src/Pci.antt =====
-- src/pci.c: the search for devices. The ports of the processor are the parameter `p`, on a state that
-- the hardware keeps; each access is made with interrupts off, which is left out.
pub mod Address
pub mod Scan
mod Tests
use Prim.Native.Nat.{bit_or}
use smor.Prelude.{
  ℕ, zero, suc, ◌+◌, ◌*◌, ◌-◌, ◌/◌, ◌%◌, ◌^◌, Bool, ◌==◌, ltb, if◌then◌else◌, update, List, [], ◌∷◌,
  ◌++◌, length, Outcome, done, undefined, ◌>>=◌, u8, u16, u32, u64,
}

pub record Ports (S : Type 0) : Type 0 where
  pub outl : (port value : ℕ) → S → S
  pub inb : (port : ℕ) → S → ℕ × S
  pub inw : (port : ℕ) → S → ℕ × S
  pub inl : (port : ℕ) → S → ℕ × S

pub record PciBar : Type 0 where
  pub bar : ℕ
  pub pio_base : ℕ
  pub mmio_size : ℕ
  pub mmio_base32 : ℕ
  pub mmio_base64 : ℕ

-- `num_bars`, `num_caps` and `caps`, which no code sets, are left out
pub record PciDevice : Type 0 where
  pub bus : ℕ
  pub dev : ℕ
  pub func : ℕ
  pub header_type : ℕ
  pub vendor_id : ℕ
  pub device_id : ℕ
  pub class : ℕ
  pub subclass : ℕ
  pub prog_intf : ℕ
  pub int_line : ℕ
  pub int_pin : ℕ
  pub bars : ℕ → PciBar

abbrev pub pci_max_devices : ℕ
pci_max_devices = 32

abbrev pub pci_max_bars : ℕ
pci_max_bars = 6

abbrev pub pci_make_id : (bus dev func : ℕ) → ℕ
pci_make_id bus dev func = bit_or (bit_or (bus * 2 ^ 16) (dev * 2 ^ 11)) (func * 2 ^ 8)

-- what is written to PCI_CONFIG_ADDR; `reg & 0xfc` keeps the bits 2 to 7
abbrev pub config_addr : (id reg : ℕ) → ℕ
config_addr id reg = bit_or (bit_or 0x80000000 id) (reg % 2 ^ 8 / 4 * 4)

abbrev pub pci_config_addr : ℕ
pci_config_addr = 0xcf8

abbrev pub pci_config_data : ℕ
pci_config_data = 0xcfc

-- a bar of a device that was not set
abbrev pub no_bar : PciBar
no_bar = record { bar = 0; pio_base = 0; mmio_size = 0; mmio_base32 = 0; mmio_base64 = 0 }

-- `devices` holds the first `pci_num_devices` devices
pub record PciState (S : Type 0) : Type 0 where
  pub ports : S
  pub devices : List PciDevice

module _ {S : Type 0} (p : Ports S) where
  unfoldable pub pci_read_8 : (id reg : ℕ) → S → ℕ × S
  pci_read_8 id reg s =
      let (value, s1) =
        p.inb (pci_config_data + reg % 4) (p.outl pci_config_addr (config_addr id reg) s) in
      (u8 value, s1)

  unfoldable pub pci_read_16 : (id reg : ℕ) → S → ℕ × S
  pci_read_16 id reg s =
      let (value, s1) =
        p.inw (pci_config_data + reg / 2 % 2 * 2) (p.outl pci_config_addr (config_addr id reg) s) in
      (u16 value, s1)

  unfoldable pub pci_read_32 : (id reg : ℕ) → S → ℕ × S
  pci_read_32 id reg s =
      let (value, s1) =
        p.inl (pci_config_data + reg) (p.outl pci_config_addr (config_addr id reg) s) in
      (u32 value, s1)

  unfoldable pub pci_write_32 : (id reg value : ℕ) → S → S
  pci_write_32 id reg value s =
      p.outl pci_config_data value (p.outl pci_config_addr (config_addr id reg) s)

  -- PCI_BAR_MEM_MASK clears the low 4 bits
  pub pci_bar_size : (id bar : ℕ) → S → ℕ × S
  pci_bar_size id bar s =
      let bar_reg = 0x10 + bar * 4 in
      let (cur_val, s1) = pci_read_32 id bar_reg s in
      let (val, s2) = pci_read_32 id bar_reg (pci_write_32 id bar_reg 0xFFFFFFFF s1) in
      (u32 (2 ^ 32 - val / 16 * 16), pci_write_32 id bar_reg cur_val s2)

  -- one round of the loop of `pci_read_bars` for a `bar` that is not 0: the next index, the entry
  pub read_bar : (id i bar : ℕ) → PciBar → S → ℕ × PciBar × S
  read_bar id i bar b s =
      let set = record b { bar = bar } in
      let (size, sized) = pci_bar_size id i s in
      let (next_bar, s1) = pci_read_32 id (0x10 + (i + 1) * 4) s in
      let (size64, sized64) = pci_bar_size id i s1 in
      if bar % 2 == 1
      then (i + 1, record set { pio_base = bar / 4 * 4 }, s)
      else (if bar / 2 % 4 == 0
          then (i + 1, record set { mmio_base32 = bar / 16 * 16; mmio_size = size }, sized)
          else (if bar / 2 % 4 == 2
              then (let low = record set { mmio_base64 = bar / 16 * 16 } in
                  let high = record low { mmio_base64 = u64 (next_bar * 2 ^ 32) } in
                  (i + 2, record high { mmio_size = size64 }, sized64))
              else (i + 1, set, s)))

  -- The loop of `pci_read_bars`, of at most `pci_max_bars` rounds.
  pub read_bars_from : ℕ → (id i : ℕ) → (ℕ → PciBar) → S → (ℕ → PciBar) × S
  read_bars_from zero id i bars s = (bars, s)
  read_bars_from (suc n) id i bars s =
      let (bar, s1) = pci_read_32 id (0x10 + i * 4) s in
      let (next, b, s2) = read_bar id i bar (bars i) s1 in
      let skipped = read_bars_from n id (i + 1) bars s1 in
      let rest = read_bars_from n id next (update bars i b) s2 in
      if ltb i pci_max_bars then (if bar == 0 then skipped else rest) else (bars, s)

  pub pci_read_bars : PciDevice → S → PciDevice × S
  unfolding read_bars_from
  pci_read_bars d s =
      let id = pci_make_id d.bus d.dev d.func in
      let (bars, s1) = read_bars_from pci_max_bars id 0 d.bars s in
      if d.header_type == 0 then (record d { bars = bars }, s1) else (d, s)

  -- a function that is there: its registers are read in the order of the source
  pub read_device : (bus dev func header_type vendor_id : ℕ) → S → PciDevice × S
  read_device bus dev func header_type vendor_id s =
      let id = pci_make_id bus dev func in
      let (device_id, s1) = pci_read_16 id 0x02 s in
      let (class, s2) = pci_read_8 id 0x0b s1 in
      let (subclass, s3) = pci_read_8 id 0x0a s2 in
      let (prog_intf, s4) = pci_read_8 id 0x09 s3 in
      let (int_line, s5) = pci_read_8 id 0x3c s4 in
      let (int_pin, s6) = pci_read_8 id 0x3d s5 in
      let d : PciDevice = record {
        bus = u8 bus;
        dev = u8 dev;
        func = u8 func;
        header_type = header_type % 2 ^ 7;
        vendor_id = vendor_id;
        device_id = device_id;
        class = class;
        subclass = subclass;
        prog_intf = prog_intf;
        int_line = int_line;
        int_pin = int_pin;
        bars = λ _. no_bar;
      } in
      pci_read_bars d s6

  -- the three loops of `pci_init`: the rounds left, the index
  pub scan_funcs : ℕ → (bus dev func header_type : ℕ) → PciState S → Outcome (PciState S)
  scan_funcs zero bus dev func header_type st = done st
  scan_funcs (suc n) bus dev func header_type st =
      let id = pci_make_id bus dev func in
      let (vendor_id, s1) = pci_read_16 id 0x00 st.ports in
      let (d, s2) = read_device bus dev func header_type vendor_id s1 in
      let absent = scan_funcs n bus dev (func + 1) header_type (record st { ports = s1 }) in
      let present =
        scan_funcs n bus dev (func + 1) header_type
          (record { ports = s2; devices = st.devices ++ (d ∷ []) }) in
      if vendor_id == 0xFFFF
      then absent
      else (if ltb (length st.devices) pci_max_devices then present else undefined)

  pub scan_devs : ℕ → (bus dev : ℕ) → PciState S → Outcome (PciState S)
  scan_devs zero bus dev st = done st
  scan_devs (suc n) bus dev st = do
    let (header_type, s1) = pci_read_8 (pci_make_id bus dev 0) 0x0e st.ports
    let n_func = if ltb header_type 0x80 then 1 else 8
    st1 ← scan_funcs n_func bus dev 0 header_type (record st { ports = s1 })
    scan_devs n bus (dev + 1) st1

  pub scan_buses : ℕ → (bus : ℕ) → PciState S → Outcome (PciState S)
  scan_buses zero bus st = done st
  scan_buses (suc n) bus st = do st1 ← scan_devs 32 bus 0 st; scan_buses n (bus + 1) st1

  pub pci_init : PciState S → Outcome (PciState S)
  pci_init st = scan_buses 256 0 st
