-- ===== src/Pci/Address.antt =====
-- src/pci.c, PCI_MAKE_ID and the address that `pci_read_8` and the others write: its bit fields.
use Prim.Native.Nat.{bit_or}
use smor.Prelude.{ℕ, ◌+◌, ◌*◌, ◌/◌, ◌%◌, ◌^◌, ◌<◌, ◌≡◌, arith, bit_or_add}
use smor.Pci.{pci_make_id, config_addr}

-- The address of a register in the configuration mechanism of the bus: the bit 31, then the bus, the
-- device, the function and the register's double word.
abbrev pub address : (bus dev func reg : ℕ) → ℕ
address bus dev func reg = 2 ^ 31 + bus * 2 ^ 16 + dev * 2 ^ 11 + func * 2 ^ 8 + reg / 4 * 4

-- a bus, a device and a function in the range of their fields
abbrev pub IsFunction : (bus dev func : ℕ) → Type 0
IsFunction bus dev func = (bus < 2 ^ 8) × (dev < 2 ^ 5) × (func < 2 ^ 3)

or_fields : (k c b x : ℕ) → b < 2 ^ k → x ≡ 2 ^ k * c → bit_or x b ≡ x + b
or_fields k c b x h e = rw e (bit_or_add k c b h)

make_id_lem :
    (bus dev func : ℕ)
    → IsFunction bus dev func
    → pci_make_id bus dev func ≡ bus * 2 ^ 16 + dev * 2 ^ 11 + func * 2 ^ 8
make_id_lem bus dev func (b, d, f) =
    let high : bit_or (bus * 2 ^ 16) (dev * 2 ^ 11) ≡ bus * 2 ^ 16 + dev * 2 ^ 11 =
      or_fields 16 bus (dev * 2 ^ 11) (bus * 2 ^ 16) (omega (arith, d)) (omega arith) in
    rw high (
      or_fields 11 (bus * 32 + dev) (func * 2 ^ 8) (bus * 2 ^ 16 + dev * 2 ^ 11) (omega (arith, f))
        (omega arith))

pub config_addr-address :
    (bus dev func reg : ℕ)
    → IsFunction bus dev func
    → reg < 2 ^ 8
    → config_addr (pci_make_id bus dev func) reg ≡ address bus dev func reg
config_addr-address bus dev func reg (b, d, f) r =
    let id = bus * 2 ^ 16 + dev * 2 ^ 11 + func * 2 ^ 8 in
    let top : bit_or 0x80000000 id ≡ 0x80000000 + id =
      or_fields 31 1 id 0x80000000 (omega (arith, b, d, f)) (omega arith) in
    let low : bit_or (0x80000000 + id) (reg / 4 * 4) ≡ 0x80000000 + id + reg / 4 * 4 =
      or_fields 8 (2 ^ 23 + bus * 2 ^ 8 + dev * 2 ^ 3 + func) (reg / 4 * 4) (0x80000000 + id)
        (omega (arith, r)) (omega arith) in
    let whole : reg % 2 ^ 8 ≡ reg = omega (arith, r) in
    rw (whole, make_id_lem bus dev func (b, d, f), top, low) (omega arith)
