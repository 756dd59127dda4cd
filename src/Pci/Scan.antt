-- ===== src/Pci/Scan.antt =====
-- src/pci.c: which devices `pci_init` finds.
use smor.Prelude.{
  ℕ, zero, suc, ◌+◌, ◌*◌, ◌/◌, ◌%◌, ◌^◌, ◌<◌, ◌≤◌, ◌≡◌, refl, inl, inr, ◌∙◌, sym, ap, ap₂, subst,
  Bool-cases, true, has, ◌==◌, ltb, ltb→lt, update, if◌then◌else◌, List, [], ◌∷◌, ◌++◌, map, length,
  length-append, length-map, Outcome, done, undefined, ◌>>=◌, arith,
}
use mathlib.Core.List.{append_assoc, append-nil, map-append}
use smor.Pci.Address.{address, IsFunction, config_addr-address}
use smor.Pci.{
  Ports, PciBar, PciDevice, PciState, pci_make_id, pci_max_bars, pci_max_devices, no_bar,
  pci_read_8, pci_read_16, pci_read_32, pci_write_32, pci_bar_size, read_bar, read_bars_from,
  pci_read_bars, read_device, scan_funcs, scan_devs, scan_buses, pci_init,
}

-- the registers that identify a function: those of 8 bits, and those of 16 bits
abbrev id_8 : List ℕ
id_8 = 0x09 ∷ 0x0a ∷ 0x0b ∷ 0x0e ∷ 0x3c ∷ 0x3d ∷ []

abbrev id_16 : List ℕ
id_16 = 0x00 ∷ 0x02 ∷ []

-- What the hardware behind the two configuration ports promises, for the states `Holds` in which the
-- registers that identify the functions are those of `config8` and `config16`: once the address of
-- such a register is written, a read of 8 or 16 bits of the data port gives it, and no such read
-- changes these registers. Neither do the reads and writes of the base addresses, whose values are
-- left open: a base address may keep what is written to it.
pub record Configured {S : Type 0} (p : Ports S) (config8 config16 : (bus dev func reg : ℕ) → ℕ)
    (Holds : S → Type 0) : Type 0 where
  pub byte : (bus dev func reg : ℕ) → config8 bus dev func reg < 2 ^ 8
  pub word : (bus dev func reg : ℕ) → config16 bus dev func reg < 2 ^ 16
  pub read_8 :
      (bus dev func reg : ℕ) (s : S)
      → IsFunction bus dev func
      → has reg id_8 ≡ true
      → Holds s
      → (r : S) × (p.inb (0xcfc + reg % 4) (p.outl 0xcf8 (address bus dev func reg) s)
          ≡ (config8 bus dev func reg, r))
        × Holds r
  pub read_16 :
      (bus dev func reg : ℕ) (s : S)
      → IsFunction bus dev func
      → has reg id_16 ≡ true
      → Holds s
      → (r : S) × (p.inw (0xcfc + reg % 4) (p.outl 0xcf8 (address bus dev func reg) s)
          ≡ (config16 bus dev func reg, r))
        × Holds r
  pub read_bar :
      (bus dev func i : ℕ) (s : S)
      → IsFunction bus dev func
      → i ≤ pci_max_bars
      → Holds s
      → Holds
          (p.inl (0xcfc + (0x10 + i * 4)) (p.outl 0xcf8 (address bus dev func (0x10 + i * 4)) s)).1
  pub write_bar :
      (bus dev func i value : ℕ) (s : S)
      → IsFunction bus dev func
      → i < pci_max_bars
      → Holds s
      → Holds (p.outl 0xcfc value (p.outl 0xcf8 (address bus dev func (0x10 + i * 4)) s))

-- a device without its base addresses
abbrev pub without_bars : PciDevice → PciDevice
without_bars d = record d { bars = λ _. no_bar }

module _ (config8 config16 : (bus dev func reg : ℕ) → ℕ) where
  -- the device that the registers of a function describe
  pub described : (bus dev func header_type : ℕ) → PciDevice
  described bus dev func header_type = record {
    bus = bus % 2 ^ 8;
    dev = dev % 2 ^ 8;
    func = func % 2 ^ 8;
    header_type = header_type % 2 ^ 7;
    vendor_id = config16 bus dev func 0;
    device_id = config16 bus dev func 2;
    class = config8 bus dev func 0x0b;
    subclass = config8 bus dev func 0x0a;
    prog_intf = config8 bus dev func 0x09;
    int_line = config8 bus dev func 0x3c;
    int_pin = config8 bus dev func 0x3d;
    bars = λ _. no_bar;
  }

  -- the functions `func` and later of a device that answer, in order
  unfoldable pub funcs_of : ℕ → (bus dev func header_type : ℕ) → List PciDevice
  funcs_of zero bus dev func header_type = []
  funcs_of (suc n) bus dev func header_type =
      let rest = funcs_of n bus dev (func + 1) header_type in
      if config16 bus dev func 0 == 0xFFFF then rest else described bus dev func header_type ∷ rest

  -- a device has eight functions if the top bit of its header type is set, else one
  unfoldable pub devs_of : ℕ → (bus dev : ℕ) → List PciDevice
  devs_of zero bus dev = []
  devs_of (suc n) bus dev =
      let header_type = config8 bus dev 0 0x0e in
      funcs_of (if ltb header_type 0x80 then 1 else 8) bus dev 0 header_type
      ++ devs_of n bus (dev + 1)

  unfoldable pub buses_of : ℕ → (bus : ℕ) → List PciDevice
  buses_of zero bus = []
  buses_of (suc n) bus = devs_of 32 bus 0 ++ buses_of n (bus + 1)

module _ {S : Type 0} (p : Ports S) (config8 config16 : (bus dev func reg : ℕ) → ℕ)
    (Holds : S → Type 0) (c : Configured p config8 config16 Holds) where
  found_8 :
      (bus dev func reg : ℕ) (s : S)
      → IsFunction bus dev func
      → has reg id_8 ≡ true
      → reg < 2 ^ 8
      → Holds s
      → (r : S) × (pci_read_8 p (pci_make_id bus dev func) reg s ≡ (config8 bus dev func reg, r))
        × Holds r
  unfolding pci_read_8
  found_8 bus dev func reg s f known lt holds =
      let (r, e, h) = c.read_8 bus dev func reg s f known holds in
      let small : config8 bus dev func reg % 2 ^ 8 ≡ config8 bus dev func reg =
        omega (arith, c.byte bus dev func reg) in
      (r, rw (config_addr-address bus dev func reg f lt, e, small) refl, h)

  found_16 :
      (bus dev func reg : ℕ) (s : S)
      → IsFunction bus dev func
      → has reg id_16 ≡ true
      → reg < 2 ^ 8
      → reg / 2 % 2 * 2 ≡ reg % 4
      → Holds s
      → (r : S) × (pci_read_16 p (pci_make_id bus dev func) reg s ≡ (config16 bus dev func reg, r))
        × Holds r
  unfolding pci_read_16
  found_16 bus dev func reg s f known lt even holds =
      let (r, e, h) = c.read_16 bus dev func reg s f known holds in
      let small : config16 bus dev func reg % 2 ^ 16 ≡ config16 bus dev func reg =
        omega (arith, c.word bus dev func reg) in
      (r, rw (even, config_addr-address bus dev func reg f lt, e, small) refl, h)

  read_32-Holds :
      (bus dev func i : ℕ) (s : S)
      → IsFunction bus dev func
      → i ≤ pci_max_bars
      → Holds s
      → Holds (pci_read_32 p (pci_make_id bus dev func) (0x10 + i * 4) s).1
  unfolding pci_read_32
  read_32-Holds bus dev func i s f le holds =
      rw (config_addr-address bus dev func (0x10 + i * 4) f (omega (arith, le)))
        (c.read_bar bus dev func i s f le holds)

  write_32-Holds :
      (bus dev func i value : ℕ) (s : S)
      → IsFunction bus dev func
      → i < pci_max_bars
      → Holds s
      → Holds (pci_write_32 p (pci_make_id bus dev func) (0x10 + i * 4) value s)
  unfolding pci_write_32
  write_32-Holds bus dev func i value s f lt holds =
      rw (pci_write_32, config_addr-address bus dev func (0x10 + i * 4) f (omega (arith, lt)))
        (c.write_bar bus dev func i value s f lt holds)

  module _ (bus dev func : ℕ) (f : IsFunction bus dev func) where
    bar_size-Holds :
        (i : ℕ) (s : S)
        → i < pci_max_bars
        → Holds s
        → Holds (pci_bar_size p (pci_make_id bus dev func) i s).1
    unfolding pci_bar_size
    bar_size-Holds i s h holds =
        let le : i ≤ pci_max_bars = omega (arith, h) in
        let r1 = read_32-Holds bus dev func i s f le holds in
        let w1 = write_32-Holds bus dev func i 0xFFFFFFFF _ f h r1 in
        write_32-Holds bus dev func i _ _ f h (read_32-Holds bus dev func i _ f le w1)

    read_bar-Holds :
        (i bar : ℕ) (b : PciBar) (s : S)
        → i < pci_max_bars
        → Holds s
        → Holds (read_bar p (pci_make_id bus dev func) i bar b s).2
    unfolding read_bar
    read_bar-Holds i bar b s h holds = elim (Bool-cases (bar % 2 == 1)) [
      | inl io ↦ rw io holds
      | inr mem ↦ elim (Bool-cases (bar / 2 % 4 == 0)) [
        | inl low ↦ rw (mem, low) (bar_size-Holds i s h holds)
        | inr high ↦ elim (Bool-cases (bar / 2 % 4 == 2)) [
          | inl wide ↦
              rw (mem, high, wide)
                (bar_size-Holds i _ h
                  (read_32-Holds bus dev func (i + 1) s f (omega (arith, h)) holds))
          | inr none ↦ rw (mem, high, none) holds
        ]
      ]
    ]

    read_bars_from-Holds :
        (n i : ℕ) (bars : ℕ → PciBar) (s : S)
        → Holds s
        → Holds (read_bars_from p n (pci_make_id bus dev func) i bars s).1
    unfolding read_bars_from
    read_bars_from-Holds zero i bars s holds = holds
    read_bars_from-Holds (suc n) i bars s holds =
        let id = pci_make_id bus dev func in
        let bar = (pci_read_32 p id (0x10 + i * 4) s).0 in
        let s1 = (pci_read_32 p id (0x10 + i * 4) s).1 in
        let (next, b, s2) = read_bar p id i bar (bars i) s1 in
        elim (Bool-cases (ltb i pci_max_bars)) [
          | inl more ↦
              let lt = ltb→lt i pci_max_bars more in
              let holds1 = read_32-Holds bus dev func i s f (omega (arith, lt)) holds in
              elim (Bool-cases (bar == 0)) [
                | inl skip ↦ rw (more, skip) (read_bars_from-Holds n (i + 1) bars s1 holds1)
                | inr set ↦
                    rw (more, set)
                      (read_bars_from-Holds n next (update bars i b) s2
                        (read_bar-Holds i bar (bars i) s1 lt holds1))
              ]
          | inr stop ↦ rw stop holds
        ]

  read_bars-Keeps :
      (d : PciDevice) (s : S)
      → IsFunction d.bus d.dev d.func
      → Holds s
      → (d' : PciDevice) × (s' : S) × (pci_read_bars p d s ≡ (d', s'))
        × (without_bars d' ≡ without_bars d)
        × Holds s'
  unfolding pci_read_bars
  read_bars-Keeps d s f holds =
      let id = pci_make_id d.bus d.dev d.func in
      let r = read_bars_from p pci_max_bars id 0 d.bars s in
      elim (Bool-cases (d.header_type == 0)) [
        | inl generic ↦ (
          record d { bars = r.0 },
          r.1,
          rw generic refl,
          refl,
          read_bars_from-Holds d.bus d.dev d.func f pci_max_bars 0 d.bars s holds,
        )
        | inr other ↦ (d, s, rw other refl, refl, holds)
      ]

  read_device-described :
      (bus dev func header_type : ℕ) (s : S)
      → IsFunction bus dev func
      → Holds s
      → (d : PciDevice) × (s' : S) × (read_device p bus dev func header_type
            (config16 bus dev func 0)
            s
          ≡ (d, s'))
        × (without_bars d ≡ described config8 config16 bus dev func header_type)
        × Holds s'
  unfolding read_device described
  read_device-described bus dev func header_type s f holds =
      let (s1, e1, h1) = found_16 bus dev func 0x02 s f refl (omega arith) refl holds in
      let (s2, e2, h2) = found_8 bus dev func 0x0b s1 f refl (omega arith) h1 in
      let (s3, e3, h3) = found_8 bus dev func 0x0a s2 f refl (omega arith) h2 in
      let (s4, e4, h4) = found_8 bus dev func 0x09 s3 f refl (omega arith) h3 in
      let (s5, e5, h5) = found_8 bus dev func 0x3c s4 f refl (omega arith) h4 in
      let (s6, e6, h6) = found_8 bus dev func 0x3d s5 f refl (omega arith) h5 in
      let low : IsFunction (bus % 2 ^ 8) (dev % 2 ^ 8) (func % 2 ^ 8) =
        (omega arith, omega (arith, f.1), omega (arith, f.2)) in
      let (d, s7, e7, same, h7) =
        read_bars-Keeps (described config8 config16 bus dev func header_type) s6 low h6 in
      (d, s7, rw (e1, e2, e3, e4, e5, e6) e7, same, h7)

  -- what a loop does that ends with the devices `all`: past the size of the array it is undefined
  abbrev Finds : (out : Outcome (PciState S)) (all : List PciDevice) → Type 0
  Finds out all =
      (length all ≤ pci_max_devices
        → (st : PciState S) × (out ≡ done st)
          × (map without_bars st.devices ≡ all)
          × Holds st.ports)
      × (pci_max_devices < length all → out ≡ undefined)

  Finds->>= :
      (out : Outcome (PciState S)) (k : PciState S → Outcome (PciState S))
      (found rest : List PciDevice)
      → Finds out found
      → ((st : PciState S)
          → map without_bars st.devices ≡ found
          → length found ≤ pci_max_devices
          → Holds st.ports
          → Finds (k st) (found ++ rest))
      → Finds (out >>= k) (found ++ rest)
  Finds->>= out k found rest (ends, overflows) next =
      elim (Bool-cases (ltb pci_max_devices (length found))) [
        | inl over ↦
            let gt = ltb→lt pci_max_devices (length found) over in
            (
              λ le. absurd (omega (arith, gt, le, length-append found rest)),
              λ _. rw (overflows gt) refl,
            )
        | inr within ↦
            let le : length found ≤ pci_max_devices = ground (arith, within) in
            let (st, run, same, holds) = ends le in rw run (next st same le holds)
      ]

  Finds-none :
      (st : PciState S) (found : List PciDevice)
      → map without_bars st.devices ≡ found
      → Holds st.ports
      → length found ≤ pci_max_devices
      → Finds (done st) (found ++ [])
  Finds-none st found same holds le =
      rw (append-nil found)
        ((λ _. (st, refl, same, holds), λ over. absurd (omega (arith, over, le))))

  length-devices :
      (ds found : List PciDevice) → map without_bars ds ≡ found → length ds ≡ length found
  length-devices ds found same = sym (length-map ds without_bars) ∙ ap length same

  scan_funcs-Finds :
      (n bus dev func header_type : ℕ) (st : PciState S) (found : List PciDevice)
      → bus < 2 ^ 8
      → dev < 2 ^ 5
      → n + func ≤ 2 ^ 3
      → map without_bars st.devices ≡ found
      → length found ≤ pci_max_devices
      → Holds st.ports
      → Finds
          (scan_funcs p n bus dev func header_type st)
          (found ++ funcs_of config8 config16 n bus dev func header_type)
  unfolding scan_funcs funcs_of
  scan_funcs-Finds zero bus dev func header_type st found b v u same le holds =
      Finds-none st found same holds le
  scan_funcs-Finds (suc n) bus dev func header_type st found b v u same le holds =
      let f : IsFunction bus dev func = (b, v, omega (arith, u)) in
      let u1 : n + (func + 1) ≤ 2 ^ 3 = omega (arith, u) in
      let desc = described config8 config16 bus dev func header_type in
      let rest = funcs_of config8 config16 n bus dev (func + 1) header_type in
      let (s1, e1, h1) = found_16 bus dev func 0x00 st.ports f refl (omega arith) refl holds in
      let (d, s2, e2, is_desc, h2) = read_device-described bus dev func header_type s1 f h1 in
      let count = length-devices st.devices found same in
      elim (Bool-cases (config16 bus dev func 0 == 0xFFFF)) [
        | inl absent ↦
            rw (e1, absent)
              (scan_funcs-Finds n bus dev (func + 1) header_type (record st { ports = s1 }) found b
                v u1 same le h1)
        | inr present ↦ elim (Bool-cases (ltb (length st.devices) pci_max_devices)) [
          | inl room ↦
              let lt = ltb→lt (length st.devices) pci_max_devices room in
              let one = desc ∷ [] in
              let next =
                scan_funcs-Finds n bus dev (func + 1) header_type
                  (record { ports = s2; devices = st.devices ++ (d ∷ []) }) (found ++ one) b v u1
                  (map-append without_bars st.devices (d ∷ [])
                    ∙ ap₂ (λ l x. l ++ (x ∷ [])) same is_desc)
                  (omega (arith, length-append found one, count, lt)) h2 in
              rw (e1, e2, present, room) (subst (Finds _) (append_assoc found one rest) next)
          | inr full ↦
              let ge : pci_max_devices ≤ length st.devices = ground (arith, full) in
              rw (e1, e2, present, full)
                (
                  λ fits.
                      absurd (omega (arith, length-append found (desc ∷ rest), count, ge, fits)),
                  λ _. refl,
                )
        ]
      ]

  scan_devs-Finds :
      (n bus dev : ℕ) (st : PciState S) (found : List PciDevice)
      → bus < 2 ^ 8
      → n + dev ≤ 2 ^ 5
      → map without_bars st.devices ≡ found
      → length found ≤ pci_max_devices
      → Holds st.ports
      → Finds (scan_devs p n bus dev st) (found ++ devs_of config8 config16 n bus dev)
  unfolding scan_devs devs_of
  scan_devs-Finds zero bus dev st found b v same le holds = Finds-none st found same holds le
  scan_devs-Finds (suc n) bus dev st found b v same le holds =
      let v0 : dev < 2 ^ 5 = omega (arith, v) in
      let v1 : n + (dev + 1) ≤ 2 ^ 5 = omega (arith, v) in
      let f : IsFunction bus dev 0 = (b, v0, omega arith) in
      let (s1, e1, h1) = found_8 bus dev 0 0x0e st.ports f refl (omega arith) holds in
      let header_type = config8 bus dev 0 0x0e in
      let n_func = if ltb header_type 0x80 then 1 else 8 in
      let funcs = funcs_of config8 config16 n_func bus dev 0 header_type in
      let rest = devs_of config8 config16 n bus (dev + 1) in
      let first =
        scan_funcs-Finds n_func bus dev 0 header_type (record st { ports = s1 }) found b v0
          (ground arith) same le h1 in
      rw (e1, sym (append_assoc found funcs rest))
        (Finds->>= (scan_funcs p n_func bus dev 0 header_type (record st { ports = s1 }))
          (scan_devs p n bus (dev + 1)) (found ++ funcs) rest first
          (λ st1 same1 le1 holds1.
            scan_devs-Finds n bus (dev + 1) st1 (found ++ funcs) b v1 same1 le1 holds1))

  scan_buses-Finds :
      (n bus : ℕ) (st : PciState S) (found : List PciDevice)
      → n + bus ≤ 2 ^ 8
      → map without_bars st.devices ≡ found
      → length found ≤ pci_max_devices
      → Holds st.ports
      → Finds (scan_buses p n bus st) (found ++ buses_of config8 config16 n bus)
  unfolding scan_buses buses_of
  scan_buses-Finds zero bus st found b same le holds = Finds-none st found same holds le
  scan_buses-Finds (suc n) bus st found b same le holds =
      let devs = devs_of config8 config16 32 bus 0 in
      let rest = buses_of config8 config16 n (bus + 1) in
      rw (sym (append_assoc found devs rest)) (
        Finds->>= (scan_devs p 32 bus 0 st) (scan_buses p n (bus + 1)) (found ++ devs) rest
          (scan_devs-Finds 32 bus 0 st found (omega (arith, b)) (omega arith) same le holds)
          (λ st1 same1 le1 holds1.
            scan_buses-Finds n (bus + 1) st1 (found ++ devs) (omega (arith, b)) same1 le1 holds1))

  -- From no devices, on hardware that keeps the registers that identify its functions, and if the
  -- functions that answer on the 256 buses fit into the array, `pci_init` ends with exactly these
  -- functions, in the order of bus, device and function, each with the numbers, the classes and the
  -- interrupt that its registers give. Nothing is said of the base addresses.
  pub pci_init-Finds :
      (s : S)
      → Holds s
      → length (buses_of config8 config16 256 0) ≤ pci_max_devices
      → (st : PciState S) × (pci_init p (record { ports = s; devices = [] }) ≡ done st)
        × (map without_bars st.devices ≡ buses_of config8 config16 256 0)
        × Holds st.ports
  unfolding pci_init
  pci_init-Finds s holds fits =
      (scan_buses-Finds 256 0 (record { ports = s; devices = [] }) [] (omega arith) refl
          (omega arith) holds).0
        fits

  -- From no devices, on hardware that keeps the registers that identify its functions, and if more
  -- functions answer than the array has room for, `pci_init` writes past the array, and the behaviour
  -- is undefined.
  pub pci_init-undefined :
      (s : S)
      → Holds s
      → pci_max_devices < length (buses_of config8 config16 256 0)
      → pci_init p (record { ports = s; devices = [] }) ≡ undefined
  unfolding pci_init
  pci_init-undefined s holds over =
      (scan_buses-Finds 256 0 (record { ports = s; devices = [] }) [] (omega arith) refl
          (omega arith) holds).1
        over
