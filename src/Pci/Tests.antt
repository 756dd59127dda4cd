-- ===== src/Pci/Tests.antt =====
-- A machine with a bridge at bus 0, and one in which a function answers everywhere.
use smor.Prelude.{
  ℕ, ◌%◌, ◌^◌, ◌≡◌, refl, ◌==◌, if◌then◌else◌, [], map, length, done, undefined, arith,
}
use smor.Pci.{Ports, PciState, pci_read_32, pci_write_32, pci_init}
use smor.Pci.Address.{address}
use smor.Pci.Scan.{
  Configured, without_bars, buses_of, devs_of, funcs_of, pci_init-Finds, pci_init-undefined,
}

-- A state is the address that was written last and the one base address, which can be written.
abbrev Hardware : Type 0
Hardware = ℕ × ℕ

-- Only the function at bus 0, device 0 answers.
abbrev words : (addr : ℕ) → ℕ
words addr = if addr == 0x80000000 then 0x8086 else 0xffff

abbrev host : (word : (addr : ℕ) → ℕ) → Ports Hardware
host word = record {
  outl = λ port value s.
      if port == 0xcf8 then (value, s.1) else (if s.0 == 0x80000010 then (s.0, value) else s);
  inb = λ port s. (0, s);
  inw = λ port s. (word s.0 % 2 ^ 16, s);
  inl = λ port s. (s.1, s);
}

abbrev no_8 : (bus dev func reg : ℕ) → ℕ
no_8 bus dev func reg = 0

abbrev word_16 : (word : (addr : ℕ) → ℕ) → (bus dev func reg : ℕ) → ℕ
word_16 word bus dev func reg = word (address bus dev func reg) % 2 ^ 16

-- the hardware's state is any
abbrev Any : Hardware → Type 0
Any s = s ≡ s

host-Configured : (word : (addr : ℕ) → ℕ) → Configured (host word) no_8 (word_16 word) Any
host-Configured word = record {
  byte = λ bus dev func reg. omega arith;
  word = λ bus dev func reg. omega arith;
  read_8 = λ bus dev func reg s f known h. ((address bus dev func reg, s.1), refl, refl);
  read_16 = λ bus dev func reg s f known h. ((address bus dev func reg, s.1), refl, refl);
  read_bar = λ bus dev func i s f le h. refl;
  write_bar = λ bus dev func i value s f lt h. refl;
}

-- The base address gives back what was written to it.
bar_written :
    (pci_read_32 (host words) 0 0x10 (pci_write_32 (host words) 0 0x10 0xe0000000 (0, 0))).0
    ≡ 0xe0000000
unfolding pci_read_32 pci_write_32
bar_written = refl

one_function : length (buses_of no_8 (word_16 words) 256 0) ≡ 1
unfolding buses_of devs_of funcs_of
one_function = refl

many_functions : length (buses_of no_8 (word_16 (λ addr. 0x1234)) 256 0) ≡ 8192
unfolding buses_of devs_of funcs_of
many_functions = refl

pci_init-Finds_example :
    (st : PciState Hardware) × (pci_init (host words) (record { ports = (0, 0); devices = [] })
      ≡ done st)
    × (map without_bars st.devices ≡ buses_of no_8 (word_16 words) 256 0)
    × Any st.ports
pci_init-Finds_example =
    pci_init-Finds (host words) no_8 (word_16 words) Any (host-Configured words) (0, 0) refl
      (omega (arith, one_function))

pci_init-undefined_example :
    pci_init (host (λ addr. 0x1234)) (record { ports = (0, 0); devices = [] }) ≡ undefined
pci_init-undefined_example =
    pci_init-undefined (host (λ addr. 0x1234)) no_8 (word_16 (λ addr. 0x1234)) Any
      (host-Configured (λ addr. 0x1234)) (0, 0) refl (omega (arith, many_functions))
