-- ===== src/Acpi/Madt.antt =====
-- src/acpi.c, acpi_parse_madt: the processors and the overrides of interrupts.
use smor.Prelude.{
  ℕ, zero, suc, ◌+◌, ◌%◌, ◌^◌, ◌≤◌, ◌<◌, ◌≡◌, ◌≢◌, refl, sym, ap, subst, ◌∙◌, inl, inr, false, ◌==◌,
  ne→==, lt→ltb, le→ltb, if◌then◌else◌, List, [], ◌∷◌, ◌++◌, append-nil, append-snoc, length,
  length-append, get_or, update, done, arith, Bool-cases,
}
use smor.Bytes.{read8, read32}
use smor.IoApic.{IoApicIovr, IoApic, max_io_apic_iovr, io_apic_add_iovr, io_apic_register}
use smor.LocalApic.{LocalApicCpu, max_cpus, local_apic_add_cpu}
use smor.Acpi.{Apics, parse_apic, parse_apics}

-- from `ptr` up to `stop` the entries lie at the addresses `es`, each behind the length of the one
-- before
abbrev pub AreApics : (mem : ℕ → ℕ) → (ptr stop : ℕ) → List ℕ → Type 0
AreApics mem ptr stop [] = stop ≤ ptr
AreApics mem ptr stop (e ∷ es) =
    (e ≡ ptr) × (ptr < stop) × AreApics mem (ptr + read8 mem (ptr + 1)) stop es

-- the processors that the entries name, in order
unfoldable pub apic_ids : (mem : ℕ → ℕ) → List ℕ → List ℕ
apic_ids mem [] = []
apic_ids mem (e ∷ es) =
    let rest = apic_ids mem es in if read8 mem e == 0 then read8 mem (e + 3) ∷ rest else rest

-- the overrides, in order
unfoldable pub overrides : (mem : ℕ → ℕ) → List ℕ → List IoApicIovr
overrides mem [] = []
overrides mem (e ∷ es) =
    let rest = overrides mem es in
    let v : IoApicIovr = record {
      bus = read8 mem (e + 2);
      irq = read8 mem (e + 3);
      gsi = read32 mem (e + 4);
    } in
    if read8 mem e == 2 then v ∷ rest else rest

-- `a'` is `a` with the processors `ids` and the overrides `vs`
pub record Registers (ids : List ℕ) (vs : List IoApicIovr) (a a' : Apics) : Type 0 where
  pub count : a'.local.num_cpus ≡ a.local.num_cpus + length ids
  pub cpus :
      (i : ℕ) → i < length ids → (a'.local.cpus (a.local.num_cpus + i)).apic_id ≡ get_or ids i 0
  pub before : (j : ℕ) → j < a.local.num_cpus → a'.local.cpus j ≡ a.local.cpus j
  pub iovr : a'.io.iovr ≡ a.io.iovr ++ vs

Registers-nothing : (a : Apics) → Registers [] [] a a
Registers-nothing a = record {
  count = omega arith;
  cpus = λ i h. absurd (omega arith);
  before = λ j h. refl;
  iovr = sym (append-nil a.io.iovr);
}

abbrev with_cpu : (id : ℕ) → Apics → Apics
with_cpu id a = record a {
  local = record (a.local) {
    num_cpus = a.local.num_cpus + 1;
    cpus = update a.local.cpus a.local.num_cpus (record { apic_id = id % 2 ^ 8; flags = 0 });
  };
}

Registers-cpu :
    (id : ℕ) (ids : List ℕ) (vs : List IoApicIovr) (a a' : Apics)
    → id < 2 ^ 8
    → Registers ids vs (with_cpu id a) a'
    → Registers (id ∷ ids) vs a a'
Registers-cpu id ids vs a a' small r = record {
  count = omega (arith, r.count);
  cpus = all;
  before = λ j h. r.before j (omega arith) ∙ ground arith;
  iovr = r.iovr;
}
  where
    all :
        (i : ℕ)
        → i < suc (length ids)
        → (a'.local.cpus (a.local.num_cpus + i)).apic_id ≡ get_or (id ∷ ids) i 0
    all zero h =
        ap (λ j. (a'.local.cpus j).apic_id) (omega arith)
        ∙ ap (λ (c : LocalApicCpu). c.apic_id) (r.before a.local.num_cpus (omega arith))
        ∙ ground arith
    all (suc i) h = ap (λ j. (a'.local.cpus j).apic_id) (omega arith) ∙ r.cpus i (omega arith)

abbrev with_override : IoApicIovr → Apics → Apics
with_override v a = record a { io = record (a.io) { iovr = a.io.iovr ++ (v ∷ []) } }

Registers-override :
    (v : IoApicIovr) (ids : List ℕ) (vs : List IoApicIovr) (a a' : Apics)
    → Registers ids vs (with_override v a) a'
    → Registers ids (v ∷ vs) a a'
Registers-override v ids vs a a' r = record {
  count = r.count;
  cpus = r.cpus;
  before = r.before;
  iovr = r.iovr ∙ append-snoc a.io.iovr v vs;
}

Registers-io :
    (io : IoApic) (ids : List ℕ) (vs : List IoApicIovr) (a a' : Apics)
    → io.iovr ≡ a.io.iovr
    → Registers ids vs (record a { io = io }) a'
    → Registers ids vs a a'
Registers-io io ids vs a a' same r = record {
  count = r.count;
  cpus = r.cpus;
  before = r.before;
  iovr = r.iovr ∙ ap (λ l. l ++ vs) same;
}

still_room :
    {l : List IoApicIovr} (n : ℕ) (io : IoApic)
    → io.iovr ≡ l
    → length l + n ≤ max_io_apic_iovr
    → length io.iovr + n ≤ max_io_apic_iovr
still_room n io same h = subst (λ k. length k + n ≤ max_io_apic_iovr) (sym same) h

-- the four kinds of entry
module _ (mem : ℕ → ℕ) (e : ℕ) (a : Apics) where
  parse-cpu :
      read8 mem e ≡ 0
      → a.local.num_cpus < max_cpus
      → parse_apic mem e a ≡ done (with_cpu (read8 mem (e + 3)) a)
  unfolding parse_apic local_apic_add_cpu
  parse-cpu t h = rw (t, lt→ltb a.local.num_cpus max_cpus h) refl

  parse-override :
      read8 mem e ≡ 2
      → length a.io.iovr < max_io_apic_iovr
      → parse_apic mem e a
        ≡ done (
            with_override
              (record {
                bus = read8 mem (e + 2);
                irq = read8 mem (e + 3);
                gsi = read32 mem (e + 4);
              })
              a)
  unfolding parse_apic io_apic_add_iovr
  parse-override t h = rw (t, lt→ltb (length a.io.iovr) max_io_apic_iovr h) refl

  parse-other :
      read8 mem e ≢ 0
      → read8 mem e ≢ 2
      → (io : IoApic) × (io.iovr ≡ a.io.iovr) × (parse_apic mem e a ≡ done (record a { io = io }))
  unfolding parse_apic io_apic_register
  parse-other n0 n2 = elim (Bool-cases (read8 mem e == 1)) [
    | inl one ↦ (
      io_apic_register (read32 mem (e + 4)) (read32 mem (e + 8)) a.io,
      refl,
      rw (ne→== (read8 mem e) 0 n0, one) refl,
    )
    | inr more ↦ (a.io, refl, rw (ne→== (read8 mem e) 0 n0, more, ne→== (read8 mem e) 2 n2) refl)
  ]

one_entry :
    (fuel : ℕ) (mem : ℕ → ℕ) (ptr stop e : ℕ) (a a1 a' : Apics)
    → e ≡ ptr
    → ptr < stop
    → parse_apic mem e a ≡ done a1
    → parse_apics fuel mem (ptr + read8 mem (ptr + 1)) stop a1 ≡ done a'
    → parse_apics (suc fuel) mem ptr stop a ≡ done a'
unfolding parse_apics
one_entry fuel mem ptr stop e a a1 a' at lt run rest =
    rw (lt→ltb ptr stop lt, subst (λ x. parse_apic mem x a ≡ done a1) at run) rest

-- The entries of the table are handled one after another: the processors and the overrides that they
-- name are registered in order, if there is room for them.
pub parse_apics-Registers :
    (fuel : ℕ) (mem : ℕ → ℕ) (ptr stop : ℕ) (es : List ℕ) (a : Apics)
    → AreApics mem ptr stop es
    → length es < fuel
    → a.local.num_cpus + length (apic_ids mem es) ≤ max_cpus
    → length a.io.iovr + length (overrides mem es) ≤ max_io_apic_iovr
    → (a' : Apics) × (parse_apics fuel mem ptr stop a ≡ done a')
      × Registers (apic_ids mem es) (overrides mem es) a a'
unfolding parse_apics apic_ids overrides
parse_apics-Registers zero mem ptr stop es a are lt cpus ovr = absurd (omega arith)
parse_apics-Registers (suc fuel) mem ptr stop [] a are lt cpus ovr =
    (a, rw (le→ltb ptr stop are) refl, Registers-nothing a)
parse_apics-Registers (suc fuel) mem ptr stop (e ∷ es) a are lt cpus ovr =
    elim (Bool-cases (read8 mem e == 0)) [
      | inl cpu ↦
          (let not_two : (read8 mem e == 2) ≡ false = ground arith in
            let id = read8 mem (e + 3) in
            let (a', run, r) =
              parse_apics-Registers fuel mem (ptr + read8 mem (ptr + 1)) stop es (with_cpu id a)
                (are.2) (omega arith) (ground arith) (ground arith) in
            (
              a',
              one_entry fuel mem ptr stop e a (with_cpu id a) a' (are.0) (are.1)
                  (parse-cpu mem e a (ground arith) (ground arith)) run,
              rw (cpu, not_two)
                  (Registers-cpu id (apic_ids mem es) (overrides mem es) a a' (omega arith) r),
            ))
      | inr not_cpu ↦ elim (Bool-cases (read8 mem e == 2)) [
        | inl two ↦
            (let v : IoApicIovr = record {
              bus = read8 mem (e + 2);
              irq = read8 mem (e + 3);
              gsi = read32 mem (e + 4);
            } in
              let (a', run, r) =
                parse_apics-Registers fuel mem (ptr + read8 mem (ptr + 1)) stop es
                  (with_override v a) (are.2) (omega arith) (ground arith)
                  (ground (arith, length-append a.io.iovr (v ∷ []))) in
              (
                a',
                one_entry fuel mem ptr stop e a (with_override v a) a' (are.0) (are.1)
                    (parse-override mem e a (ground arith) (ground arith)) run,
                rw (not_cpu, two)
                    (Registers-override v (apic_ids mem es) (overrides mem es) a a' r),
              ))
        | inr other ↦
            (let (io, same, this) = parse-other mem e a (ground arith) (ground arith) in
              let (a', run, r) =
                parse_apics-Registers fuel mem (ptr + read8 mem (ptr + 1)) stop es
                  (record a { io = io }) (are.2) (omega arith) (ground arith)
                  (still_room (length (overrides mem es)) io same (ground arith)) in
              (
                a',
                one_entry fuel mem ptr stop e a (record a { io = io }) a' (are.0) (are.1) this run,
                rw (not_cpu, other)
                    (Registers-io io (apic_ids mem es) (overrides mem es) a a' same r),
              ))
      ]
    ]
