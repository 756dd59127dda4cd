-- ===== src/Smp/Mask.antt =====
-- src/cpu.c: the loops of `cpu_smp_init` over the processors, and the mask that the first one collects.
use Prim.Native.Nat.{bit_or}
use smor.Prelude.{
  ℕ, zero, suc, ◌+◌, ◌*◌, ◌^◌, ◌<◌, ◌≤◌, ◌≡◌, ◌≢◌, ◌↔◌, ◌⊎◌, inl, inr, refl, ◌∙◌, sym, ap, subst,
  Bool, true, false, ◌==◌, if◌then◌else◌, arith, digit, digit-or, digit-mod, digit-pow_same,
  digit-pow_ne, digit_le, u8, u32, done, List, [], ◌∷◌, ◌++◌, lt→ltb, Bool-cases, eq_of_test,
}
use mathlib.Core.List.{append_assoc}
use smor.LocalApic.{
  lapic_icrlo, lapic_icrhi, LocalApicCpu, send_command, local_apic_ipi_init, local_apic_ipi_start,
}
use smor.Smp.{System, add_others, send_start, init_others, start_others, send_init}

abbrev pub add_bit : (mask apic_id : ℕ) → ℕ
add_bit mask apic_id = u8 (bit_or mask (2 ^ apic_id))

add_bit-digit_same : (mask apic_id k : ℕ) → k < 8 → apic_id ≡ k → digit (add_bit mask apic_id) k ≡ 1
add_bit-digit_same mask apic_id k h same =
    let at : digit (2 ^ apic_id) k ≡ 1 = rw same (digit-pow_same k) in
    let upper = digit_le k mask in
    omega (arith, digit-mod 8 k (bit_or mask (2 ^ apic_id)) h, digit-or k mask (2 ^ apic_id))

add_bit-digit_ne :
    (mask apic_id k : ℕ) → k < 8 → apic_id ≢ k → digit (add_bit mask apic_id) k ≡ digit mask k
add_bit-digit_ne mask apic_id k h ne =
    let at : digit (2 ^ apic_id) k ≡ 0 = digit-pow_ne k apic_id ne in
    omega (arith, digit-mod 8 k (bit_or mask (2 ^ apic_id)) h, digit-or k mask (2 ^ apic_id))

-- a processor at `i` or one of the `n - 1` next places of the table has the identifier `k`
abbrev pub Names : (cpus : ℕ → LocalApicCpu) → (i n k : ℕ) → Type 0
Names cpus i n k = (j : ℕ) × (i ≤ j) × (j < i + n) × ((cpus j).apic_id ≡ k)

Names-zero : (cpus : ℕ → LocalApicCpu) (i k : ℕ) → Names cpus i zero k → ⊥
Names-zero cpus i k (j, low, high, e) = omega (arith, low, high)

Names-tail : (cpus : ℕ → LocalApicCpu) (i n k : ℕ) → Names cpus (i + 1) n k → Names cpus i (suc n) k
Names-tail cpus i n k (j, low, high, e) = (j, omega (arith, low), omega (arith, high), e)

Names-head :
    (cpus : ℕ → LocalApicCpu) (i n k : ℕ)
    → Names cpus i (suc n) k
    → ((cpus i).apic_id ≡ k) ⊎ Names cpus (i + 1) n k
Names-head cpus i n k (j, low, high, e) = elim (Bool-cases (j == i)) [
  | inl same ↦ inl (rw⁻¹ (eq_of_test j i same) e)
  | inr ne ↦ inr (j, ground (arith, low, ne), omega (arith, high), e)
]

add_bit-adds :
    (mask apic_id k : ℕ)
    → k < 8
    → (digit (add_bit mask apic_id) k ≡ 1) ↔ ((digit mask k ≡ 1) ⊎ (apic_id ≡ k))
add_bit-adds mask apic_id k h = elim (Bool-cases (apic_id == k)) [
  | inl this ↦
      let e = eq_of_test apic_id k this in (λ _. inr e, λ _. add_bit-digit_same mask apic_id k h e)
  | inr ne ↦
      let absent : apic_id ≢ k = λ e. ground (arith, ne, e) in
      let same = add_bit-digit_ne mask apic_id k h absent in
      (λ e. inl (sym same ∙ e), elim [ inl e ↦ same ∙ e | inr e ↦ absurd (absent e) ])
]

-- one round of the loop for a processor
adds :
    (mask apic_id bsp k : ℕ)
    → k < 8
    → (bsp ≡ k → digit mask k ≡ 1)
    → (digit (if apic_id == bsp then mask else add_bit mask apic_id) k ≡ 1)
      ↔ ((digit mask k ≡ 1) ⊎ (apic_id ≡ k))
adds mask apic_id bsp k h own = elim (Bool-cases (apic_id == bsp)) [
  | inl same ↦
      let id = eq_of_test apic_id bsp same in
      rw same (λ e. inl e, elim [ inl e ↦ e | inr e ↦ own (sym id ∙ e) ])
  | inr other ↦ rw other (add_bit-adds mask apic_id k h)
]

-- what the loops and the waiting leave as it is; writes are only added
pub record Keeps (s s' : System) : Type 0 where
  pub same_cpus : s'.local.cpus ≡ s.local.cpus
  pub same_count : s'.local.num_cpus ≡ s.local.num_cpus
  pub same_io : s'.io ≡ s.io
  pub same_intr : s'.intr ≡ s.intr
  pub same_boot : s'.boot_ap ≡ s.boot_ap
  pub later : (new : List (ℕ × ℕ)) × (s'.local.written ≡ new ++ s.local.written)

pub Keeps-refl : (s : System) → Keeps s s
Keeps-refl s = record {
  same_cpus = refl;
  same_count = refl;
  same_io = refl;
  same_intr = refl;
  same_boot = refl;
  later = ([], refl);
}

later_trans :
    (a b c : List (ℕ × ℕ))
    → (new : List (ℕ × ℕ)) × (b ≡ new ++ a)
    → (new : List (ℕ × ℕ)) × (c ≡ new ++ b)
    → (new : List (ℕ × ℕ)) × (c ≡ new ++ a)
later_trans a b c (x, e) (y, f) = (y ++ x, f ∙ ap (λ l. y ++ l) e ∙ sym (append_assoc y x a))

pub Keeps-trans : (a b c : System) → Keeps a b → Keeps b c → Keeps a c
Keeps-trans a b c h k = record {
  same_cpus = k.same_cpus ∙ h.same_cpus;
  same_count = k.same_count ∙ h.same_count;
  same_io = k.same_io ∙ h.same_io;
  same_intr = k.same_intr ∙ h.same_intr;
  same_boot = k.same_boot ∙ h.same_boot;
  later = later_trans a.local.written b.local.written c.local.written h.later k.later;
}

pub init-Keeps :
    (own : Bool) (apic_id : ℕ) (s : System) → Keeps s (if own then s else send_init apic_id s)
unfolding local_apic_ipi_init send_command
init-Keeps true apic_id s = Keeps-refl s
init-Keeps false apic_id s = record {
  same_cpus = refl;
  same_count = refl;
  same_io = refl;
  same_intr = refl;
  same_boot = refl;
  later = ((lapic_icrlo, 0x4500) ∷ (lapic_icrhi, u32 (apic_id * 2 ^ 24)) ∷ [], refl);
}

pub start-Keeps :
    (own : Bool) (apic_id : ℕ) (s : System) → Keeps s (if own then s else send_start apic_id s)
unfolding local_apic_ipi_start send_command
start-Keeps true apic_id s = Keeps-refl s
start-Keeps false apic_id s = record {
  same_cpus = refl;
  same_count = refl;
  same_io = refl;
  same_intr = refl;
  same_boot = refl;
  later = ((lapic_icrlo, 0x4608) ∷ (lapic_icrhi, u32 (apic_id * 2 ^ 24)) ∷ [], refl);
}

-- the loop `init_others` of processors whose bits are there
abbrev pub collect : ℕ → (i bsp mask : ℕ) → System → ℕ × System
collect zero i bsp mask s = (mask, s)
collect (suc n) i bsp mask s =
    let apic_id = (s.local.cpus i).apic_id in
    let own = apic_id == bsp in
    collect n (i + 1) bsp (if own then mask else add_bit mask apic_id)
      (if own then s else send_init apic_id s)

-- the identifiers of `n` places of the table from `i` on are below the bits of an int
abbrev pub Small : (cpus : ℕ → LocalApicCpu) → (i n : ℕ) → Type 0
Small cpus i n = (j : ℕ) → i ≤ j → j < i + n → (cpus j).apic_id < 31

pub Small-tail : (cpus : ℕ → LocalApicCpu) (i n : ℕ) → Small cpus i (suc n) → Small cpus (i + 1) n
Small-tail cpus i n small j low high = small j (omega (arith, low)) (omega (arith, high))

add_others-done :
    (own : Bool) (mask apic_id : ℕ)
    → apic_id < 31
    → add_others own mask apic_id ≡ done (if own then mask else add_bit mask apic_id)
add_others-done true mask apic_id lt = refl
add_others-done false mask apic_id lt = rw (lt→ltb apic_id 31 lt) refl

pub init_others-collect :
    (n i bsp mask : ℕ) (s : System) (cpus : ℕ → LocalApicCpu)
    → s.local.cpus ≡ cpus
    → Small cpus i n
    → init_others n i bsp mask s ≡ done (collect n i bsp mask s)
unfolding init_others
init_others-collect zero i bsp mask s cpus same small = refl
init_others-collect (suc n) i bsp mask s cpus same small =
    let apic_id = (s.local.cpus i).apic_id in
    let own = apic_id == bsp in
    let lt : apic_id < 31 =
      subst (λ c. (c i).apic_id < 31) (sym same) (small i (omega arith) (omega arith)) in
    rw (add_others-done own mask apic_id lt) (
      init_others-collect n (i + 1) bsp (if own then mask else add_bit mask apic_id)
        (if own then s else send_init apic_id s) cpus ((init-Keeps own apic_id s).same_cpus ∙ same)
        (Small-tail cpus i n small))

pub collect-Keeps : (n i bsp mask : ℕ) (s : System) → Keeps s (collect n i bsp mask s).1
collect-Keeps zero i bsp mask s = Keeps-refl s
collect-Keeps (suc n) i bsp mask s =
    let apic_id = (s.local.cpus i).apic_id in
    let mask1 = if apic_id == bsp then mask else add_bit mask apic_id in
    let s1 = if apic_id == bsp then s else send_init apic_id s in
    Keeps-trans s s1 (collect n (i + 1) bsp mask1 s1).1 (init-Keeps (apic_id == bsp) apic_id s)
      (collect-Keeps n (i + 1) bsp mask1 s1)

pub start_others-Keeps : (n i bsp : ℕ) (s : System) → Keeps s (start_others n i bsp s)
unfolding start_others
start_others-Keeps zero i bsp s = Keeps-refl s
start_others-Keeps (suc n) i bsp s =
    let apic_id = (s.local.cpus i).apic_id in
    let s1 = if apic_id == bsp then s else send_start apic_id s in
    Keeps-trans s s1 (start_others n (i + 1) bsp s1) (start-Keeps (apic_id == bsp) apic_id s)
      (start_others-Keeps n (i + 1) bsp s1)

-- a processor at `i` or later either stands at `i`, or after it
Names-split :
    (cpus : ℕ → LocalApicCpu) (i n k : ℕ)
    → Names cpus i (suc n) k ↔ (((cpus i).apic_id ≡ k) ⊎ Names cpus (i + 1) n k)
Names-split cpus i n k = (
  Names-head cpus i n k,
  elim [ inl e ↦ (i, omega arith, omega arith, e) | inr w ↦ Names-tail cpus i n k w ],
)

regroup : {A B C D M N : Type 0} → (A ↔ (M ⊎ N)) → (M ↔ (B ⊎ C)) → (D ↔ (C ⊎ N)) → (A ↔ (B ⊎ D))
regroup f g h = (
  λ a. elim (f.0 a) [
    | inl m ↦ elim (g.0 m) [ inl b ↦ inl b | inr c ↦ inr (h.1 (inl c)) ]
    | inr n ↦ inr (h.1 (inr n))
  ],
  elim [
    | inl b ↦ f.1 (inl (g.1 (inl b)))
    | inr d ↦ f.1 (elim (h.0 d) [ inl c ↦ inl (g.1 (inr c)) | inr n ↦ inr n ])
  ],
)

pub collect-mask :
    (n i bsp mask k : ℕ) (s : System) (cpus : ℕ → LocalApicCpu)
    → s.local.cpus ≡ cpus
    → k < 8
    → (bsp ≡ k → digit mask k ≡ 1)
    → (digit (collect n i bsp mask s).0 k ≡ 1) ↔ ((digit mask k ≡ 1) ⊎ Names cpus i n k)
collect-mask zero i bsp mask k s cpus same h own =
    (λ e. inl e, elim [ inl e ↦ e | inr w ↦ absurd (Names-zero cpus i k w) ])
collect-mask (suc n) i bsp mask k s cpus same h own =
    let apic_id = (s.local.cpus i).apic_id in
    let mask1 = if apic_id == bsp then mask else add_bit mask apic_id in
    let s1 = if apic_id == bsp then s else send_init apic_id s in
    let one = adds mask apic_id bsp k h own in
    let rest =
      collect-mask n (i + 1) bsp mask1 k s1 cpus
        ((init-Keeps (apic_id == bsp) apic_id s).same_cpus ∙ same) h (λ e. one.1 (inl (own e))) in
    regroup rest one (
      subst (λ c. Names cpus i (suc n) k ↔ (((c i).apic_id ≡ k) ⊎ Names cpus (i + 1) n k))
        (sym same) (Names-split cpus i n k))

pub collect-byte :
    (n i bsp mask : ℕ) (s : System) → mask < 2 ^ 8 → (collect n i bsp mask s).0 < 2 ^ 8
collect-byte zero i bsp mask s h = h
collect-byte (suc n) i bsp mask s h =
    let apic_id = (s.local.cpus i).apic_id in
    let mask1 = if apic_id == bsp then mask else add_bit mask apic_id in
    collect-byte n (i + 1) bsp mask1 (if apic_id == bsp then s else send_init apic_id s)
      (ground arith)
