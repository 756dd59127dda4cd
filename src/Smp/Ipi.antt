-- ===== src/Smp/Ipi.antt =====
-- src/cpu.c, the loops of `cpu_smp_init`: the interrupts that they send to the other processors.
use mathlib.Core.List.{append_assoc}
use smor.Prelude.{
  ℕ, zero, suc, ◌+◌, ◌*◌, ◌%◌, ◌^◌, ◌<◌, ◌≤◌, ◌≡◌, ◌≢◌, refl, inl, inr, ◌∙◌, sym, ap, subst, Bool,
  Bool-cases, true, false, ◌==◌, ◌&&◌, if◌then◌else◌, List, [], ◌∷◌, ◌++◌, arith, eq_of_test,
}
use smor.LocalApic.{LocalApicCpu, send_command, local_apic_ipi_init, local_apic_ipi_start}
use smor.Smp.{System, send_init, send_start, start_others}
use smor.Smp.Mask.{
  Keeps, init-Keeps, start-Keeps, start_others-Keeps, add_bit, Small, Small-tail, collect,
  collect-Keeps,
}

-- the two writes of a command to the processor `id`, the last one first: the identifier at 0x310, then
-- the low half at 0x300, which sends it
abbrev pub command : (id lo : ℕ) → List (ℕ × ℕ)
command id lo = (0x300, lo) ∷ (0x310, id * 2 ^ 24) ∷ []

-- an INIT was sent to the processor `id`
abbrev pub InitSent : (id : ℕ) → (w : List (ℕ × ℕ)) → Type 0
InitSent id w =
    (later : List (ℕ × ℕ)) × (earlier : List (ℕ × ℕ)) × (w
      ≡ later ++ (command id 0x4500 ++ earlier))

-- a STARTUP with the vector 8 was sent to the processor `id`, after an INIT
abbrev pub Started : (id : ℕ) → (w : List (ℕ × ℕ)) → Type 0
Started id w =
    (later : List (ℕ × ℕ)) × (before : List (ℕ × ℕ)) × (w ≡ later ++ (command id 0x4608 ++ before))
    × InitSent id before

-- how many STARTUP commands with the vector 8 were sent
abbrev pub startups : List (ℕ × ℕ) → ℕ
startups [] = 0
startups (x ∷ w) = (if (x.0 == 0x300) && (x.1 == 0x4608) then 1 else 0) + startups w

startups-append : (a b : List (ℕ × ℕ)) → startups (a ++ b) ≡ startups a + startups b
startups-append [] b = omega arith
startups-append (x ∷ a) b = omega (arith, startups-append a b)

pub startups-Started : (id : ℕ) (w : List (ℕ × ℕ)) → Started id w → 0 < startups w
startups-Started id w (later, before, e, sent) =
    rw e (omega (arith, startups-append later (command id 0x4608 ++ before)))

pub InitSent-later :
    (id : ℕ) (s s' : System)
    → Keeps s s'
    → InitSent id s.local.written
    → InitSent id s'.local.written
InitSent-later id s s' k (later, earlier, e) =
    let (new, grown) = k.later in
    (
      new ++ later,
      earlier,
      grown ∙ ap (λ w. new ++ w) e ∙ sym (append_assoc new later (command id 0x4500 ++ earlier)),
    )

pub Started-later :
    (id : ℕ) (s s' : System) → Keeps s s' → Started id s.local.written → Started id s'.local.written
Started-later id s s' k (later, before, e, sent) =
    let (new, grown) = k.later in
    (
      new ++ later,
      before,
      grown ∙ ap (λ w. new ++ w) e ∙ sym (append_assoc new later (command id 0x4608 ++ before)),
      sent,
    )

send_init-InitSent : (id : ℕ) (s : System) → id < 31 → InitSent id (send_init id s).local.written
unfolding local_apic_ipi_init send_command
send_init-InitSent id s lt =
    let whole : id * 2 ^ 24 % 2 ^ 32 ≡ id * 2 ^ 24 = omega (arith, lt) in
    ([], s.local.written, rw whole refl)

send_start-Started :
    (id : ℕ) (s : System)
    → id < 31
    → InitSent id s.local.written
    → Started id (send_start id s).local.written
unfolding local_apic_ipi_start send_command
send_start-Started id s lt sent =
    let whole : id * 2 ^ 24 % 2 ^ 32 ≡ id * 2 ^ 24 = omega (arith, lt) in
    ([], s.local.written, rw whole refl, sent)

-- The first loop sends an INIT to every processor of its places but the one that runs.
pub collect-InitSent :
    (n i bsp mask : ℕ) (s : System) (cpus : ℕ → LocalApicCpu)
    → s.local.cpus ≡ cpus
    → Small cpus i n
    → (j : ℕ) → i ≤ j
    → j < i + n
    → (cpus j).apic_id ≢ bsp
    → InitSent (cpus j).apic_id (collect n i bsp mask s).1.local.written
collect-InitSent zero i bsp mask s cpus same small j low high other =
    absurd (omega (arith, low, high))
collect-InitSent (suc n) i bsp mask s cpus same small j low high other =
    let apic_id = (s.local.cpus i).apic_id in
    let own = apic_id == bsp in
    let mask1 = if own then mask else add_bit mask apic_id in
    let s1 = if own then s else send_init apic_id s in
    elim (Bool-cases (j == i)) [
      | inl here ↦
          let e = eq_of_test j i here in
          let id : apic_id ≡ (cpus j).apic_id =
            ap (λ c. (c i).apic_id) same ∙ sym (ap (λ x. (cpus x).apic_id) e) in
          let not_own : (apic_id == bsp) ≡ false = ground (arith, id, other) in
          let sent : InitSent (cpus j).apic_id s1.local.written = rw not_own (
            subst (λ x. InitSent x (send_init apic_id s).local.written) id
              (send_init-InitSent apic_id s (rw id (small j low high)))) in
          InitSent-later (cpus j).apic_id s1 (collect n (i + 1) bsp mask1 s1).1
            (collect-Keeps n (i + 1) bsp mask1 s1) sent
      | inr ne ↦
          collect-InitSent n (i + 1) bsp mask1 s1 cpus ((init-Keeps own apic_id s).same_cpus ∙ same)
            (Small-tail cpus i n small) j (ground (arith, low, ne)) (omega (arith, high)) other
    ]

-- The second loop sends a STARTUP to each, after the INIT.
pub start_others-Started :
    (n i bsp : ℕ) (s : System) (cpus : ℕ → LocalApicCpu)
    → s.local.cpus ≡ cpus
    → Small cpus i n
    → (j : ℕ) → i ≤ j
    → j < i + n
    → (cpus j).apic_id ≢ bsp
    → InitSent (cpus j).apic_id s.local.written
    → Started (cpus j).apic_id (start_others n i bsp s).local.written
unfolding start_others
start_others-Started zero i bsp s cpus same small j low high other init =
    absurd (omega (arith, low, high))
start_others-Started (suc n) i bsp s cpus same small j low high other init =
    let apic_id = (s.local.cpus i).apic_id in
    let own = apic_id == bsp in
    let s1 = if own then s else send_start apic_id s in
    elim (Bool-cases (j == i)) [
      | inl here ↦
          let e = eq_of_test j i here in
          let id : apic_id ≡ (cpus j).apic_id =
            ap (λ c. (c i).apic_id) same ∙ sym (ap (λ x. (cpus x).apic_id) e) in
          let not_own : (apic_id == bsp) ≡ false = ground (arith, id, other) in
          let sent : Started (cpus j).apic_id s1.local.written = rw not_own (
            subst (λ x. Started x (send_start apic_id s).local.written) id
              (send_start-Started apic_id s (rw id (small j low high))
                (subst (λ x. InitSent x s.local.written) (sym id) init))) in
          Started-later (cpus j).apic_id s1 (start_others n (i + 1) bsp s1)
            (start_others-Keeps n (i + 1) bsp s1) sent
      | inr ne ↦
          start_others-Started n (i + 1) bsp s1 cpus ((start-Keeps own apic_id s).same_cpus ∙ same)
            (Small-tail cpus i n small) j (ground (arith, low, ne)) (omega (arith, high)) other
            (InitSent-later (cpus j).apic_id s s1 (start-Keeps own apic_id s) init)
    ]

init_quiet :
    (own : Bool) (apic_id : ℕ) (s : System)
    → let s1 = if own then s else send_init apic_id s in
      (startups s1.local.written ≡ startups s.local.written) × (s1.num_cpus ≡ s.num_cpus)
unfolding local_apic_ipi_init send_command
init_quiet true apic_id s = (refl, refl)
init_quiet false apic_id s = (omega arith, refl)

-- The first loop sends no STARTUP, and counts no processor.
pub collect_quiet :
    (n i bsp mask : ℕ) (s : System)
    → let s' = (collect n i bsp mask s).1 in
      (startups s'.local.written ≡ startups s.local.written) × (s'.num_cpus ≡ s.num_cpus)
collect_quiet zero i bsp mask s = (refl, refl)
collect_quiet (suc n) i bsp mask s =
    let apic_id = (s.local.cpus i).apic_id in
    let own = apic_id == bsp in
    let mask1 = if own then mask else add_bit mask apic_id in
    let one = init_quiet own apic_id s in
    let rest = collect_quiet n (i + 1) bsp mask1 (if own then s else send_init apic_id s) in
    (rest.0 ∙ one.0, rest.1 ∙ one.1)

start_count :
    (own : Bool) (apic_id : ℕ) (s : System)
    → (if own then s else send_start apic_id s).num_cpus ≡ s.num_cpus
unfolding local_apic_ipi_start send_command
start_count true apic_id s = refl
start_count false apic_id s = refl

pub start_others-num_cpus :
    (n i bsp : ℕ) (s : System) → (start_others n i bsp s).num_cpus ≡ s.num_cpus
unfolding start_others
start_others-num_cpus zero i bsp s = refl
start_others-num_cpus (suc n) i bsp s =
    let apic_id = (s.local.cpus i).apic_id in
    let own = apic_id == bsp in
    start_others-num_cpus n (i + 1) bsp (if own then s else send_start apic_id s)
    ∙ start_count own apic_id s
