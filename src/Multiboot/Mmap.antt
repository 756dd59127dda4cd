-- ===== src/Multiboot/Mmap.antt =====
-- src/multiboot.c, multiboot_mmap: the map of memory and the top of the memory that can be used.
use smor.Prelude.{
  ℕ, zero, suc, ◌+◌, ◌*◌, ◌≤◌, ◌<◌, ◌≡◌, refl, ap, ◌∙◌, ◌⊎◌, inl, inr, Bool, true, false, ◌==◌, ltb,
  lt→ltb, le→ltb, ==_refl, if◌then◌else◌, update, done, panic, arith, u64, Bool-cases,
}
use smor.Bytes.{read32, read64}
use smor.Multiboot.{
  MmapEntry, MbInfo, boot_info_mmap_max, memory_available, mmap_entry, mmap_entries, multiboot_mmap,
}

-- the entry at `e`, and the end of its memory
abbrev pub is_available : (mem : ℕ → ℕ) → ℕ → Bool
is_available mem e = read32 mem (e + 16) == memory_available

abbrev pub entry_end : (mem : ℕ → ℕ) → ℕ → ℕ
entry_end mem e = u64 (read64 mem e + read64 mem (e + 8))

abbrev pub entry_at : (mem : ℕ → ℕ) → ℕ → MmapEntry
entry_at mem e = record {
  addr = read64 mem e;
  size = read64 mem (e + 8);
  flags = if is_available mem e then 1 else 0;
}

-- `b'` is `b` with the `n` entries from `e` on, `step` bytes apart, and their top
pub record Reads (mem : ℕ → ℕ) (n e step : ℕ) (b b' : MbInfo) : Type 0 where
  pub count : b'.num_mmap ≡ b.num_mmap + n
  pub entries : (i : ℕ) → i < n → b'.mmap (b.num_mmap + i) ≡ entry_at mem (e + i * step)
  pub before : (j : ℕ) → j < b.num_mmap → b'.mmap j ≡ b.mmap j
  pub grows : b.mmap_top ≤ b'.mmap_top
  pub covers :
      (i : ℕ)
      → i < n
      → is_available mem (e + i * step) ≡ true
      → entry_end mem (e + i * step) ≤ b'.mmap_top
  pub reached :
      (b'.mmap_top ≡ b.mmap_top)
      ⊎ ((i : ℕ) × (i < n)
          × (is_available mem (e + i * step) ≡ true)
          × (b'.mmap_top ≡ entry_end mem (e + i * step)))

-- what one entry makes of the information
abbrev with_entry : (mem : ℕ → ℕ) → (e : ℕ) → MbInfo → MbInfo
with_entry mem e b = record b {
  num_mmap = b.num_mmap + 1;
  mmap = update b.mmap b.num_mmap (entry_at mem e);
  mmap_top =
      if is_available mem e
      then (if ltb b.mmap_top (entry_end mem e) then entry_end mem e else b.mmap_top)
      else b.mmap_top;
}

mmap_entry-with :
    (mem : ℕ → ℕ) (e : ℕ) (b : MbInfo)
    → b.num_mmap < boot_info_mmap_max
    → mmap_entry mem e b ≡ done (with_entry mem e b)
unfolding mmap_entry
mmap_entry-with mem e b h = rw (lt→ltb b.num_mmap boot_info_mmap_max h) refl

mmap_entry-full :
    (mem : ℕ → ℕ) (e : ℕ) (b : MbInfo)
    → ltb b.num_mmap boot_info_mmap_max ≡ false
    → mmap_entry mem e b ≡ panic
unfolding mmap_entry
mmap_entry-full mem e b h = rw h refl

next_entry : (e i step : ℕ) → e + step + i * step ≡ e + suc i * step
next_entry e i step = grind arith

first_entry : (e step : ℕ) → e + 0 * step ≡ e
first_entry e step = omega arith

module _ (mem : ℕ → ℕ) (n e step : ℕ) (b b' : MbInfo)
    (r : Reads mem n (e + step) step (with_entry mem e b) b') where
  entries-suc : (i : ℕ) → i < suc n → b'.mmap (b.num_mmap + i) ≡ entry_at mem (e + i * step)
  entries-suc zero h = rw (first_entry e step) (
      ap (λ j. b'.mmap j) (omega arith)
      ∙ r.before b.num_mmap (omega arith)
      ∙ rw (==_refl b.num_mmap))
  entries-suc (suc i) h =
      rw (← next_entry e i step) (ap (λ j. b'.mmap j) (omega arith) ∙ r.entries i (omega arith))

  covers-suc :
      (i : ℕ)
      → i < suc n
      → is_available mem (e + i * step) ≡ true
      → entry_end mem (e + i * step) ≤ b'.mmap_top
  covers-suc zero h av =
      let av' : is_available mem e ≡ true = rw (first_entry e step) at av in
      rw (first_entry e step) (ground (arith, r.grows))
  covers-suc (suc i) h av =
      rw (← next_entry e i step) (r.covers i (omega arith) (rw (next_entry e i step) av))

  Reached : Type 0
  Reached =
      (b'.mmap_top ≡ b.mmap_top)
      ⊎ ((i : ℕ) × (i < suc n)
          × (is_available mem (e + i * step) ≡ true)
          × (b'.mmap_top ≡ entry_end mem (e + i * step)))

  reached-suc : Reached
  unfolding Reached
  reached-suc = elim (r.reached) [
    | inl same ↦ elim (Bool-cases (is_available mem e)) [
      | inl av ↦ elim (Bool-cases (ltb b.mmap_top (entry_end mem e))) [
        | inl more ↦
            inr (0, omega arith, rw (first_entry e step) av, rw (first_entry e step) (ground arith))
        | inr less ↦ inl (ground arith)
      ]
      | inr un ↦ inl (ground arith)
    ]
    | inr (i, lt, av, top) ↦
        inr (suc i, omega arith, rw (← next_entry e i step) av, rw (← next_entry e i step) top)
  ]

  Reads-suc : Reads mem (suc n) e step b b'
  unfolding Reached
  Reads-suc = record {
    count = omega (arith, r.count);
    entries = entries-suc;
    before = λ j h. ground (arith, r.before j);
    grows = ground (arith, r.grows);
    covers = covers-suc;
    reached = reached-suc;
  }

-- The loop reads the entries up to `stop`, one after another.
mmap_entries-Reads :
    (fuel n : ℕ) (mem : ℕ → ℕ) (e stop step : ℕ) (b : MbInfo)
    → n < fuel
    → 0 < step
    → stop ≡ e + n * step
    → b.num_mmap + n ≤ boot_info_mmap_max
    → (b' : MbInfo) × (mmap_entries fuel mem e stop step b ≡ done b') × Reads mem n e step b b'
unfolding mmap_entries
mmap_entries-Reads zero n mem e stop step b lt pos at room = absurd (omega arith)
mmap_entries-Reads (suc fuel) zero mem e stop step b lt pos at room = (
  b,
  rw (le→ltb e stop (omega arith)) refl,
  record {
    count = omega arith;
    entries = λ i h. absurd (omega arith);
    before = λ j h. refl;
    grows = omega arith;
    covers = λ i h. absurd (omega arith);
    reached = inl refl;
  },
)
mmap_entries-Reads (suc fuel) (suc n) mem e stop step b lt pos at room =
    let (b', run, r) =
      mmap_entries-Reads fuel n mem (e + step) stop step (with_entry mem e b) (omega arith) pos
        (grind arith) (omega arith) in
    (
      b',
      rw (lt→ltb e stop (grind arith), mmap_entry-with mem e b (omega arith)) run,
      Reads-suc mem n e step b b' r,
    )

-- A map of `n` entries, 32 at most, is read entry by entry; `mmap_top` is the largest end of the
-- memory that can be used, 0 if there is none.
pub multiboot_mmap-Reads :
    (fuel n : ℕ) (mem : ℕ → ℕ) (tag : ℕ) (b : MbInfo)
    → n < fuel
    → 0 < read32 mem (tag + 8)
    → read32 mem (tag + 4) ≡ 16 + n * read32 mem (tag + 8)
    → n ≤ boot_info_mmap_max
    → (b' : MbInfo) × (multiboot_mmap fuel mem tag b ≡ done b')
      × Reads mem n (tag + 16) (read32 mem (tag + 8)) (record b { num_mmap = 0; mmap_top = 0 }) b'
unfolding multiboot_mmap
multiboot_mmap-Reads fuel n mem tag b lt pos size room =
    mmap_entries-Reads fuel n mem (tag + 16) (tag + read32 mem (tag + 4)) (read32 mem (tag + 8))
      (record b { num_mmap = 0; mmap_top = 0 }) lt pos (omega (arith, size)) (omega arith)

mmap_entries-panics :
    (fuel n : ℕ) (mem : ℕ → ℕ) (e stop step : ℕ) (b : MbInfo)
    → n < fuel
    → 0 < step
    → stop ≡ e + n * step
    → b.num_mmap ≤ boot_info_mmap_max
    → boot_info_mmap_max < b.num_mmap + n
    → mmap_entries fuel mem e stop step b ≡ panic
unfolding mmap_entries
mmap_entries-panics zero n mem e stop step b lt pos at le many = absurd (omega arith)
mmap_entries-panics (suc fuel) zero mem e stop step b lt pos at le many = absurd (omega arith)
mmap_entries-panics (suc fuel) (suc n) mem e stop step b lt pos at le many =
    elim (Bool-cases (ltb b.num_mmap boot_info_mmap_max)) [
      | inl room ↦
          rw (lt→ltb e stop (grind arith), mmap_entry-with mem e b (ground arith))
            (mmap_entries-panics fuel n mem (e + step) stop step (with_entry mem e b) (omega arith)
              pos (grind arith) (ground arith) (omega arith))
      | inr full ↦ rw (lt→ltb e stop (grind arith), mmap_entry-full mem e b full) refl
    ]

-- A map of more than 32 entries stops the machine.
pub multiboot_mmap-panics :
    (fuel n : ℕ) (mem : ℕ → ℕ) (tag : ℕ) (b : MbInfo)
    → n < fuel
    → 0 < read32 mem (tag + 8)
    → read32 mem (tag + 4) ≡ 16 + n * read32 mem (tag + 8)
    → boot_info_mmap_max < n
    → multiboot_mmap fuel mem tag b ≡ panic
unfolding multiboot_mmap
multiboot_mmap-panics fuel n mem tag b lt pos size many =
    mmap_entries-panics fuel n mem (tag + 16) (tag + read32 mem (tag + 4)) (read32 mem (tag + 8))
      (record b { num_mmap = 0; mmap_top = 0 }) lt pos (omega (arith, size)) (omega arith)
      (omega arith)
