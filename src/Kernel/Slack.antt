-- ===== src/Kernel/Slack.antt =====
-- src/kernel.c, kernel_slack_alloc: alignment, disjointness and mapping of what it returns.
use native.Mathlib.Nat.{one-le-pow, mod-add-div', mod-lt, mul-mod_left}
use native.Mathlib.Decide.{dec_lt}
use smor.Prelude.{
  ℕ, ◌+◌, ◌-◌, ◌*◌, ◌/◌, ◌%◌, ◌^◌, ◌≤◌, ◌<◌, ◌≡◌, refl, arith, ◌∷◌, done, ◌⊎◌, inl, inr, lt→ltb,
  u64, bit_and_mask,
}
use smor.Kernel.{BootInfo, kernel_base, align_up, page_2m_round, kernel_vaddr, kernel_slack_alloc}

-- Aligning to a power of two: the least multiple that is not below the address.
pub align_up_lem :
    (addr k : ℕ)
    → k < 64
    → addr + 2 ^ k ≤ 2 ^ 64
    → align_up addr (2 ^ k) ≡ (addr + (2 ^ k - 1)) / 2 ^ k * 2 ^ k
unfolding align_up
align_up_lem addr k short room =
    let mask : u64 (2 ^ k + 2 ^ 64 - 1) ≡ 2 ^ k - 1 = omega (arith, one-le-pow k 2 (omega arith)) in
    let sum : u64 (addr + (2 ^ k - 1)) ≡ addr + (2 ^ k - 1) =
      omega (arith, one-le-pow k 2 (omega arith)) in
    rw (mask, sum, bit_and_mask k (addr + (2 ^ k - 1)))
      (omega (arith, mod-add-div' (addr + (2 ^ k - 1)) (2 ^ k)))

-- the state between two calls: the slack pointer is below the mapped top, which is a multiple of 2M,
-- and nobody holds the lock
pub record IsReady (b : BootInfo) : Type 0 where
  pub inside : b.kernel_slack ≤ b.kernel_top
  pub aligned : b.kernel_top % 2 ^ 21 ≡ 0
  pub unlocked : b.slack_lock ≡ 0

-- a block of `size` bytes at the physical address `p`, taken from `b`, which leaves `b'`
pub record Block (b : BootInfo) (size align p : ℕ) (b' : BootInfo) : Type 0 where
  pub above : b.kernel_slack ≤ p
  pub multiple : p % align ≡ 0
  pub near : p < b.kernel_slack + align
  pub ends : b'.kernel_slack ≡ p + size
  pub top : b.kernel_top ≤ b'.kernel_top
  pub tight : b'.kernel_top ≤ b.kernel_top + size + align + 2 ^ 21
  pub ready : IsReady b'
  pub mapped :
      ((b'.kernel_top ≡ b.kernel_top) × (b'.mapped ≡ b.mapped))
      ⊎ (b'.mapped
          ≡ record {
            vaddr = kernel_vaddr b.kernel_top;
            paddr = b.kernel_top;
            size = b'.kernel_top - b.kernel_top;
          }
            ∷ b.mapped)

module _ {b : BootInfo} (size k : ℕ) (v : IsReady b) (short : k < 31)
    (room : b.kernel_top + size + 2 ^ k + 2 ^ 21 ≤ 2 ^ 31) where
  block_at : ℕ
  block_at = (b.kernel_slack + (2 ^ k - 1)) / 2 ^ k * 2 ^ k

  slack_eq : align_up b.kernel_slack (2 ^ k) ≡ block_at
  unfolding block_at
  slack_eq = align_up_lem b.kernel_slack k (omega arith) (omega (arith, v.inside))

  block_bounds : (b.kernel_slack ≤ block_at) × (block_at < b.kernel_slack + 2 ^ k)
  unfolding block_at
  block_bounds = omega (
    arith,
    one-le-pow k 2 (omega arith),
    mod-add-div' (b.kernel_slack + (2 ^ k - 1)) (2 ^ k),
    mod-lt (b.kernel_slack + (2 ^ k - 1)) {m = 2 ^ k} (one-le-pow k 2 (omega arith)),
  )

  block_multiple : block_at % 2 ^ k ≡ 0
  unfolding block_at
  block_multiple = mul-mod_left ((b.kernel_slack + (2 ^ k - 1)) / 2 ^ k) (2 ^ k)

  -- the two outcomes: the block fits below the mapped top, or the top is raised first
  fits-Block :
      block_at + size ≤ b.kernel_top
      → (b' : BootInfo) × (kernel_slack_alloc size (2 ^ k) b ≡ done (kernel_base + block_at, b'))
        × Block b size (2 ^ k) block_at b'
  unfolding kernel_slack_alloc
  fits-Block fits = (
    record b { kernel_slack = block_at + size },
    rw slack_eq (ground (arith, v.unlocked)),
    record {
      above = block_bounds.0;
      multiple = block_multiple;
      near = block_bounds.1;
      ends = refl;
      top = omega arith;
      tight = omega arith;
      ready = record { inside = fits; aligned = v.aligned; unlocked = v.unlocked };
      mapped = inl (refl, refl);
    },
  )

  raised : ℕ
  raised = b.kernel_top + page_2m_round (block_at + size - b.kernel_top)

  top_eq : u64 (block_at + size) ≡ block_at + size
  top_eq = omega (arith, block_bounds, v.inside)

  call_eq :
      b.kernel_top < block_at + size
      → page_2m_round (u64 (block_at + size + 2 ^ 64 - b.kernel_top))
        ≡ page_2m_round (block_at + size - b.kernel_top)
  call_eq over = omega (arith, block_bounds, v.inside)

  raised_eq :
      b.kernel_top < block_at + size
      → u64 (b.kernel_top + page_2m_round (block_at + size - b.kernel_top))
        ≡ b.kernel_top + page_2m_round (block_at + size - b.kernel_top)
  raised_eq over = omega (arith, block_bounds, v.inside)

  at_eq : block_at % 2 ^ 31 ≡ block_at
  at_eq = omega (arith, block_bounds, v.inside)

  extra_eq : raised - b.kernel_top ≡ page_2m_round (block_at + size - b.kernel_top)
  unfolding raised
  extra_eq = omega arith

  raises-Block :
      b.kernel_top < block_at + size
      → (b' : BootInfo) × (kernel_slack_alloc size (2 ^ k) b ≡ done (kernel_base + block_at, b'))
        × Block b size (2 ^ k) block_at b'
  unfolding kernel_slack_alloc raised
  raises-Block over = (
    record b {
      kernel_top = raised;
      kernel_slack = block_at + size;
      mapped =
          (record {
            vaddr = kernel_vaddr b.kernel_top;
            paddr = b.kernel_top;
            size = raised - b.kernel_top;
          })
          ∷ b.mapped;
    },
    rw slack_eq (
        rw
          (
            top_eq,
            call_eq over,
            raised_eq over,
            lt→ltb b.kernel_top (block_at + size) over,
            at_eq,
            v.unlocked,
            extra_eq,
          )
          refl),
    record {
      above = block_bounds.0;
      multiple = block_multiple;
      near = block_bounds.1;
      ends = refl;
      top = omega arith;
      tight = omega (arith, block_bounds, v.inside);
      ready = record {
        inside = omega (arith, block_bounds, v.inside);
        aligned = omega (arith, v.aligned);
        unlocked = v.unlocked;
      };
      mapped = inr refl;
    },
  )

  -- With the lock free, the slack pointer not above the mapped top, which is a multiple of 2M, an
  -- alignment of a power of two below 2G, and a mapped top that with the size, the alignment and 2M
  -- added is at most 2G, `kernel_slack_alloc` returns: the result is the kernel address of the first
  -- multiple of the alignment in the unused memory; the block ends where the next one may begin; and
  -- the mapped top is either left alone or raised, not below the end of the block and by at most the
  -- size, the alignment and 2M, with one call that maps just the new memory.
  pub slack_alloc-Block :
      (p : ℕ) × (b' : BootInfo) × (kernel_slack_alloc size (2 ^ k) b ≡ done (kernel_base + p, b'))
      × Block b size (2 ^ k) p b'
  slack_alloc-Block = elim (dec_lt b.kernel_top (block_at + size)) [
    | yes over ↦ let (b', e, w) = raises-Block over in (block_at, b', e, w)
    | no fits ↦ let (b', e, w) = fits-Block (omega arith) in (block_at, b', e, w)
  ]
