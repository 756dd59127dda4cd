-- ===== src/Slab/Init.antt =====
-- src/slab.c, slab_init: a fresh slab, whose first chunks hold its own header.
use native.Mathlib.Nat.{one-le-pow, div-mul-le_self, pow-le-pow_right, le-div_iff_mul-le}
use smor.Prelude.{
  ℕ, zero, suc, ◌+◌, ◌-◌, ◌*◌, ◌/◌, ◌^◌, ◌≤◌, ◌<◌, ◌≡◌, refl, ◌&&◌, ltb, leb, if◌then◌else◌, update,
  arith, done, range_from, length-range_from, has-range_from, range_from-Distinct, u16, u32, sub32,
}
use smor.Slab.{Slab, clear_chunks, link_chunks, slab_layout, slab_header, slab_init}
use smor.Slab.FreeList.{Chain, IsFree}
use smor.Slab.Shift.{ceil_pow2-pow}

clear_chunks_at :
    (n i : ℕ) (list : ℕ → ℕ) (j : ℕ)
    → clear_chunks n i list j ≡ (if leb i j && ltb j (i + n) then 0 else list j)
unfolding clear_chunks
clear_chunks_at zero i list j = ground arith
clear_chunks_at (suc n) i list j = ground (arith, clear_chunks_at n (i + 1) (update list i 0) j)

link_chunks_at :
    (n i : ℕ) (list : ℕ → ℕ) (j : ℕ)
    → link_chunks n i list j ≡ (if leb i j && ltb j (i + n) then u16 (j + 1) else list j)
unfolding link_chunks
link_chunks_at zero i list j = ground arith
link_chunks_at (suc n) i list j =
    ground (arith, link_chunks_at n (i + 1) (update list i (u16 (i + 1))) j)

-- chunks linked to their successors, the last one to 0
range-Chain :
    (n i m head : ℕ) (list : ℕ → ℕ)
    → 0 < i
    → i + n ≡ m
    → head ≡ i
    → ((j : ℕ) → i ≤ j → j < m → list j ≡ j + 1)
    → list m ≡ 0
    → Chain list head (range_from i (suc n))
range-Chain zero i m head list pos end e links last =
    let same : i ≡ m = omega arith in (e, omega arith, rw same last)
range-Chain (suc n) i m head list pos end e links last = (
  e,
  omega arith,
  range-Chain n (i + 1) m (list i) list (omega arith) (omega arith)
      (links i (omega arith) (omega arith)) (λ j l u. links j (omega arith) u) last,
)

module _ (k nc nr : ℕ) (list : ℕ → ℕ) (pos : 0 < nr) (lt : nr < nc) (narrow : nc < 2 ^ 16) where
  list_at :
      (j : ℕ)
      → j < nc
      → (slab_layout k nc nr list).chunk_list j
        ≡ (if ltb j nr then 0 else if ltb (j + 1) nc then j + 1 else 0)
  unfolding slab_layout
  list_at j h = ground (
    arith,
    clear_chunks_at nr 0 list j,
    link_chunks_at (sub32 nc 1 - nr) nr (clear_chunks nr 0 list) j,
  )

  pub layout-IsFree :
      (base : ℕ)
      → base + nc * 2 ^ k ≤ 2 ^ 64
      → k < 16
      → nc * 2 ^ k < 2 ^ 32
      → IsFree base (slab_layout k nc nr list) (range_from nr (nc - nr))
  unfolding slab_layout
  layout-IsFree base low short small = record {
    chain =
        let n : nc - nr ≡ suc (nc - nr - 1) = omega arith in
        rw n (
          range-Chain (nc - nr - 1) nr (nc - 1) (u16 nr) ((slab_layout k nc nr list).chunk_list) pos
            (omega arith) (omega arith) (λ j l u. ground (arith, list_at j))
            (ground (arith, list_at (nc - 1))));
    distinct = range_from-Distinct nr (nc - nr);
    count = omega (arith, length-range_from nr (nc - nr));
    inside = λ i h. ground (arith, has-range_from i nr (nc - nr));
    reserved = omega arith;
    narrow = omega arith;
    fits =
        let same_k : u16 k ≡ k = omega arith in
        let same_n : u16 nc ≡ nc = omega arith in rw (same_k, same_n) small;
    low =
        let same_k : u16 k ≡ k = omega arith in
        let same_n : u16 nc ≡ nc = omega arith in rw (same_k, same_n) low;
  }

-- how many chunks of `2 ^ k` bytes the size holds, and how many of them the header takes
abbrev pub chunks : ℕ → ℕ → ℕ
chunks size k = size / 2 ^ k

abbrev pub header_chunks : ℕ → ℕ → ℕ
header_chunks size k = (32 + chunks size k * 2 + (2 ^ k - 1)) / 2 ^ k

header_eq :
    (k nc : ℕ) → k < 16 → nc < 2 ^ 16 → slab_header k nc ≡ (32 + nc * 2 + (2 ^ k - 1)) / 2 ^ k
unfolding slab_header
header_eq k nc short narrow =
    let bound : u32 (u32 (32 + nc * 2) + (2 ^ k - 1)) ≡ 32 + nc * 2 + (2 ^ k - 1) =
      omega (arith, pow-le-pow_right {n = 2} (omega arith) short) in
    rw bound

pub slab_init-layout :
    (size k : ℕ) (list : ℕ → ℕ)
    → 0 < k
    → k < 16
    → chunks size k < 2 ^ 16
    → slab_init size (2 ^ k) list ≡ done (slab_layout k (chunks size k) (header_chunks size k) list)
unfolding slab_init
slab_init-layout size k list pos short narrow =
    rw (ceil_pow2-pow k pos (omega arith), header_eq k (chunks size k) short narrow) refl

pub layout_fields :
    (k nc nr : ℕ) (list : ℕ → ℕ)
    → k < 16
    → nc < 2 ^ 16
    → let v = slab_layout k nc nr list in (v.num_chunks ≡ nc) × (v.chunk_shift ≡ k) × (v.flags ≡ 0)
unfolding slab_layout
layout_fields k nc nr list short narrow = omega arith

pub header_pos : (size k : ℕ) → 0 < header_chunks size k
header_pos size k =
    (le-div_iff_mul-le (one-le-pow k 2 (omega arith))).1
      (omega (arith, one-le-pow k 2 (omega arith)))

-- For chunks of 2 to 2 ^ 15 bytes, a power of two, and a slab that ends at 2 ^ 64 at most and whose
-- size is below 2 ^ 32 and holds fewer than 2 ^ 16 chunks, but more than the header takes, `slab_init`
-- does not fail, and all the chunks after the header are free, in ascending order.
pub slab_init-IsFree :
    (base size k : ℕ) (list : ℕ → ℕ)
    → 0 < k
    → k < 16
    → base + size ≤ 2 ^ 64
    → size < 2 ^ 32
    → chunks size k < 2 ^ 16
    → header_chunks size k < chunks size k
    → (s : Slab) × (slab_init size (2 ^ k) list ≡ done s)
      × IsFree base s (range_from (header_chunks size k) (chunks size k - header_chunks size k))
slab_init-IsFree base size k list pos short low small narrow lt =
    let nr = header_chunks size k in
    (
      slab_layout k (chunks size k) nr list,
      slab_init-layout size k list pos short narrow,
      layout-IsFree k (chunks size k) nr list (header_pos size k) lt narrow base
          (omega (arith, div-mul-le_self size (2 ^ k))) short
          (omega (arith, div-mul-le_self size (2 ^ k))),
    )
