-- ===== src/VmCache/Init.antt =====
-- src/vm_cache.c, vm_hash_init: the size of the global hash, and its empty buckets.
use native.Mathlib.Nat.{pow-suc, pow-le-pow_right}
use native.Mathlib.Decide.{dec_lt}
use smor.Prelude.{
  ℕ, zero, suc, ◌+◌, ◌*◌, ◌^◌, ◌≤◌, ◌<◌, ◌≡◌, refl, Option, some, arith, update, ltb, leb, ◌&&◌,
  if◌then◌else◌, Bool-cases, inl, inr, u32,
}
use smor.VmCache.{PageHash, hash_size_from, clear_buckets, vm_hash_init}

-- where the doubling loop stops
abbrev Sized : ℕ → ℕ → Option ℕ → Type 0
Sized num_pages bits o =
    (k : ℕ) × (o ≡ some (2 ^ k)) × (k ≤ bits) × (num_pages ≤ 2 ^ k) × (2 ^ k < 2 * num_pages)

room_to_double : (k n : ℕ) → 2 ^ k < n → n ≤ 2 ^ 31 → suc k ≤ 31
room_to_double k n lt small = elim (dec_lt k 31) [
  | yes p ↦ p
  | no p ↦
      let high : 31 ≤ k = omega arith in
      absurd (omega (arith, pow-le-pow_right {n = 2} (omega arith) high))
]

hash_size_from-Sized :
    (fuel k num_pages : ℕ)
    → k + fuel ≡ 32
    → k ≤ 31
    → num_pages ≤ 2 ^ 31
    → 2 ^ k < 2 * num_pages
    → Sized num_pages 31 (hash_size_from fuel (2 ^ k) num_pages)
unfolding hash_size_from
hash_size_from-Sized zero k num_pages e le small lt = absurd (omega arith)
hash_size_from-Sized (suc fuel) k num_pages e le small lt =
    elim (Bool-cases (ltb (2 ^ k) num_pages)) [
      | inl more ↦
          let below : 2 ^ k < num_pages = ground arith in
          let short : suc k ≤ 31 = room_to_double k num_pages below small in
          let doubled : u32 (2 ^ k * 2) ≡ 2 ^ suc k =
            omega (arith, pow-suc 2 k, pow-le-pow_right {n = 2} (omega arith) short) in
          rw more (
            rw doubled (
              hash_size_from-Sized fuel (suc k) num_pages (omega arith) short small
                (omega (arith, pow-suc 2 k))))
      | inr enough ↦ (k, rw enough, le, ground arith, lt)
    ]

clear_buckets_at :
    (n i : ℕ) (pages : ℕ → ℕ) (j : ℕ)
    → clear_buckets n i pages j ≡ (if leb i j && ltb j (i + n) then 0 else pages j)
unfolding clear_buckets
clear_buckets_at zero i pages j = ground arith
clear_buckets_at (suc n) i pages j = ground (arith, clear_buckets_at n (i + 1) (update pages i 0) j)

all_clear : (size : ℕ) (pages : ℕ → ℕ) (i : ℕ) → i < size → clear_buckets size 0 pages i ≡ 0
all_clear size pages i h = ground (arith, clear_buckets_at size 0 pages i)

-- a hash for `num_pages` pages: the least power of two that is not below, and no page in any bucket
pub record IsEmptyHash (num_pages : ℕ) (h : PageHash) : Type 0 where
  pub power : (k : ℕ) × (h.size ≡ 2 ^ k)
  pub covers : num_pages ≤ h.size
  pub least : h.size < 2 * num_pages
  pub empty : (i : ℕ) → i < h.size → h.pages i ≡ 0

init_of_Sized :
    (num_pages : ℕ) (pages : ℕ → ℕ)
    → Sized num_pages 31 (hash_size_from 32 1 num_pages)
    → (h : PageHash) × (vm_hash_init 32 num_pages pages ≡ some h) × IsEmptyHash num_pages h
unfolding vm_hash_init
init_of_Sized num_pages pages (k, e, le, covers, least) = (
  record { pages = clear_buckets (2 ^ k) 0 pages; size = 2 ^ k },
  rw (e, vm_hash_init) refl,
  record {
    power = (k, refl);
    covers = covers;
    least = least;
    empty = λ i h. all_clear (2 ^ k) pages i h;
  },
)

-- For a page database of 1 to 2 ^ 31 pages, 32 rounds of fuel are enough for `vm_hash_init`: the size
-- of the hash is the least power of two that is not below the number of pages, and every bucket is
-- empty, whatever the memory held.
pub hash_init-IsEmptyHash :
    (num_pages : ℕ) (pages : ℕ → ℕ)
    → 0 < num_pages
    → num_pages ≤ 2 ^ 31
    → (h : PageHash) × (vm_hash_init 32 num_pages pages ≡ some h) × IsEmptyHash num_pages h
hash_init-IsEmptyHash num_pages pages pos small =
    init_of_Sized num_pages pages
      (hash_size_from-Sized 32 0 num_pages refl (omega arith) small (omega arith))
