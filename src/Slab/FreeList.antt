-- ===== src/Slab/FreeList.antt =====
-- src/slab.c, slab_alloc and slab_free: the free chunks of one slab.
use native.Mathlib.Nat.{mul-le-mul_right, one-le-pow, mul-div_cancel, mul-pos, suc-mul}
use smor.Prelude.{
  ℕ, suc, ◌+◌, ◌-◌, ◌*◌, ◌/◌, ◌^◌, ◌≤◌, ◌<◌, ◌≡◌, ◌≢◌, refl, fun_ext, true, false, List, [], ◌∷◌,
  arith, length, has, Distinct, length-le_of_Distinct, update, u16, u32,
}
use smor.Slab.{Slab, slab_alloc, slab_free}

-- from `head` the chunk list leads through `xs` to the terminator 0
abbrev pub Chain : (ℕ → ℕ) → ℕ → List ℕ → Type 0
Chain list head [] = head ≡ 0
Chain list head (x ∷ xs) = (head ≡ x) × (x ≢ 0) × Chain list (list x) xs

pub Chain-update :
    (list : ℕ → ℕ) (v i head : ℕ) (xs : List ℕ)
    → has i xs ≡ false
    → Chain list head xs
    → Chain (update list i v) head xs
Chain-update list v i head [] out c = c
Chain-update list v i head (x ∷ xs) out c =
    (c.0, c.1, ground (arith, Chain-update list v i (list x) xs))

-- `xs` are the free chunks of the slab at `base`, each once, and `num_free` counts them. The chunks
-- take less than 2 ^ 32 bytes, and end at 2 ^ 64 at most.
pub record IsFree (base : ℕ) (s : Slab) (xs : List ℕ) : Type 0 where
  pub chain : Chain s.chunk_list s.free_list xs
  pub distinct : Distinct xs
  pub count : s.num_free ≡ length xs
  pub inside : (i : ℕ) → has i xs ≡ true → (s.num_reserved ≤ i) × (i < s.num_chunks)
  pub reserved : 0 < s.num_reserved
  pub narrow : s.num_chunks < 2 ^ 16
  pub fits : s.num_chunks * 2 ^ s.chunk_shift < 2 ^ 32
  pub low : base + s.num_chunks * 2 ^ s.chunk_shift ≤ 2 ^ 64

-- the address of the chunk `i`
abbrev pub chunk_at : ℕ → Slab → ℕ → ℕ
chunk_at base s i = base + i * 2 ^ s.chunk_shift

abbrev pub taken : Slab → ℕ → Slab
taken s x = record s { free_list = s.chunk_list x; num_free = u16 (s.num_free + 2 ^ 16 - 1) }

abbrev pub given : Slab → ℕ → Slab
given s i = record s {
  chunk_list = update s.chunk_list i s.free_list;
  free_list = u16 i;
  num_free = u16 (s.num_free + 1);
}

module _ {base : ℕ} {s : Slab} where
  length-lt : {xs : List ℕ} → IsFree base s xs → length xs < s.num_chunks + 1
  length-lt {xs} v = omega (
    arith,
    length-le_of_Distinct s.num_chunks xs v.distinct (λ j i. ground (arith, v.inside j i)),
  )

  pub taken-IsFree : (x : ℕ) (xs : List ℕ) → IsFree base s (x ∷ xs) → IsFree base (taken s x) xs
  taken-IsFree x xs v = record {
    chain = v.chain.2;
    distinct = v.distinct.1;
    count = omega (arith, v.count, length-lt v, v.narrow);
    inside = λ i h. ground (arith, v.inside i);
    reserved = v.reserved;
    narrow = v.narrow;
    fits = v.fits;
    low = v.low;
  }

  -- chunk addresses do not wrap
  chunk_small :
      {xs : List ℕ} (i : ℕ)
      → IsFree base s xs
      → i < s.num_chunks
      → (i * 2 ^ s.chunk_shift < 2 ^ 32) × (base + i * 2 ^ s.chunk_shift < 2 ^ 64)
  chunk_small i v h = omega (
    arith,
    v.fits,
    v.low,
    suc-mul i (2 ^ s.chunk_shift),
    one-le-pow s.chunk_shift 2 (omega arith),
    mul-le-mul_right {m = suc i} {n = s.num_chunks} (2 ^ s.chunk_shift) (omega arith),
  )

  pub alloc-taken :
      (x : ℕ) (xs : List ℕ)
      → IsFree base s (x ∷ xs)
      → slab_alloc base s ≡ (chunk_at base s x, taken s x)
  unfolding slab_alloc
  alloc-taken x xs v = ground (arith, v.chain.0, v.chain.1, v.inside x, v.low, chunk_small x v)

  pub given-IsFree :
      (i : ℕ) (xs : List ℕ)
      → IsFree base s xs
      → s.num_reserved ≤ i
      → i < s.num_chunks
      → has i xs ≡ false
      → IsFree base (given s i) (i ∷ xs)
  given-IsFree i xs v lo hi out = record {
    chain = (
      omega (arith, v.narrow),
      omega (arith, v.reserved),
      ground (arith, Chain-update s.chunk_list s.free_list i s.free_list xs out v.chain),
    );
    distinct = (out, v.distinct);
    count = omega (arith, v.count, v.narrow, longer);
    inside = λ j h. ground (arith, v.inside j);
    reserved = v.reserved;
    narrow = v.narrow;
    fits = v.fits;
    low = v.low;
  }
    where
      longer : length (i ∷ xs) ≤ s.num_chunks
      longer =
          length-le_of_Distinct s.num_chunks (i ∷ xs) (out, v.distinct)
            (λ j m. ground (arith, v.inside j))

  index_of_chunk :
      {xs : List ℕ} (i : ℕ)
      → IsFree base s xs
      → i < s.num_chunks
      → u32 (chunk_at base s i + 2 ^ 64 - base) / 2 ^ s.chunk_shift ≡ i
  index_of_chunk i v h =
      let offset : u32 (chunk_at base s i + 2 ^ 64 - base) ≡ i * 2 ^ s.chunk_shift =
        omega (arith, chunk_small i v h, v.low) in
      rw offset (mul-div_cancel i (one-le-pow s.chunk_shift 2 (omega arith)))

  pub slab_free-given :
      (i : ℕ) (xs : List ℕ)
      → IsFree base s xs
      → i < s.num_chunks
      → slab_free base s (chunk_at base s i) ≡ given s i
  unfolding slab_free
  slab_free-given i xs v hi = rw (index_of_chunk i v hi) refl

  -- Giving back the address of a chunk that is not free puts the chunk at the front of the free
  -- list.
  pub slab_free-IsFree :
      (i : ℕ) (xs : List ℕ)
      → IsFree base s xs
      → s.num_reserved ≤ i
      → i < s.num_chunks
      → has i xs ≡ false
      → IsFree base (slab_free base s (chunk_at base s i)) (i ∷ xs)
  slab_free-IsFree i xs v lo hi out = rw (slab_free-given i xs v hi) (given-IsFree i xs v lo hi out)

alloc-none : (base : ℕ) (s : Slab) → s.free_list ≡ 0 → slab_alloc base s ≡ (0, s)
unfolding slab_alloc
alloc-none base s e = ground (arith, e)

-- what `slab_alloc` does on a slab with the free chunks `xs`
abbrev pub Allocates : ℕ → Slab → List ℕ → Type 0
Allocates base s [] = slab_alloc base s ≡ (0, s)
Allocates base s (x ∷ xs) =
    let (addr, s') = slab_alloc base s in
    (addr ≡ chunk_at base s x)
    × (base < addr)
    × (addr + 2 ^ s.chunk_shift ≤ base + s.num_chunks * 2 ^ s.chunk_shift)
    × IsFree base s' xs

-- On a slab with the free chunks `xs`, `slab_alloc` returns NULL and changes nothing if there is
-- none, and otherwise the address of the first, which lies wholly inside the slab; the rest of `xs`
-- stays free.
pub slab_alloc-Allocates :
    {base : ℕ} {s : Slab} (xs : List ℕ) → IsFree base s xs → Allocates base s xs
slab_alloc-Allocates {base} {s} [] v = alloc-none base s v.chain
slab_alloc-Allocates {base} {s} (x ∷ xs) v = rw (alloc-taken x xs v) (
  refl,
  omega (
    arith,
    mul-pos {m = x} {n = 2 ^ s.chunk_shift} (omega (arith, v.chain.1))
        (one-le-pow s.chunk_shift 2 (omega arith)),
  ),
  omega (
    arith,
    suc-mul x (2 ^ s.chunk_shift),
    mul-le-mul_right {m = suc x} {n = s.num_chunks} (2 ^ s.chunk_shift)
        (ground (arith, v.inside x)),
  ),
  taken-IsFree x xs v,
)

-- Giving back the chunk that `slab_alloc` has just returned restores the slab exactly.
pub slab_free-slab_alloc :
    {base : ℕ} {s : Slab} (x : ℕ) (xs : List ℕ)
    → IsFree base s (x ∷ xs)
    → (let (addr, s') = slab_alloc base s in slab_free base s' addr) ≡ s
unfolding slab_free
slab_free-slab_alloc {base} {s} x xs v =
    rw (alloc-taken x xs v) (rw (index_of_chunk x v (ground (arith, v.inside x))) restored)
  where
    list_eq : (given (taken s x) x).chunk_list ≡ s.chunk_list
    list_eq = fun_ext (λ j. ground arith)

    head_eq : u16 x ≡ s.free_list
    head_eq = ground (arith, v.inside x, v.chain.0, v.narrow)

    count_eq : u16 (u16 (s.num_free + 2 ^ 16 - 1) + 1) ≡ s.num_free
    count_eq = omega (arith, v.count, length-lt v, v.narrow)

    restored : given (taken s x) x ≡ s
    restored =
        λ k. record s { chunk_list = list_eq k; free_list = head_eq k; num_free = count_eq k }
