-- ===== src/Slab.antt =====
-- src/slab.h and src/slab.c: slabs of equal chunks. A slab is the record at its address; `next` and
-- `prev` of the slabs are kept in `Dlist.Links`.
pub mod Shift
pub mod FreeList
pub mod Init
mod Tests
use smor.Prelude.{
  ℕ, zero, suc, ◌+◌, ◌-◌, ◌*◌, ◌/◌, ◌%◌, ◌^◌, Bool, true, false, ◌==◌, ltb, if◌then◌else◌, update,
  Outcome, done, undefined, ◌>>=◌, ◌>>◌, u16, u32, u64, sub32,
}

pub record Slab : Type 0 where
  pub chunk_shift : ℕ
  pub num_chunks : ℕ
  pub num_free : ℕ
  pub num_reserved : ℕ
  pub flags : ℕ
  pub free_list : ℕ
  pub chunk_list : ℕ → ℕ

-- the number of binary digits: `32 - __builtin_clz(n)` for `n` from 1 to 2 ^ 32 - 1 and fuel 32
pub bit_length : ℕ → ℕ → ℕ
bit_length zero n = 0
bit_length (suc fuel) n = let rest = suc (bit_length fuel (n / 2)) in if n == 0 then 0 else rest

-- `__builtin_clz(0)` is undefined.
pub ceil_pow2 : ℕ → Outcome ℕ
ceil_pow2 x = if sub32 x 1 == 0 then undefined else done (bit_length 32 (sub32 x 1))

-- the loops of `slab_init`: the number of rounds left, the index
clear_chunks : ℕ → ℕ → (ℕ → ℕ) → ℕ → ℕ
clear_chunks zero i list = list
clear_chunks (suc n) i list = clear_chunks n (i + 1) (update list i 0)

link_chunks : ℕ → ℕ → (ℕ → ℕ) → ℕ → ℕ
link_chunks zero i list = list
link_chunks (suc n) i list = link_chunks n (i + 1) (update list i (u16 (i + 1)))

-- `slab_init` once the two numbers of chunks are known; `list` is what the memory at `chunk_list`
-- holds
pub slab_layout : (chunk_shift num_chunks num_reserved : ℕ) → (list : ℕ → ℕ) → Slab
unfolding clear_chunks link_chunks
slab_layout chunk_shift num_chunks num_reserved list =
    let rounds = sub32 num_chunks 1 - num_reserved in
    let linked = link_chunks rounds num_reserved (clear_chunks num_reserved 0 list) in
    record {
      chunk_shift = u16 chunk_shift;
      num_chunks = u16 num_chunks;
      num_free = u16 (sub32 num_chunks num_reserved);
      num_reserved = u16 num_reserved;
      flags = 0;
      free_list = u16 num_reserved;
      chunk_list = update linked (num_reserved + rounds) 0;
    }

-- the chunks that the header takes; `sizeof(struct slab_t)` is 32
slab_header : (chunk_shift num_chunks : ℕ) → ℕ
slab_header chunk_shift num_chunks =
    u32 (u32 (32 + num_chunks * 2) + (2 ^ chunk_shift - 1)) / 2 ^ chunk_shift

pub slab_init : (size chunk_size : ℕ) → (list : ℕ → ℕ) → Outcome Slab
unfolding ceil_pow2 slab_layout slab_header
slab_init size chunk_size list = do
  chunk_shift ← ceil_pow2 chunk_size
  let num_chunks = size / 2 ^ chunk_shift
  done (slab_layout chunk_shift num_chunks (slab_header chunk_shift num_chunks) list)

-- The slab lies at `base`; the result is the chunk's address, 0 for NULL.
pub slab_alloc : (base : ℕ) → Slab → ℕ × Slab
slab_alloc base s =
    let index = s.free_list in
    if index == 0 then (0, s) else (
      u64 (base + u32 (index * 2 ^ s.chunk_shift)),
      record s { free_list = s.chunk_list index; num_free = u16 (s.num_free + 2 ^ 16 - 1) },
    )

pub slab_free : (base : ℕ) → Slab → (addr : ℕ) → Slab
slab_free base s addr =
    let index = u32 (addr + 2 ^ 64 - base) / 2 ^ s.chunk_shift in
    record s {
      chunk_list = update s.chunk_list index s.free_list;
      free_list = u16 index;
      num_free = u16 (s.num_free + 1);
    }

-- compared as `int`s
unfoldable pub slab_is_empty : Slab → Bool
slab_is_empty s = s.num_free + s.num_reserved == s.num_chunks

unfoldable pub slab_is_full : Slab → Bool
slab_is_full s = s.num_free == 0

unfoldable pub slab_is_reserved : Slab → Bool
slab_is_reserved s = s.flags % 2 == 1
