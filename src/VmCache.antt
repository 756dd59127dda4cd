-- ===== src/VmCache.antt =====
-- src/vm_cache.h and src/vm_cache.c: the hash of cached pages. Pages and caches are addresses, 0 for
-- NULL, and their contents functions of the address; an array of buckets is a function too.
pub mod Chain
pub mod Insert
pub mod Init
pub mod Remove
mod Tests
use Prim.Native.Nat.{bit_and}
use smor.Prelude.{
  ℕ, zero, suc, ◌+◌, ◌-◌, ◌*◌, ◌/◌, ◌%◌, ◌^◌, Bool, true, false, ◌&&◌, not, List, [], ◌∷◌, Option,
  none, some, ltb, ◌==◌, if◌then◌else◌, update, u32, u64, sub32,
}
use smor.PageDb.{PageDesc}

pub record PageHash : Type 0 where
  pub pages : ℕ → ℕ
  pub size : ℕ

-- `map_refcnt` is an `int`: its value plus 2 ^ 31.
pub record PageCache : Type 0 where
  pub pages : ℕ
  pub hash : PageHash
  pub read_page : ℕ
  pub write_page : ℕ
  pub size : ℕ
  pub flags : ℕ
  pub map_refcnt : ℕ

-- `page_hash`, the caches and the page descriptors
pub record Memory : Type 0 where
  pub page_hash : PageHash
  pub caches : ℕ → PageCache
  pub descs : ℕ → PageDesc

-- `flags & PAGE_CACHE_4K_PAGES` and `flags & PAGE_CACHE_NO_HASH`
abbrev pub has_4k_pages : ℕ → Bool
has_4k_pages flags = flags % 2 == 1

abbrev pub has_no_hash : ℕ → Bool
has_no_hash flags = flags / 2 % 2 == 1

pub hash_func : Memory → (cache offset : ℕ) → ℕ
hash_func m cache offset = u32 (bit_and (u64 (cache + offset / 2 ^ 21)) (sub32 m.page_hash.size 1))

pub hash_func_local : Memory → (cache offset : ℕ) → ℕ
hash_func_local m cache offset =
    u32 (bit_and (offset / 2 ^ 12) (sub32 (m.caches cache).hash.size 1))

-- the bucket of a key: whether the array is the cache's own, and the index
abbrev pub hash_index : Memory → (cache offset : ℕ) → ℕ
hash_index m cache offset =
    if has_4k_pages (m.caches cache).flags
    then hash_func_local m cache offset
    else hash_func m cache offset

-- `hash->pages[hash_index]` for the array `hash` that the flags of `cache` choose
abbrev pub bucket : Memory → (cache index : ℕ) → ℕ
bucket m cache index =
    if has_4k_pages (m.caches cache).flags
    then (m.caches cache).hash.pages index
    else m.page_hash.pages index

abbrev pub hash_set : PageHash → ℕ → ℕ → PageHash
hash_set h index page = record h { pages = update h.pages index page }

abbrev pub set_bucket : Memory → (cache index page : ℕ) → Memory
set_bucket m cache index page =
    if has_4k_pages (m.caches cache).flags
    then record m {
      caches =
          update m.caches cache
            (record (m.caches cache) { hash = hash_set (m.caches cache).hash index page });
    }
    else record m { page_hash = hash_set m.page_hash index page }

abbrev pub set_next_hash : Memory → (page next : ℕ) → Memory
set_next_hash m page next = record m {
  descs = update m.descs page (record (m.descs page) { next_hash = next });
}

abbrev pub set_key : Memory → (page cache offset : ℕ) → Memory
set_key m page cache offset = record m {
  descs = update m.descs page (record (m.descs page) { cache = cache; cache_offset = offset });
}

pub page_hash_insert : Memory → (cache offset page : ℕ) → Memory
page_hash_insert m cache offset page =
    let index = hash_index m cache offset in
    let hash_pages = bucket m cache index in
    let m1 = if hash_pages == 0 then m else set_next_hash m hash_pages page in
    let m2 = set_next_hash m1 page 0 in set_key (set_bucket m2 cache index page) page cache offset

abbrev pub key_matches : PageDesc → (cache offset : ℕ) → Bool
key_matches d cache offset = (d.cache == cache) && (d.cache_offset == offset)

-- `none`: the fuel ran out; the result is 0 for NULL
find_from : ℕ → (ℕ → PageDesc) → (cache offset page : ℕ) → Option ℕ
find_from zero descs cache offset page = none
find_from (suc fuel) descs cache offset page =
    let rest = find_from fuel descs cache offset ((descs page).next_hash) in
    if page == 0 then some 0 else if key_matches (descs page) cache offset then some page else rest

pub page_hash_find : ℕ → Memory → (cache offset : ℕ) → Option ℕ
unfolding find_from
page_hash_find fuel m cache offset =
    find_from fuel m.descs cache offset (bucket m cache (hash_index m cache offset))

-- the loop of `page_hash_remove`; `prev` is 0 at the head of the bucket
remove_from : ℕ → Memory → (cache index page_desc prev page : ℕ) → Option Memory
remove_from zero m cache index page_desc prev page = none
remove_from (suc fuel) m cache index page_desc prev page =
    let rest = remove_from fuel m cache index page_desc page ((m.descs page).next_hash) in
    let next = (m.descs page).next_hash in
    if page == 0
    then some m
    else if page == page_desc
    then some (if prev == 0 then set_bucket m cache index next else set_next_hash m prev next)
    else rest

pub page_hash_remove : ℕ → Memory → (cache offset page_desc : ℕ) → Option Memory
unfolding remove_from
page_hash_remove fuel m cache offset page_desc =
    let index = hash_index m cache offset in
    remove_from fuel m cache index page_desc 0 (bucket m cache index)

-- the doubling loop of `vm_hash_init`, in `uint32_t` arithmetic
hash_size_from : ℕ → (page_hash_size num_pages : ℕ) → Option ℕ
hash_size_from zero page_hash_size num_pages = none
hash_size_from (suc fuel) page_hash_size num_pages =
    let rest = hash_size_from fuel (u32 (page_hash_size * 2)) num_pages in
    if ltb page_hash_size num_pages then rest else some page_hash_size

clear_buckets : ℕ → ℕ → (ℕ → ℕ) → ℕ → ℕ
clear_buckets zero i pages = pages
clear_buckets (suc n) i pages = clear_buckets n (i + 1) (update pages i 0)

-- `pages` is the array that `kernel_slack_alloc` returns, with what the memory held before.
pub vm_hash_init : ℕ → (num_pages : ℕ) → (pages : ℕ → ℕ) → Option PageHash
unfolding hash_size_from clear_buckets
vm_hash_init fuel num_pages pages = elim (hash_size_from fuel 1 num_pages) [
  | none ↦ none
  | some size ↦ some (record { pages = clear_buckets size 0 pages; size = size })
]
