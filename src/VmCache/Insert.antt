-- ===== src/VmCache/Insert.antt =====
-- src/vm_cache.c, page_hash_insert: what can be found after an insertion.
use smor.Prelude.{ℕ, suc, ◌≡◌, ◌≢◌, some, arith}
use smor.VmCache.{
  Memory, hash_func, hash_func_local, bucket, hash_index, page_hash_insert, page_hash_find,
}

-- The page that was inserted last is found under its key at once.
pub find-insert :
    (fuel : ℕ) (m : Memory) (cache offset page : ℕ)
    → page ≢ 0
    → page_hash_find (suc fuel) (page_hash_insert m cache offset page) cache offset ≡ some page
unfolding page_hash_find page_hash_insert hash_func hash_func_local
find-insert fuel m cache offset page ne = ground arith

-- An insertion loses the older pages of its bucket: a key with another offset that falls in the same
-- bucket of the same cache is not found after it, whatever had been inserted under that key before.
pub insert-forgets :
    (fuel : ℕ) (m : Memory) (cache offset other page : ℕ)
    → page ≢ 0
    → other ≢ offset
    → hash_index m cache other ≡ hash_index m cache offset
    → page_hash_find (suc (suc fuel)) (page_hash_insert m cache offset page) cache other ≡ some 0
unfolding page_hash_find page_hash_insert hash_func hash_func_local
insert-forgets fuel m cache offset other page ne differ same = ground arith

-- Every other bucket is left as it was.
pub insert-other :
    (m : Memory) (cache offset page index : ℕ)
    → index ≢ hash_index m cache offset
    → bucket (page_hash_insert m cache offset page) cache index ≡ bucket m cache index
unfolding page_hash_insert hash_func hash_func_local
insert-other m cache offset page index ne = ground arith
