-- ===== src/VmCache/Tests.antt =====
-- A cache of small pages with its own hash, and the theorems at it.
use smor.Prelude.{ℕ, ◌^◌, ◌≡◌, refl, [], ◌∷◌, some, arith, update}
use smor.PageDb.{PageDesc, page_desc_init}
use smor.VmCache.{
  PageHash, PageCache, Memory, hash_func_local, hash_index, page_hash_insert, page_hash_find,
  page_hash_remove,
}
use smor.VmCache.Chain.{first_match, find-first_match}
use smor.VmCache.Insert.{find-insert}
use smor.VmCache.Remove.{Holds, remove-Holds}

abbrev no_pages : PageHash
no_pages = record { pages = λ _. 0; size = 512 }

abbrev local_cache : PageCache
local_cache = record {
  pages = 0;
  hash = no_pages;
  read_page = 0;
  write_page = 0;
  size = 2 ^ 30;
  flags = 1;
  map_refcnt = 2 ^ 31;
}

abbrev empty : Memory
empty = record {
  page_hash = record { pages = λ _. 0; size = 8 };
  caches = λ _. local_cache;
  descs = λ _. page_desc_init 1;
}

-- pages 10, 20 and 30 in bucket 0 of every cache, at offsets 0, 2 ^ 21 and 2 ^ 22 of cache 7
abbrev linked : ℕ → ℕ → PageDesc
linked next offset = record (page_desc_init 1) {
  next_hash = next;
  cache = 7;
  cache_offset = offset;
}

abbrev filled : Memory
filled = record empty {
  caches = λ _. record local_cache { hash = record no_pages { pages = update (λ _. 0) 0 10 } };
  descs =
      update (update (update empty.descs 10 (linked 20 0)) 20 (linked 30 (2 ^ 21))) 30
        (linked 0 (2 ^ 22));
}

find-insert_case : page_hash_find 1 (page_hash_insert empty 7 4096 100) 7 4096 ≡ some 100
find-insert_case = find-insert 0 empty 7 4096 100 (omega arith)

same_bucket : hash_index empty 7 0 ≡ hash_index empty 7 (2 ^ 21)
unfolding hash_func_local
same_bucket = refl

-- page 100 was at offset 0, and page 200 goes to offset 2 ^ 21, in the same bucket
abbrev once : Memory
once = page_hash_insert empty 7 0 100

same_bucket_once : hash_index once 7 0 ≡ hash_index once 7 (2 ^ 21)
unfolding hash_func_local page_hash_insert
same_bucket_once = refl

index_of_4096 : hash_index empty 7 4096 ≡ 1
unfolding hash_func_local
index_of_4096 = refl

filled_chain : Holds filled 7 (2 ^ 21) (10 ∷ 20 ∷ 30 ∷ [])
unfolding hash_func_local
filled_chain = omega arith

find-first_match_example :
    page_hash_find 4 filled 7 (2 ^ 21)
    ≡ some (first_match filled.descs 7 (2 ^ 21) (10 ∷ 20 ∷ 30 ∷ []))
find-first_match_example =
    find-first_match 4 filled 7 (2 ^ 21) (10 ∷ 20 ∷ 30 ∷ []) (omega arith) filled_chain

found_20 : first_match filled.descs 7 (2 ^ 21) (10 ∷ 20 ∷ 30 ∷ []) ≡ 20
unfolding first_match
found_20 = refl

remove-Holds_example :
    (m' : Memory) × (page_hash_remove 2 filled 7 (2 ^ 21) 20 ≡ some m')
    × Holds m' 7 (2 ^ 21) (10 ∷ 30 ∷ [])
remove-Holds_example =
    remove-Holds 2 filled 7 (2 ^ 21) 20 (10 ∷ []) (30 ∷ []) (omega arith) (refl, (refl, (refl, tt)))
      filled_chain
