-- ===== src/VmCache/Chain.antt =====
-- src/vm_cache.c, page_hash_find: a search along the `next_hash` links of one bucket.
use smor.Prelude.{
  ℕ, zero, suc, ◌<◌, ◌≡◌, ◌≢◌, List, [], ◌∷◌, some, arith, length, has, update, if◌then◌else◌,
  false,
}
use smor.PageDb.{PageDesc}
use smor.VmCache.{Memory, key_matches, find_from, page_hash_find, bucket, hash_index}

-- from `head` the `next_hash` links lead through `xs` to NULL
abbrev pub Chain : (ℕ → PageDesc) → ℕ → List ℕ → Type 0
Chain descs head [] = head ≡ 0
Chain descs head (x ∷ xs) = (head ≡ x) × (x ≢ 0) × Chain descs ((descs x).next_hash) xs

-- the first page with the key, 0 if there is none
unfoldable pub first_match : (ℕ → PageDesc) → (cache offset : ℕ) → List ℕ → ℕ
first_match descs cache offset [] = 0
first_match descs cache offset (x ∷ xs) =
    if key_matches (descs x) cache offset then x else first_match descs cache offset xs

find_from-first_match :
    (fuel : ℕ) (descs : ℕ → PageDesc) (cache offset head : ℕ) (xs : List ℕ)
    → length xs < fuel
    → Chain descs head xs
    → find_from fuel descs cache offset head ≡ some (first_match descs cache offset xs)
unfolding find_from first_match
find_from-first_match zero descs cache offset head xs h c = absurd (omega arith)
find_from-first_match (suc fuel) descs cache offset head [] h c = ground arith
find_from-first_match (suc fuel) descs cache offset head (x ∷ xs) h c = ground (
  arith,
  c.0,
  c.1,
  find_from-first_match fuel descs cache offset ((descs x).next_hash) xs (omega arith) (c.2),
)

-- With fuel for the pages `xs` of the bucket of a key, `page_hash_find` ends and returns the first of
-- them that has the key, or NULL if none has.
pub find-first_match :
    (fuel : ℕ) (m : Memory) (cache offset : ℕ) (xs : List ℕ)
    → length xs < fuel
    → Chain m.descs (bucket m cache (hash_index m cache offset)) xs
    → page_hash_find fuel m cache offset ≡ some (first_match m.descs cache offset xs)
unfolding page_hash_find
find-first_match fuel m cache offset xs h c =
    find_from-first_match fuel m.descs cache offset (bucket m cache (hash_index m cache offset)) xs
      h c

-- a write to a page that is not in the chain leaves the chain alone
pub Chain-update :
    (descs : ℕ → PageDesc) (d : PageDesc) (i head : ℕ) (xs : List ℕ)
    → has i xs ≡ false
    → Chain descs head xs
    → Chain (update descs i d) head xs
Chain-update descs d i head [] out c = c
Chain-update descs d i head (x ∷ xs) out c =
    (c.0, c.1, ground (arith, Chain-update descs d i ((descs x).next_hash) xs))
