-- ===== src/VmCache/Remove.antt =====
-- src/vm_cache.c, page_hash_remove: a page taken out of its bucket.
use smor.Prelude.{
  ℕ, zero, suc, ◌<◌, ◌≡◌, sym, List, [], ◌∷◌, ◌++◌, some, arith, update, if◌then◌else◌, false, ◌==◌,
  length, has, Distinct, has-append,
}
use mathlib.Core.Path.{subst₂}
use smor.PageDb.{PageDesc}
use smor.VmCache.{
  Memory, hash_func, hash_func_local, bucket, hash_index, set_bucket, set_next_hash,
  page_hash_remove, remove_from,
}
use smor.VmCache.Chain.{Chain, Chain-update}

-- the page before the end of `ys`, which `prev` precedes
abbrev last_of : ℕ → List ℕ → ℕ
last_of prev [] = prev
last_of prev (y ∷ ys) = last_of y ys

abbrev unlink : Memory → (cache index prev next : ℕ) → Memory
unlink m cache index prev next =
    if prev == 0 then set_bucket m cache index next else set_next_hash m prev next

remove_from-unlink :
    (fuel : ℕ) (m : Memory) (cache index p prev head : ℕ) (ys zs : List ℕ)
    → length ys < fuel
    → Distinct (ys ++ p ∷ zs)
    → Chain m.descs head (ys ++ p ∷ zs)
    → remove_from fuel m cache index p prev head
      ≡ some (unlink m cache index (last_of prev ys) (m.descs p).next_hash)
unfolding remove_from
remove_from-unlink zero m cache index p prev head ys zs h d c = absurd (omega arith)
remove_from-unlink (suc fuel) m cache index p prev head [] zs h d c = ground (arith, c.0, c.1)
remove_from-unlink (suc fuel) m cache index p prev head (y ∷ ys) zs h d c = ground (
  arith,
  c.0,
  c.1,
  has-append y ys (p ∷ zs),
  d.0,
  remove_from-unlink fuel m cache index p y ((m.descs y).next_hash) ys zs (omega arith) d.1 c.2,
)

ne-last_of :
    (y x : ℕ) (ys rest : List ℕ) → has y (x ∷ ys ++ rest) ≡ false → (y == last_of x ys) ≡ false
ne-last_of y x [] rest h = ground arith
ne-last_of y x (z ∷ ys) rest h = ground (arith, ne-last_of y z ys rest)

-- the chain skips `p` once the page before it is linked to the page after it
skip-Chain :
    (descs : ℕ → PageDesc) (p y head : ℕ) (ys zs : List ℕ)
    → Distinct (y ∷ ys ++ p ∷ zs)
    → Chain descs head (y ∷ ys ++ p ∷ zs)
    → let last = last_of y ys in
      Chain
        (update descs last (record (descs last) { next_hash = (descs p).next_hash }))
        head
        (y ∷ ys ++ zs)
skip-Chain descs p y head [] zs d c = (
  c.0,
  c.1,
  ground (
    arith,
    Chain-update descs (record (descs y) { next_hash = (descs p).next_hash }) y
        ((descs p).next_hash) zs,
  ),
)
skip-Chain descs p y head (x ∷ ys) zs d c = (
  c.0,
  c.1,
  rw (ne-last_of y x ys (p ∷ zs) d.0) (skip-Chain descs p x ((descs y).next_hash) ys zs d.1 c.2),
)

-- what `page_hash_remove` promises: the bucket of the key holds `xs` afterwards
abbrev pub Holds : Memory → (cache offset : ℕ) → List ℕ → Type 0
Holds m cache offset xs = Chain m.descs (bucket m cache (hash_index m cache offset)) xs

last_of-ne-zero :
    (descs : ℕ → PageDesc) (y head : ℕ) (ys rest : List ℕ)
    → Chain descs head (y ∷ ys ++ rest)
    → (last_of y ys == 0) ≡ false
last_of-ne-zero descs y head [] rest c = ground (arith, c.1)
last_of-ne-zero descs y head (z ∷ ys) rest c =
    last_of-ne-zero descs z ((descs y).next_hash) ys rest c.2

set_bucket-descs :
    (m : Memory) (cache index page : ℕ) → (set_bucket m cache index page).descs ≡ m.descs
set_bucket-descs m cache index page = ground arith

bucket-set_bucket :
    (m : Memory) (cache offset page : ℕ)
    → let m' = set_bucket m cache (hash_index m cache offset) page in
      bucket m' cache (hash_index m' cache offset) ≡ page
unfolding hash_func hash_func_local
bucket-set_bucket m cache offset page = ground arith

-- If the bucket of a key is the chain of `ys`, the page and `zs`, with no page twice, then
-- `page_hash_remove` of the page ends within one round of fuel more than `ys` has pages, and the
-- bucket is the chain of `ys` and `zs`.
pub remove-Holds :
    (fuel : ℕ) (m : Memory) (cache offset p : ℕ) (ys zs : List ℕ)
    → length ys < fuel
    → Distinct (ys ++ p ∷ zs)
    → Holds m cache offset (ys ++ p ∷ zs)
    → (m' : Memory) × (page_hash_remove fuel m cache offset p ≡ some m')
      × Holds m' cache offset (ys ++ zs)
unfolding page_hash_remove hash_func hash_func_local
remove-Holds fuel m cache offset p [] zs h d c = (
  set_bucket m cache (hash_index m cache offset) (m.descs p).next_hash,
  remove_from-unlink fuel m cache (hash_index m cache offset) p 0 _ [] zs h d c,
  subst₂ (λ descs head. Chain descs head zs)
      (sym (set_bucket-descs m cache (hash_index m cache offset) (m.descs p).next_hash))
      (sym (bucket-set_bucket m cache offset (m.descs p).next_hash)) c.2,
)
remove-Holds fuel m cache offset p (y ∷ ys) zs h d c = (
  set_next_hash m (last_of y ys) (m.descs p).next_hash,
  rw (last_of-ne-zero m.descs y _ ys (p ∷ zs) c) at
      (remove_from-unlink fuel m cache (hash_index m cache offset) p 0 _ (y ∷ ys) zs h d c),
  skip-Chain m.descs p y _ ys zs d c,
)
