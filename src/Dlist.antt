-- ===== src/Dlist.antt =====
-- The intrusive lists of src/slab.c (slab_list_insert, slab_list_remove) and src/vm_cache.c
-- (page_cache_insert, page_cache_remove): `next` leads to the next element, `prev` to the pointer
-- that leads here, which is a list head or the `next` field of an element. Elements and heads are
-- addresses, 0 for NULL.
pub mod Segment
pub mod Insert
pub mod Unlink
pub mod Remove
pub mod Pair
mod Tests
use smor.Prelude.{ℕ, ◌==◌, if◌then◌else◌, update}

-- what a `struct slab_t**` or a `struct page_desc_t**` points at
pub data Place : Type 0 where
  nowhere : Place
  head : ℕ → Place
  next_of : ℕ → Place

pub record Links : Type 0 where
  pub heads : ℕ → ℕ
  pub next : ℕ → ℕ
  pub prev : ℕ → Place

-- `*p`
abbrev pub read : Links → Place → ℕ
read l nowhere = 0
read l (head h) = l.heads h
read l (next_of x) = l.next x

-- `*p = v`, behind the test that `p` is not NULL
abbrev pub write : Links → Place → ℕ → Links
write l nowhere v = l
write l (head h) v = record l { heads = update l.heads h v }
write l (next_of x) v = record l { next = update l.next x v }

abbrev pub set_prev : Links → ℕ → Place → Links
set_prev l x p = record l { prev = update l.prev x p }

-- `slab_list_insert(&list, s)`, with the list named by its head `h`
unfoldable pub slab_list_insert : Links → (h s : ℕ) → Links
slab_list_insert l h s =
    let l1 = if l.heads h == 0 then l else set_prev l (l.heads h) (next_of s) in
    record l1 {
      next = update l1.next s (l1.heads h);
      prev = update l1.prev s (head h);
      heads = update l1.heads h s;
    }

unfoldable pub slab_list_remove : Links → (s : ℕ) → Links
slab_list_remove l s =
    let l1 = if l.next s == 0 then l else set_prev l (l.next s) (l.prev s) in
    let l2 = write l1 (l1.prev s) (l1.next s) in
    record l2 { next = update l2.next s 0; prev = update l2.prev s nowhere }

-- the same code for the pages of a cache, by other field names; the head is `cache->pages`
unfoldable pub page_cache_insert : Links → (cache page : ℕ) → Links
page_cache_insert l cache page =
    let l1 = if l.heads cache == 0 then l else set_prev l (l.heads cache) (next_of page) in
    record l1 {
      next = update l1.next page (l1.heads cache);
      prev = update l1.prev page (head cache);
      heads = update l1.heads cache page;
    }

unfoldable pub page_cache_remove : Links → (page : ℕ) → Links
page_cache_remove l page =
    let l1 = if l.next page == 0 then l else set_prev l (l.next page) (l.prev page) in
    let l2 = write l1 (l1.prev page) (l1.next page) in
    record l2 { next = update l2.next page 0; prev = update l2.prev page nowhere }
