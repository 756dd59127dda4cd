-- ===== src/Dlist/Insert.antt =====
-- src/slab.c, slab_list_insert, and src/vm_cache.c, page_cache_insert.
use smor.Prelude.{
  ℕ, ◌≡◌, ◌≢◌, List, [], ◌∷◌, arith, has, Distinct, true, false, ◌==◌, ◌⊎◌, inl, inr,
}
use smor.Dlist.{head, next_of, Links, slab_list_insert, page_cache_insert}
use smor.Dlist.Segment.{Segment, Holds, Segment-frame}

insert-Segment :
    (l : Links) (h s : ℕ) (xs : List ℕ)
    → s ≢ 0
    → has s xs ≡ false
    → Distinct xs
    → Holds l h xs
    → Segment (slab_list_insert l h s) (next_of s) xs
unfolding slab_list_insert
insert-Segment l h s [] ne out d v = ground arith
insert-Segment l h s (x ∷ xs) ne out d v = (
  ground (arith, v.0),
  v.1,
  ground (arith, v.0, v.1),
  Segment-frame l (slab_list_insert l h s) (next_of x) xs (ground arith)
      (λ a m. (ground arith, ground (arith, v.0))) (v.3),
)

-- an element that is not in the list is not its first one
first_away :
    (l : Links) (h a : ℕ) (xs : List ℕ)
    → has a xs ≡ false
    → Holds l h xs
    → ((l.heads h == 0) ≡ true) ⊎ ((a == l.heads h) ≡ false)
first_away l h a [] out v = inl (ground (arith, v))
first_away l h a (x ∷ xs) out v = inr (ground (arith, v.0))

-- what an insertion of `s` under the head `h`, whose list held `xs`, promises of the links `l'`
abbrev pub Inserted : Links → (h s : ℕ) → List ℕ → Links → Type 0
Inserted l h s xs l' =
    Holds l' h (s ∷ xs)
    × ((k : ℕ) (ys : List ℕ)
        → k ≢ h
        → ((a : ℕ) → has a ys ≡ true → has a (s ∷ xs) ≡ false)
        → Holds l k ys
        → Holds l' k ys)

-- `slab_list_insert` puts an element that is not in the list at its front, and leaves alone every
-- other list that shares no element with it.
pub insert-Inserted :
    (l : Links) (h s : ℕ) (xs : List ℕ)
    → s ≢ 0
    → Distinct (s ∷ xs)
    → Holds l h xs
    → Inserted l h s xs (slab_list_insert l h s)
unfolding slab_list_insert
insert-Inserted l h s xs ne d v = (
  (ground arith, ne, ground arith, insert-Segment l h s xs ne d.0 d.1 v),
  λ k ys other apart w.
      Segment-frame l (slab_list_insert l h s) (head k) ys (ground arith)
        (λ a m.
          let e = first_away l h a xs (ground (arith, apart a)) v in
          (ground (arith, apart a), ground (arith, apart a, e)))
        w,
)

-- `page_cache_insert` is the same function of the links.
pub page_cache_insert-Inserted :
    (l : Links) (cache page : ℕ) (xs : List ℕ)
    → page ≢ 0
    → Distinct (page ∷ xs)
    → Holds l cache xs
    → Inserted l cache page xs (page_cache_insert l cache page)
unfolding slab_list_insert page_cache_insert
page_cache_insert-Inserted l cache page xs ne d v = insert-Inserted l cache page xs ne d v
