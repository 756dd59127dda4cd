-- ===== src/Dlist/Remove.antt =====
-- src/slab.c, slab_list_remove, and src/vm_cache.c, page_cache_remove.
use smor.Prelude.{
  ℕ, ◌≡◌, ◌≢◌, refl, List, [], ◌∷◌, ◌++◌, arith, has, has-append, Distinct, true, false, ◌⊎◌, inl,
  inr,
}
use smor.Dlist.{Place, nowhere, head, next_of, Links, slab_list_remove, page_cache_remove}
use smor.Dlist.Segment.{Segment, Holds, Segment-frame}
use smor.Dlist.Unlink.{remove-Segment, before_in_list, heads_kept, next_kept, prev_kept, next_is}

-- what the removal of `s` from the list `ys ++ s ∷ zs` of the head `h` promises of the links `l'`
abbrev pub Removed : Links → (h s : ℕ) → (ys zs : List ℕ) → Links → Type 0
Removed l h s ys zs l' =
    Holds l' h (ys ++ zs)
    × (l'.next s ≡ 0)
    × (l'.prev s ≡ nowhere)
    × ((k : ℕ) (ws : List ℕ)
        → k ≢ h
        → ((a : ℕ) → has a ws ≡ true → has a (ys ++ s ∷ zs) ≡ false)
        → Holds l k ws
        → Holds l' k ws)

unlinked :
    (l : Links) (s : ℕ) (p : Place)
    → l.prev s ≡ p
    → ((slab_list_remove l s).next s ≡ 0) × ((slab_list_remove l s).prev s ≡ nowhere)
unfolding slab_list_remove
unlinked l s nowhere e = (ground (arith, e), ground (arith, e))
unlinked l s (head h) e = (ground (arith, e), ground (arith, e))
unlinked l s (next_of x) e = (ground (arith, e), ground (arith, e))

not-zero : (l : Links) (p : Place) (a : ℕ) (ws : List ℕ) → Segment l p ws → has a ws ≡ true → a ≢ 0
not-zero l p a [] v m = ground (arith, m)
not-zero l p a (w ∷ ws) v m = ground (arith, v.1, not-zero l (next_of w) a ws (v.3))

-- the links of an element that is not in the list of `s`
foreign_kept :
    (l : Links) (h s a : ℕ) (ys zs : List ℕ)
    → Holds l h (ys ++ s ∷ zs)
    → has a (ys ++ s ∷ zs) ≡ false
    → a ≢ 0
    → (l.prev s ≡ head h) ⊎ ((x : ℕ) × (l.prev s ≡ next_of x) × (has x ys ≡ true))
    → ((slab_list_remove l s).next a ≡ l.next a) × ((slab_list_remove l s).prev a ≡ l.prev a)
foreign_kept l h s a ys zs v out nz (inl e) =
    let ne : a ≢ s = ground (arith, has-append a ys (s ∷ zs)) in
    (
      next_kept l s (head h) a e tt ne,
      prev_kept l s (head h) a e ne (next_is l s (head h) a ys zs v out nz),
    )
foreign_kept l h s a ys zs v out nz (inr (x, e, m)) =
    let ne : a ≢ s = ground (arith, has-append a ys (s ∷ zs)) in
    (
      next_kept l s (next_of x) a e (ground (arith, has-append a ys (s ∷ zs), m)) ne,
      prev_kept l s (next_of x) a e ne (next_is l s (head h) a ys zs v out nz),
    )

other_list :
    (l : Links) (h s : ℕ) (ys zs : List ℕ)
    → Holds l h (ys ++ s ∷ zs)
    → (k : ℕ) (ws : List ℕ) → k ≢ h
    → ((a : ℕ) → has a ws ≡ true → has a (ys ++ s ∷ zs) ≡ false)
    → Holds l k ws
    → Holds (slab_list_remove l s) k ws
other_list l h s ys zs v k ws ne apart w =
    let at = before_in_list l s h ys zs v in
    Segment-frame l (slab_list_remove l s) (head k) ws (heads_kept l s h k ys ne at)
      (λ a m. foreign_kept l h s a ys zs v (apart a m) (not-zero l (head k) a ws w m) at) w

-- `slab_list_remove` takes an element out of its list, wherever it stands there, clears its links,
-- and leaves alone every other list that shares no element with that one.
pub remove-Removed :
    (l : Links) (h s : ℕ) (ys zs : List ℕ)
    → Distinct (ys ++ s ∷ zs)
    → Holds l h (ys ++ s ∷ zs)
    → Removed l h s ys zs (slab_list_remove l s)
remove-Removed l h s ys zs d v =
    let (next, prev) = unlinked l s (l.prev s) refl in
    (remove-Segment l s (head h) ys zs d tt v, next, prev, other_list l h s ys zs v)

-- `page_cache_remove` is the same function of the links.
pub page_cache_remove-Removed :
    (l : Links) (cache page : ℕ) (ys zs : List ℕ)
    → Distinct (ys ++ page ∷ zs)
    → Holds l cache (ys ++ page ∷ zs)
    → Removed l cache page ys zs (page_cache_remove l page)
unfolding slab_list_remove page_cache_remove
page_cache_remove-Removed l cache page ys zs d v = remove-Removed l cache page ys zs d v
