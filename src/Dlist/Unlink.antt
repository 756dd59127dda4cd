-- ===== src/Dlist/Unlink.antt =====
-- src/slab.c, slab_list_remove: what it does to a segment, link by link.
use smor.Prelude.{
  ℕ, ◌∙◌, ◌≡◌, ◌≢◌, refl, List, [], ◌∷◌, ◌++◌, arith, has, has-append, Distinct, true, false, ◌⊎◌,
  inl, inr,
}
use smor.Dlist.{Place, nowhere, head, next_of, Links, read, slab_list_remove}
use smor.Dlist.Segment.{Segment, Holds, Segment-frame}

-- a place that is not the `next` field of an element of `xs`
abbrev pub Outside : Place → List ℕ → Type 0
Outside nowhere xs = ⊥
Outside (head h) xs = Unit
Outside (next_of x) xs = has x xs ≡ false

module _ (l : Links) (s : ℕ) where
  -- the place before `s` is made to lead to the element after it
  remove_at :
      (p : Place) (zs : List ℕ)
      → Outside p (s ∷ zs)
      → l.prev s ≡ p
      → read (slab_list_remove l s) p ≡ l.next s
  unfolding slab_list_remove
  remove_at nowhere zs o e = absurd o
  remove_at (head h) zs o e = ground (arith, e)
  remove_at (next_of x) zs o e = ground (arith, e, o)

  -- the links of the other elements stay, but for the `prev` of the element after `s`
  pub next_kept :
      (p : Place) (a : ℕ)
      → l.prev s ≡ p
      → Outside p (a ∷ [])
      → a ≢ s
      → (slab_list_remove l s).next a ≡ l.next a
  unfolding slab_list_remove
  next_kept nowhere a e o ne = absurd o
  next_kept (head h) a e o ne = ground (arith, e)
  next_kept (next_of x) a e o ne = ground (arith, e, o)

  pub prev_kept :
      (p : Place) (a : ℕ)
      → l.prev s ≡ p
      → a ≢ s
      → a ≢ l.next s
      → (slab_list_remove l s).prev a ≡ l.prev a
  unfolding slab_list_remove
  prev_kept nowhere a e ne nn = ground (arith, e)
  prev_kept (head h) a e ne nn = ground (arith, e)
  prev_kept (next_of x) a e ne nn = ground (arith, e)

  prev_moved :
      (p : Place)
      → l.prev s ≡ p
      → l.next s ≢ 0
      → l.next s ≢ s
      → (slab_list_remove l s).prev (l.next s) ≡ p
  unfolding slab_list_remove
  prev_moved nowhere e ne ns = ground (arith, e)
  prev_moved (head h) e ne ns = ground (arith, e)
  prev_moved (next_of x) e ne ns = ground (arith, e)

  Outside-one :
      (p : Place) (a : ℕ) (xs : List ℕ) → has a xs ≡ true → Outside p xs → Outside p (a ∷ [])
  Outside-one nowhere a xs m o = o
  Outside-one (head h) a xs m o = tt
  Outside-one (next_of x) a xs m o = ground (arith, o, m)

  remove-after :
      (p : Place) (zs : List ℕ)
      → Distinct (s ∷ zs)
      → Outside p (s ∷ zs)
      → l.prev s ≡ p
      → Segment l (next_of s) zs
      → Segment (slab_list_remove l s) p zs
  remove-after p [] d o e v = remove_at p [] o e ∙ v
  remove-after p (z ∷ zs) d o e v = (
    remove_at p (z ∷ zs) o e ∙ v.0,
    v.1,
    rw (v.0) at (prev_moved p e (ground (arith, v.0, v.1)) (ground (arith, v.0))),
    Segment-frame l (slab_list_remove l s) (next_of z) zs
        (next_kept p z e (Outside-one p z (s ∷ z ∷ zs) (ground arith) o) (ground arith))
        (λ a m. (
          next_kept p a e (Outside-one p a (s ∷ z ∷ zs) (ground arith) o) (ground arith),
          prev_kept p a e (ground arith) (ground (arith, v.0)),
        ))
        (v.3),
  )

  -- in a segment with `s` behind `y ∷ ys`, the place before `s` belongs to one of these
  place_before :
      (p : Place) (y : ℕ) (ys zs : List ℕ)
      → Segment l p (y ∷ ys ++ s ∷ zs)
      → (x : ℕ) × (l.prev s ≡ next_of x) × (has x (y ∷ ys) ≡ true)
  place_before p y [] zs v = (y, v.3.2, ground arith)
  place_before p y (x ∷ ys) zs v =
      let (w, e, m) = place_before (next_of y) x ys zs v.3 in (w, e, ground (arith, m))

  pub next_is :
      (p : Place) (y : ℕ) (ys zs : List ℕ)
      → Segment l p (ys ++ s ∷ zs)
      → has y (ys ++ s ∷ zs) ≡ false
      → y ≢ 0
      → y ≢ l.next s
  next_is p y [] [] v out ne = ground (arith, v.3)
  next_is p y [] (z ∷ zs) v out ne = ground (arith, v.3.0)
  next_is p y (x ∷ ys) zs v out ne = next_is (next_of x) y ys zs (v.3) (ground arith) ne

  read_kept :
      (p : Place) (x : ℕ) (xs : List ℕ)
      → l.prev s ≡ next_of x
      → has x xs ≡ true
      → has s xs ≡ false
      → Outside p (s ∷ xs)
      → read (slab_list_remove l s) p ≡ read l p
  unfolding slab_list_remove
  read_kept nowhere x xs e m out o = absurd o
  read_kept (head h) x xs e m out o = ground (arith, e)
  read_kept (next_of w) x xs e m out o = ground (arith, e, o, m)

  Distinct-middle : (ys zs : List ℕ) → Distinct (ys ++ s ∷ zs) → has s ys ≡ false
  Distinct-middle [] zs d = refl
  Distinct-middle (y ∷ ys) zs d =
      ground (arith, has-append y ys (s ∷ zs), d.0, Distinct-middle ys zs d.1)

  Outside-sub : (p : Place) (ys zs : List ℕ) → Outside p (ys ++ s ∷ zs) → Outside p (s ∷ ys)
  Outside-sub nowhere ys zs o = o
  Outside-sub (head h) ys zs o = tt
  Outside-sub (next_of x) ys zs o = ground (arith, has-append x ys (s ∷ zs), o)

  pub remove-Segment :
      (p : Place) (ys zs : List ℕ)
      → Distinct (ys ++ s ∷ zs)
      → Outside p (ys ++ s ∷ zs)
      → Segment l p (ys ++ s ∷ zs)
      → Segment (slab_list_remove l s) p (ys ++ zs)
  remove-Segment p [] zs d o v = remove-after p zs d o (v.2) (v.3)
  remove-Segment p (y ∷ ys) zs d o v =
      let (x, e, m) = place_before p y ys zs v in
      let ne : y ≢ s = ground (arith, has-append y ys (s ∷ zs), d.0) in
      (
        read_kept p x (y ∷ ys) e m (Distinct-middle (y ∷ ys) zs d) (Outside-sub p (y ∷ ys) zs o)
            ∙ v.0,
        v.1,
        prev_kept (next_of x) y e ne (next_is (next_of y) y ys zs (v.3) d.0 v.1) ∙ v.2,
        remove-Segment (next_of y) ys zs d.1 d.0 v.3,
      )

  -- where `s` stands in a list: the place before it is the head or belongs to an element in front
  pub before_in_list :
      (h : ℕ) (ys zs : List ℕ)
      → Holds l h (ys ++ s ∷ zs)
      → (l.prev s ≡ head h) ⊎ ((x : ℕ) × (l.prev s ≡ next_of x) × (has x ys ≡ true))
  before_in_list h [] zs v = inl v.2
  before_in_list h (y ∷ ys) zs v = inr (place_before (head h) y ys zs v)

  pub heads_kept :
      (h k : ℕ) (ys : List ℕ)
      → k ≢ h
      → (l.prev s ≡ head h) ⊎ ((x : ℕ) × (l.prev s ≡ next_of x) × (has x ys ≡ true))
      → (slab_list_remove l s).heads k ≡ l.heads k
  unfolding slab_list_remove
  heads_kept h k ys ne (inl e) = ground (arith, e)
  heads_kept h k ys ne (inr (x, e, m)) = ground (arith, e)
