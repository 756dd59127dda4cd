-- ===== src/Dlist/Pair.antt =====
-- Two lists that share no element, as src/slab.c keeps the slabs with free chunks and the full ones,
-- and an element that moves from one to the other.
use smor.Prelude.{ℕ, ◌≡◌, ◌≢◌, List, [], ◌∷◌, ◌++◌, arith, has, has-append, Distinct, true, false}
use smor.Dlist.{Place, head, next_of, Links, slab_list_insert, slab_list_remove}
use smor.Dlist.Segment.{Segment, Holds}
use smor.Dlist.Insert.{insert-Inserted}
use smor.Dlist.Remove.{remove-Removed}

pub record ArePair (l : Links) (h k : ℕ) (xs ys : List ℕ) : Type 0 where
  pub first : Holds l h xs
  pub second : Holds l k ys
  pub first_distinct : Distinct xs
  pub second_distinct : Distinct ys
  pub apart : (a : ℕ) → has a xs ≡ true → has a ys ≡ false

-- the lists of other heads, of elements that are not in `xs`
abbrev pub SparesOthers : (l l' : Links) → (h k : ℕ) → List ℕ → Type 0
SparesOthers l l' h k xs =
    (j : ℕ) (ws : List ℕ)
    → j ≢ h
    → j ≢ k
    → ((a : ℕ) → has a ws ≡ true → has a xs ≡ false)
    → Holds l j ws
    → Holds l' j ws

pub swap_pair : {l : Links} {h k : ℕ} {xs ys : List ℕ} → ArePair l h k xs ys → ArePair l k h ys xs
swap_pair p = record {
  first = p.second;
  second = p.first;
  first_distinct = p.second_distinct;
  second_distinct = p.first_distinct;
  apart = λ a m. ground (arith, p.apart a);
}

pub Segment-ne_zero :
    (l : Links) (p : Place) (s : ℕ) (ys zs : List ℕ) → Segment l p (ys ++ s ∷ zs) → s ≢ 0
Segment-ne_zero l p s [] zs v = v.1
Segment-ne_zero l p s (y ∷ ys) zs v = Segment-ne_zero l (next_of y) s ys zs (v.3)

pub Distinct-middle :
    (s : ℕ) (ys zs : List ℕ)
    → Distinct (ys ++ s ∷ zs)
    → Distinct (ys ++ zs) × (has s (ys ++ zs) ≡ false)
Distinct-middle s [] zs d = (d.1, d.0)
Distinct-middle s (y ∷ ys) zs d =
    let (e, out) = Distinct-middle s ys zs (d.1) in
    (
      (ground (arith, d.0, has-append y ys (s ∷ zs), has-append y ys zs), e),
      ground (arith, d.0, has-append y ys (s ∷ zs)),
    )

module _ {l : Links} {h k : ℕ} {ws : List ℕ} (s : ℕ) (ys zs : List ℕ) (ne : h ≢ k)
    (p : ArePair l h k (ys ++ s ∷ zs) ws) where
  pub remove-ArePair : ArePair (slab_list_remove l s) h k (ys ++ zs) ws
  remove-ArePair =
      let r = remove-Removed l h s ys zs p.first_distinct p.first in
      record {
        first = r.0;
        second = r.3 k ws (λ e. ne (cc)) (λ a m. ground (arith, p.apart a)) p.second;
        first_distinct = (Distinct-middle s ys zs p.first_distinct).0;
        second_distinct = p.second_distinct;
        apart = λ a m. ground (arith, p.apart a, has-append a ys zs, has-append a ys (s ∷ zs));
      }

  pub move-ArePair : ArePair (slab_list_insert (slab_list_remove l s) k s) h k (ys ++ zs) (s ∷ ws)
  move-ArePair =
      let q = remove-ArePair in
      let out : has s ws ≡ false = ground (arith, p.apart s, has-append s ys (s ∷ zs)) in
      let nz = Segment-ne_zero l (head h) s ys zs p.first in
      let i = insert-Inserted (slab_list_remove l s) k s ws nz (out, q.second_distinct) q.second in
      record {
        first =
            i.1 h (ys ++ zs) ne
              (λ a m. ground (arith, q.apart a, (Distinct-middle s ys zs p.first_distinct).1))
              q.first;
        second = i.0;
        first_distinct = q.first_distinct;
        second_distinct = (out, q.second_distinct);
        apart = λ a m. ground (arith, q.apart a, (Distinct-middle s ys zs p.first_distinct).1);
      }

  pub remove-SparesOthers : SparesOthers l (slab_list_remove l s) h k (ys ++ s ∷ zs)
  remove-SparesOthers =
      λ j ws' nh nk away v. (remove-Removed l h s ys zs p.first_distinct p.first).3 j ws' nh away v
