-- ===== src/Dlist/Segment.antt =====
-- The elements of a list, and what a list does not depend on.
use smor.Prelude.{ℕ, ◌≡◌, ◌≢◌, List, [], ◌∷◌, arith, has, true, ◌∙◌}
use smor.Dlist.{Place, head, next_of, Links, read}

-- from the place `p` on the links lead through `xs` to NULL, and every `prev` leads back
abbrev pub Segment : Links → Place → List ℕ → Type 0
Segment l p [] = read l p ≡ 0
Segment l p (x ∷ xs) = (read l p ≡ x) × (x ≢ 0) × (l.prev x ≡ p) × Segment l (next_of x) xs

-- the list with the head `h` holds `xs`
abbrev pub Holds : Links → ℕ → List ℕ → Type 0
Holds l h xs = Segment l (head h) xs

-- A segment depends on its place and on the links of its own elements only.
pub Segment-frame :
    (l l' : Links) (p : Place) (xs : List ℕ)
    → read l' p ≡ read l p
    → ((a : ℕ) → has a xs ≡ true → (l'.next a ≡ l.next a) × (l'.prev a ≡ l.prev a))
    → Segment l p xs
    → Segment l' p xs
Segment-frame l l' p [] e same s = e ∙ s
Segment-frame l l' p (x ∷ xs) e same s = (
  e ∙ s.0,
  s.1,
  (same x (ground arith)).1 ∙ s.2,
  Segment-frame l l' (next_of x) xs (same x (ground arith)).0 (λ a m. same a (ground arith)) (s.3),
)
