-- ===== src/Strings/Compare.antt =====
-- src/string.c, strcmp.
use smor.Prelude.{
  ℕ, zero, suc, ◌+◌, ◌<◌, ◌≡◌, ◌==◌, ltb, if◌then◌else◌, List, [], ◌∷◌, length, done, arith, ◌↔◌,
}
use smor.Strings.{StrOrder, less, same, greater, strcmp}
use smor.Strings.Copy.{IsString}

-- the order of two strings as sequences of bytes
pub lexical : List ℕ → List ℕ → StrOrder
lexical [] [] = same
lexical [] (d ∷ ds) = less
lexical (c ∷ cs) [] = greater
lexical (c ∷ cs) (d ∷ ds) =
    let rest = lexical cs ds in if c == d then rest else if ltb c d then less else greater

-- On two strings, with fuel for one round more than the first has bytes, `strcmp` ends with their order
-- as sequences of bytes.
pub strcmp-lexical :
    (fuel : ℕ) (mem : ℕ → ℕ) (s1 s2 : ℕ) (cs ds : List ℕ)
    → IsString mem s1 cs
    → IsString mem s2 ds
    → length cs < fuel
    → strcmp fuel mem s1 s2 ≡ done (lexical cs ds)
unfolding strcmp lexical
strcmp-lexical zero mem s1 s2 cs ds v w h = absurd (omega arith)
strcmp-lexical (suc fuel) mem s1 s2 [] [] v w h = ground arith
strcmp-lexical (suc fuel) mem s1 s2 [] (d ∷ ds) v w h = ground arith
strcmp-lexical (suc fuel) mem s1 s2 (c ∷ cs) [] v w h = ground arith
strcmp-lexical (suc fuel) mem s1 s2 (c ∷ cs) (d ∷ ds) v w h =
    ground (arith, strcmp-lexical fuel mem (s1 + 1) (s2 + 1) cs ds (v.2) (w.2))

pub lexical_same : (cs ds : List ℕ) → (lexical cs ds ≡ same) ↔ (cs ≡ ds)
unfolding lexical
lexical_same [] [] = ground arith
lexical_same [] (d ∷ ds) = ground arith
lexical_same (c ∷ cs) [] = ground arith
lexical_same (c ∷ cs) (d ∷ ds) = ground (arith, lexical_same cs ds)
