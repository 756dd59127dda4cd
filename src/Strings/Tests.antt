-- ===== src/Strings/Tests.antt =====
-- The strings "ipi" and "imps" in memory, compared.
use smor.Prelude.{ℕ, ◌≡◌, refl, [], ◌∷◌, done, get_or}
use smor.Strings.{strcmp, less}

-- "ipi" at 8, "imps" at 16
abbrev two_strings : ℕ → ℕ
two_strings a =
    get_or
      (0 ∷ 0 ∷ 0 ∷ 0 ∷ 0 ∷ 0 ∷ 0 ∷ 0 ∷ 105 ∷ 112 ∷ 105 ∷ 0 ∷ 0 ∷ 0 ∷ 0 ∷ 0 ∷ 105 ∷ 109 ∷ 112 ∷ 115
        ∷ [])
      a 0

imps-lt-ipi : strcmp 8 two_strings 16 8 ≡ done less
unfolding strcmp
imps-lt-ipi = refl
