-- ===== src/Printf/Tests.antt =====
-- The text of a number, and a format string.
use smor.Prelude.{ℕ, ◌≡◌, refl, arith, List, [], ◌∷◌, done}
use smor.Printf.{no_flags, skip_atoi, number, word, vsprintf}
use smor.Printf.Decimal.{skip_atoi-number}

skip_atoi-number_example :
    (s : List ℕ) × (number 1024 10 0 0 no_flags ≡ done s) × (skip_atoi 0 s ≡ done (1024, []))
skip_atoi-number_example = skip_atoi-number 1024 (omega arith)

-- `vsprintf(buf, "[%04x]", 0xBEE)`
hex :
    vsprintf (91 ∷ 37 ∷ 48 ∷ 52 ∷ 120 ∷ 93 ∷ []) (word 0xBEE ∷ [])
    ≡ done (91 ∷ 48 ∷ 98 ∷ 101 ∷ 101 ∷ 93 ∷ [], [])
unfolding vsprintf
hex = refl
