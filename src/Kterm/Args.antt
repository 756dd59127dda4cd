-- ===== src/Kterm/Args.antt =====
-- src/kterm.c, kterm_exec: the arguments of a line.
use smor.Prelude.{
  ℕ, zero, suc, ◌+◌, ◌≤◌, ◌<◌, ◌≡◌, refl, ◌∙◌, ◌⊎◌, inl, inr, true, ◌==◌, if◌then◌else◌, update,
  List, [], ◌∷◌, length, done, arith, Bool-cases,
}
use smor.Strings.Copy.{IsString, IsString-frame}
use smor.Kterm.{space, skip_spaces, skip_word}

-- a text without its spaces at the front, its first word, and what follows that word
unfoldable pub drop_spaces : List ℕ → List ℕ
drop_spaces [] = []
drop_spaces (c ∷ cs) = let rest = drop_spaces cs in if c == space then rest else c ∷ cs

unfoldable pub word : List ℕ → List ℕ
word [] = []
word (c ∷ cs) = let rest = word cs in if c == space then [] else c ∷ rest

unfoldable pub after_word : List ℕ → List ℕ
after_word [] = []
after_word (c ∷ cs) = let rest = after_word cs in if c == space then c ∷ cs else rest

-- The arguments of a text, `n` at most. Spaces at its end make a last argument that is empty.
unfoldable pub fields : ℕ → List ℕ → List (List ℕ)
fields zero cs = []
fields (suc n) [] = []
fields (suc n) (c ∷ cs) = let text = drop_spaces (c ∷ cs) in word text ∷ fields n (after_word text)

-- the strings at the addresses are the texts
abbrev pub AreStrings : (ℕ → ℕ) → List ℕ → List (List ℕ) → Type 0
AreStrings mem [] [] = Unit
AreStrings mem [] (w ∷ ws) = ⊥
AreStrings mem (p ∷ ps) [] = ⊥
AreStrings mem (p ∷ ps) (w ∷ ws) = IsString mem p w × AreStrings mem ps ws

-- what skipping the spaces at `p` does
abbrev pub Skips : ℕ → (p : ℕ) → (mem : ℕ → ℕ) → List ℕ → Type 0
Skips fuel p mem cs =
    (p' : ℕ) × (mem' : ℕ → ℕ) × (skip_spaces fuel p mem ≡ done (p', mem'))
    × (p ≤ p')
    × (p' + length (drop_spaces cs) ≡ p + length cs)
    × IsString mem' p' (drop_spaces cs)
    × ((a : ℕ) → (a < p) ⊎ (p' ≤ a) → mem' a ≡ mem a)
    × ((a : ℕ) → p ≤ a → a < p' → mem' a ≡ 0)

Skips-space :
    (fuel p c : ℕ) (mem : ℕ → ℕ) (cs : List ℕ)
    → IsString mem p (c ∷ cs)
    → (c == space) ≡ true
    → Skips fuel (p + 1) (update mem p 0) cs
    → Skips (suc fuel) p mem (c ∷ cs)
unfolding skip_spaces drop_spaces
Skips-space fuel p c mem cs s is (p', mem', run, le, len, rest, others, cleared) = (
  p',
  mem',
  rw run (ground arith),
  omega arith,
  rw is (omega arith),
  rw is rest,
  λ a o. ground (arith, others a),
  λ a lo hi. elim (Bool-cases (a == p)) [
    | inl e ↦ ground (arith, others a (inl (ground arith)))
    | inr e ↦ cleared a (ground arith) hi
  ],
)

pub skip_spaces-Skips :
    (fuel p : ℕ) (mem : ℕ → ℕ) (cs : List ℕ)
    → IsString mem p cs
    → length cs < fuel
    → Skips fuel p mem cs
unfolding skip_spaces drop_spaces
skip_spaces-Skips zero p mem cs s h = absurd (omega arith)
skip_spaces-Skips (suc fuel) p mem [] s h =
    (p, mem, ground arith, omega arith, refl, s, λ a o. refl, λ a lo hi. absurd (omega arith))
skip_spaces-Skips (suc fuel) p mem (c ∷ cs) s h = elim (Bool-cases (c == space)) [
  | inl is ↦
      let kept = IsString-frame mem (update mem p 0) (p + 1) cs (λ a lo hi. ground arith) (s.2) in
      Skips-space fuel p c mem cs s is
        (skip_spaces-Skips fuel (p + 1) (update mem p 0) cs kept (omega arith))
  | inr not_space ↦ (
    p,
    mem,
    ground arith,
    omega arith,
    rw not_space,
    rw not_space s,
    λ a o. refl,
    λ a lo hi. absurd (omega arith),
  )
]

-- the word at `p` ends with a space, or the text with it
pub skip_word-word :
    (fuel p : ℕ) (mem : ℕ → ℕ) (cs : List ℕ)
    → IsString mem p cs
    → length cs < fuel
    → skip_word fuel p mem ≡ done (p + length (word cs))
unfolding skip_word word
skip_word-word zero p mem cs s h = absurd (omega arith)
skip_word-word (suc fuel) p mem [] s h = ground arith
skip_word-word (suc fuel) p mem (c ∷ cs) s h =
    ground (arith, skip_word-word fuel (p + 1) mem cs (s.2))

pub after_word-IsString :
    (p : ℕ) (mem : ℕ → ℕ) (cs : List ℕ)
    → IsString mem p cs
    → IsString mem (p + length (word cs)) (after_word cs)
      × ((mem (p + length (word cs)) ≡ 0) ⊎ (mem (p + length (word cs)) ≡ space))
unfolding word after_word
after_word-IsString p mem [] s = (ground arith, ground arith)
after_word-IsString p mem (c ∷ cs) s = elim (Bool-cases (c == space)) [
  | inl is ↦ rw (is) (ground arith, ground arith)
  | inr other ↦
      let shift : p + suc (length (word cs)) ≡ p + 1 + length (word cs) = omega arith in
      rw (other, shift) (after_word-IsString (p + 1) mem cs (s.2))
]

-- the word is a string once its end is
pub word-IsString :
    (p : ℕ) (mem mem' : ℕ → ℕ) (cs : List ℕ)
    → IsString mem p cs
    → ((a : ℕ) → a < p + length (word cs) → p ≤ a → mem' a ≡ mem a)
    → mem' (p + length (word cs)) ≡ 0
    → IsString mem' p (word cs)
unfolding word
word-IsString p mem mem' [] s same end = ground arith
word-IsString p mem mem' (c ∷ cs) s same end = elim (Bool-cases (c == space)) [
  | inl is ↦ rw is (ground arith)
  | inr other ↦
      let shift : p + suc (length (word cs)) ≡ p + 1 + length (word cs) = omega arith in
      let end' : mem' (p + suc (length (word cs))) ≡ 0 = rw other at end in
      rw other (
        same p (rw other (omega arith)) (omega arith) ∙ s.0,
        s.1,
        word-IsString (p + 1) mem mem' cs (s.2)
            (λ a hi lo. same a (rw other (omega arith)) (omega arith)) (rw (← shift) end'),
      )
]

pub fields-nil : (n : ℕ) → fields n [] ≡ []
unfolding fields
fields-nil zero = refl
fields-nil (suc n) = refl

pub length-word : (cs : List ℕ) → length (word cs) + length (after_word cs) ≡ length cs
unfolding word after_word
length-word [] = refl
length-word (c ∷ cs) = ground (arith, length-word cs)

length-drop_spaces : (cs : List ℕ) → length (drop_spaces cs) ≤ length cs
unfolding drop_spaces
length-drop_spaces [] = omega arith
length-drop_spaces (c ∷ cs) = ground (arith, length-drop_spaces cs)

-- an argument takes a character at least
pub progress :
    (c : ℕ) (cs : List ℕ)
    → (length (after_word (drop_spaces (c ∷ cs))) ≤ length cs)
      × (length (drop_spaces (c ∷ cs)) ≤ suc (length cs))
      × ((c ≡ space) → length (drop_spaces (c ∷ cs)) ≤ length cs)
unfolding drop_spaces after_word
progress c cs = elim (Bool-cases (c == space)) [
  | inl is ↦
      let short = length-drop_spaces cs in
      rw is (omega (arith, length-word (drop_spaces cs), short), omega (arith, short), λ e. short)
  | inr other ↦
      rw (other, other) (omega (arith, length-word cs), omega arith, λ e. absurd (ground arith))
]
