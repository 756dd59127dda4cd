-- ===== src/Kterm/Split.antt =====
-- src/kterm.c, kterm_exec: the outer loop over the arguments of a line.
use smor.Prelude.{
  ℕ, zero, suc, ◌+◌, ◌≤◌, ◌<◌, ◌≡◌, refl, ◌∙◌, ◌⊎◌, inl, inr, List, [], ◌∷◌, ◌++◌, length,
  length-append, append-nil, append-snoc, done, arith, ne→==, lt→ltb,
}
use smor.Strings.Copy.{IsString}
use smor.Kterm.{space, skip_spaces, max_args, split_args}
use smor.Kterm.Args.{
  drop_spaces, word, after_word, fields, AreStrings, skip_spaces-Skips, skip_word-word,
  after_word-IsString, word-IsString, fields-nil, length-word, progress,
}

-- what the outer loop does from `p` on, where the text `cs` begins; the last part says that the word
-- before is ended
abbrev pub Splits : (fuel n : ℕ) → (args : List ℕ) → (p : ℕ) → (mem : ℕ → ℕ) → List ℕ → Type 0
Splits fuel n args p mem cs =
    (added : List ℕ) × (mem' : ℕ → ℕ) × (split_args fuel args p mem ≡ done (args ++ added, mem'))
    × AreStrings mem' added (fields n cs)
    × ((a : ℕ) → (a < p) ⊎ (p + length cs < a) → mem' a ≡ mem a)
    × ((mem p ≡ 0) ⊎ (mem p ≡ space) → mem' p ≡ 0)

one_more :
    (fuel n p c : ℕ) (args : List ℕ) (mem : ℕ → ℕ) (cs : List ℕ)
    → IsString mem p (c ∷ cs)
    → length cs + 1 < fuel
    → length args + suc (length (fields n (after_word (drop_spaces (c ∷ cs))))) ≤ max_args
    → (p1 : ℕ) (mem1 : ℕ → ℕ) → skip_spaces fuel p mem ≡ done (p1, mem1)
    → p ≤ p1
    → p1 + length (drop_spaces (c ∷ cs)) ≡ p + length (c ∷ cs)
    → IsString mem1 p1 (drop_spaces (c ∷ cs))
    → ((a : ℕ) → (a < p) ⊎ (p1 ≤ a) → mem1 a ≡ mem a)
    → ((a : ℕ) → p ≤ a → a < p1 → mem1 a ≡ 0)
    → Splits fuel n
        (args ++ (p1 ∷ []))
        (p1 + length (word (drop_spaces (c ∷ cs))))
        mem1
        (after_word (drop_spaces (c ∷ cs)))
    → Splits (suc fuel) (suc n) args p mem (c ∷ cs)
unfolding split_args fields
one_more fuel n p c args mem cs s h small p1 mem1 run le len text others cleared
      (added, mem', run', strings, others', ended) =
    let t = drop_spaces (c ∷ cs) in
    let total = length-word t in
    (
      p1 ∷ added,
      mem',
      rw
          (
            ne→== (mem p) 0 (λ e. absurd (ground arith)),
            run,
            lt→ltb (length args) max_args (omega arith),
            skip_word-word fuel p1 mem1 t text (omega (arith, progress c cs)),
            run',
            append-snoc args p1 added,
          )
          refl,
      (
        word-IsString p1 mem1 mem' t text (λ a hi lo. others' a (inl hi))
            (ended (after_word-IsString p1 mem1 t text).1),
        strings,
      ),
      λ a o. elim o [
        | inl low ↦ others' a (inl (omega arith)) ∙ others a (inl low)
        | inr high ↦ others' a (inr (omega arith)) ∙ others a (inr (omega arith))
      ],
      λ e.
          let is : c ≡ space = ground arith in
          let before : p < p1 = omega (arith, (progress c cs).2 is) in
          others' p (inl (omega arith)) ∙ cleared p (omega arith) before,
    )

-- With fuel for the text and room for its arguments, `split_args` returns the addresses of strings
-- that are the arguments of the text, in order, and writes to the text only.
pub split_args-Splits :
    (fuel n : ℕ) (args : List ℕ) (p : ℕ) (mem : ℕ → ℕ) (cs : List ℕ)
    → IsString mem p cs
    → length cs + 1 < fuel
    → length cs ≤ n
    → length args + length (fields n cs) ≤ max_args
    → Splits fuel n args p mem cs
unfolding split_args fields
split_args-Splits zero n args p mem cs s h le small = absurd (omega arith)
split_args-Splits (suc fuel) n args p mem [] s h le small = (
  [],
  mem,
  rw (append-nil args) (ground arith),
  rw (fields-nil n) tt,
  λ a o. refl,
  λ e. ground arith,
)
split_args-Splits (suc fuel) zero args p mem (c ∷ cs) s h le small = absurd (omega arith)
split_args-Splits (suc fuel) (suc n) args p mem (c ∷ cs) s h le small =
    let t = drop_spaces (c ∷ cs) in
    let (p1, mem1, run, before, len, text, others, cleared) =
      skip_spaces-Skips fuel p mem (c ∷ cs) s (omega arith) in
    let at : IsString mem1 (p1 + length (word t)) (after_word t) =
      (after_word-IsString p1 mem1 t text).0 in
    one_more fuel n p c args mem cs s (omega arith) small p1 mem1 run before len text others cleared
      (split_args-Splits fuel n (args ++ (p1 ∷ [])) (p1 + length (word t)) mem1 (after_word t) at
        (omega (arith, progress c cs)) (omega (arith, progress c cs))
        (omega (arith, length-append args (p1 ∷ []))))
