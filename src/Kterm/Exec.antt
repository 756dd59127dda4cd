-- ===== src/Kterm/Exec.antt =====
-- src/kterm.c, kterm_exec: the command that a line runs.
use smor.Prelude.{
  ℕ, zero, suc, ◌+◌, ◌≤◌, ◌<◌, ◌≡◌, ◌≢◌, refl, sym, subst, ap, ◌∙◌, ◌⊎◌, inl, inr, ◌==◌, lt→ltb,
  Option, none, some, List, [], ◌∷◌, length, done, arith, Bool-cases,
}
use smor.Strings.{StrOrder, less, same, greater, count_chars, strcmp, strcpy}
use smor.Strings.Copy.{IsString, IsString-frame, count_chars-length, strcpy-Copied}
use smor.Strings.Compare.{lexical, lexical_same, strcmp-lexical}
use smor.Kterm.{
  Commands, max_temp_buf, max_args, unknown, run_cmd, find_cmd, split_args, kterm_exec,
}
use smor.Kterm.Args.{fields, AreStrings}
use smor.Kterm.Split.{split_args-Splits}

-- the commands are named by the texts `names`
abbrev pub AreNamed : ℕ → Commands → (names : ℕ → List ℕ) → (mem : ℕ → ℕ) → Type 0
AreNamed fuel t names mem =
    (i : ℕ)
    → i < t.num_commands
    → IsString mem (t.commands i).name (names i) × (length (names i) < fuel)

-- `found` is the function of the first command from `i` to `i + n` that is named `w`, if there is one
abbrev pub IsFirst : (n i : ℕ) → Commands → (names : ℕ → List ℕ) → (w : List ℕ) → Option ℕ → Type 0
IsFirst n i t names w none = (j : ℕ) → i ≤ j → j < i + n → names j ≢ w
IsFirst n i t names w (some fn) =
    (j : ℕ) × (i ≤ j)
    × (j < i + n)
    × (names j ≡ w)
    × (fn ≡ (t.commands j).cmd_fn)
    × ((k : ℕ) → i ≤ k → k < j → names k ≢ w)

IsFirst-later :
    (n i : ℕ) (t : Commands) (names : ℕ → List ℕ) (w : List ℕ) (found : Option ℕ)
    → names i ≢ w
    → IsFirst n (i + 1) t names w found
    → IsFirst (suc n) i t names w found
IsFirst-later n i t names w none ne f = λ j lo hi e. elim (Bool-cases (j == i)) [
  | inl at ↦ ne (ap names (ground arith) ∙ e)
  | inr away ↦ f j (ground arith) (omega arith) e
]
IsFirst-later n i t names w (some fn) ne (j, lo, hi, named, is, before) = (
  j,
  omega arith,
  omega arith,
  named,
  is,
  λ k from to e. elim (Bool-cases (k == i)) [
    | inl at ↦ ne (ap names (ground arith) ∙ e)
    | inr away ↦ before k (ground arith) to e
  ],
)

different : (a b : List ℕ) (o : StrOrder) → lexical a b ≡ o → o ≢ same → a ≢ b
different a b o e ne same_text = ne (sym e ∙ (lexical_same a b).1 same_text)

-- what the loop over the commands from `i` on finds
abbrev Finds : (fuel n i : ℕ) → Commands → (ℕ → List ℕ) → (ℕ → ℕ) → (arg : ℕ) → List ℕ → Type 0
Finds fuel n i t names mem arg w =
    (found : Option ℕ) × (find_cmd fuel n i t arg mem ≡ done found) × IsFirst n i t names w found

Finds-suc :
    (fuel n i : ℕ) (t : Commands) (names : ℕ → List ℕ) (mem : ℕ → ℕ) (arg : ℕ) (w : List ℕ)
    (o : StrOrder)
    → strcmp fuel mem (t.commands i).name arg ≡ done o
    → lexical (names i) w ≡ o
    → Finds fuel n (i + 1) t names mem arg w
    → Finds fuel (suc n) i t names mem arg w
unfolding find_cmd
Finds-suc fuel n i t names mem arg w same compared e rest = (
  some (t.commands i).cmd_fn,
  rw compared refl,
  (
    i,
    omega arith,
    omega arith,
    (lexical_same (names i) w).0 e,
    refl,
    λ k lo hi. absurd (omega arith),
  ),
)
Finds-suc fuel n i t names mem arg w less compared e (found, run, first) = (
  found,
  rw compared run,
  IsFirst-later n i t names w found (different (names i) w less e (λ d. cc)) first,
)
Finds-suc fuel n i t names mem arg w greater compared e (found, run, first) = (
  found,
  rw compared run,
  IsFirst-later n i t names w found (different (names i) w greater e (λ d. cc)) first,
)

find_cmd-Finds :
    (fuel n i : ℕ) (t : Commands) (names : ℕ → List ℕ) (mem : ℕ → ℕ) (arg : ℕ) (w : List ℕ)
    → AreNamed fuel t names mem
    → i + n ≤ t.num_commands
    → IsString mem arg w
    → Finds fuel n i t names mem arg w
unfolding find_cmd
find_cmd-Finds fuel zero i t names mem arg w named le s =
    (none, refl, λ j lo hi. absurd (omega arith))
find_cmd-Finds fuel (suc n) i t names mem arg w named le s =
    let (there, short) = named i (omega arith) in
    Finds-suc fuel n i t names mem arg w (lexical (names i) w)
      (strcmp-lexical fuel mem (t.commands i).name arg (names i) w there s short) refl
      (find_cmd-Finds fuel n (i + 1) t names mem arg w named (omega arith) s)

-- what a line with the arguments `ws` does: nothing is known without an argument, and otherwise the
-- first command named by the first argument runs, on the strings of all
abbrev pub Executes :
    ℕ → Commands → (names : ℕ → List ℕ) → (tmp str : ℕ) → (mem : ℕ → ℕ) → List (List ℕ) → Type 0
Executes fuel t names tmp str mem [] =
    (mem' : ℕ → ℕ) × (kterm_exec fuel t tmp str mem ≡ done (unknown, mem'))
Executes fuel t names tmp str mem (w ∷ ws) =
    (args : List ℕ) × (found : Option ℕ) × (mem' : ℕ → ℕ) × (kterm_exec fuel t tmp str mem
      ≡ done (run_cmd found args, mem'))
    × AreStrings mem' args (w ∷ ws)
    × IsFirst t.num_commands 0 t names w found

-- once the line is cut into the strings at `args`
Executes-cut :
    (fuel : ℕ) (t : Commands) (names : ℕ → List ℕ) (tmp str n : ℕ) (mem mem1 mem2 : ℕ → ℕ)
    (args : List ℕ) (ws : List (List ℕ))
    → count_chars fuel mem str 0 ≡ done n
    → n < max_temp_buf
    → strcpy fuel tmp str mem ≡ done mem1
    → split_args fuel [] tmp mem1 ≡ done (args, mem2)
    → AreStrings mem2 args ws
    → AreNamed fuel t names mem2
    → Executes fuel t names tmp str mem ws
unfolding kterm_exec
Executes-cut fuel t names tmp str n mem mem1 mem2 [] [] count short copy cut strings named =
    (mem2, rw (count, lt→ltb n max_temp_buf short, copy, cut) refl)
Executes-cut fuel t names tmp str n mem mem1 mem2 [] (w ∷ ws) count short copy cut strings named =
    absurd strings
Executes-cut fuel t names tmp str n mem mem1 mem2 (p ∷ ps) [] count short copy cut strings named =
    absurd strings
Executes-cut fuel t names tmp str n mem mem1 mem2 (p ∷ ps) (w ∷ ws) count short copy cut strings
      named =
    let (found, run, first) =
      find_cmd-Finds fuel t.num_commands 0 t names mem2 p w named (omega arith) (strings.0) in
    (
      p ∷ ps,
      found,
      mem2,
      rw (count, lt→ltb n max_temp_buf short, copy, cut, run) refl,
      strings,
      first,
    )

-- A line that is shorter than the buffer and has 32 arguments at most: `kterm_exec` cuts it into its
-- arguments, and runs the first command that is named by the first of them, or none if there is no
-- such command. The names of the commands do not lie in the buffer.
pub kterm_exec-Executes :
    (fuel : ℕ) (t : Commands) (names : ℕ → List ℕ) (tmp str : ℕ) (mem : ℕ → ℕ) (cs : List ℕ)
    → IsString mem str cs
    → length cs < max_temp_buf
    → max_temp_buf < fuel
    → length (fields (length cs) cs) ≤ max_args
    → (tmp + max_temp_buf ≤ str) ⊎ (str + length cs < tmp)
    → AreNamed fuel t names mem
    → ((i a : ℕ)
        → i < t.num_commands
        → (t.commands i).name ≤ a
        → a < (t.commands i).name + suc (length (names i))
        → (a < tmp) ⊎ (tmp + max_temp_buf ≤ a))
    → Executes fuel t names tmp str mem (fields (length cs) cs)
kterm_exec-Executes fuel t names tmp str mem cs s short enough few apart named outside =
    let (mem1, copy, (there, others)) =
      strcpy-Copied fuel mem tmp str cs s (ground arith) (omega arith) in
    let (args, mem2, cut, strings, others', ended) =
      split_args-Splits fuel (length cs) [] tmp mem1 cs there (omega arith) (omega arith)
        (omega arith) in
    let kept : AreNamed fuel t names mem2 = λ i lt. (
      IsString-frame mem mem2 (t.commands i).name (names i)
          (λ a lo hi.
            others' a (ground (arith, outside i a lt lo hi))
            ∙ others a (ground (arith, outside i a lt lo hi)))
          (named i lt).0,
      (named i lt).1,
    ) in
    Executes-cut fuel t names tmp str (length cs) mem mem1 mem2 args (fields (length cs) cs)
      (subst (λ n. count_chars fuel mem str 0 ≡ done n) (omega arith)
        (count_chars-length fuel mem str 0 cs s (omega arith)))
      short copy cut strings kept
