-- ===== src/Kterm/Tests.antt =====
-- A terminal with the commands "cpu" and "ipi", and the theorems at its lines.
use smor.Prelude.{
  ℕ, ◌+◌, ◌<◌, ◌≡◌, refl, inl, inr, List, [], ◌∷◌, ◌++◌, done, ◌>>=◌, arith, get_or, ◌*◌, ◌≤◌, ◌⊎◌,
  zero, suc, length,
}
use smor.Strings.Copy.{IsString}
use smor.Kterm.{Commands, Buffers, Terminal, enter, kterm_exec, type_chars}
use smor.Kterm.Args.{fields, drop_spaces, word, after_word}
use smor.Kterm.Exec.{Executes, kterm_exec-Executes}
use smor.Kterm.Line.{edits, rev_onto, next_line, type_chars-Enters}

abbrev cpu : List ℕ
cpu = 99 ∷ 112 ∷ 117 ∷ []

abbrev ipi : List ℕ
ipi = 105 ∷ 112 ∷ 105 ∷ []

-- " ipi  -all "
abbrev line : List ℕ
line = 32 ∷ 105 ∷ 112 ∷ 105 ∷ 32 ∷ 32 ∷ 45 ∷ 97 ∷ 108 ∷ 108 ∷ 32 ∷ []

line-fields : fields (length line) line ≡ ipi ∷ (45 ∷ 97 ∷ 108 ∷ 108 ∷ []) ∷ [] ∷ []
unfolding fields drop_spaces word after_word
line-fields = refl

-- the names at 0 and 4, the line at 8
abbrev bytes : ℕ → ℕ
bytes a = get_or (99 ∷ 112 ∷ 117 ∷ 0 ∷ 105 ∷ 112 ∷ 105 ∷ 0 ∷ line) a 0

abbrev names : ℕ → List ℕ
names i = get_or (cpu ∷ ipi ∷ []) i []

abbrev two_commands : Commands
two_commands = record {
  commands = λ i. record { name = 4 * i; cmd_fn = 1000 + i };
  num_commands = 2;
}

kterm_exec-Executes_example :
    Executes 80 two_commands names 1000 8 bytes (fields (length line) line)
unfolding fields drop_spaces word after_word
kterm_exec-Executes_example =
    kterm_exec-Executes 80 two_commands names 1000 8 bytes line (ground arith) (omega arith)
      (omega arith) (omega arith) (inr (omega arith)) named outside
  where
    named : (i : ℕ) → i < 2 → IsString bytes (4 * i) (names i) × (length (names i) < 80)
    named zero h = (ground arith, omega arith)
    named (suc zero) h = (ground arith, omega arith)
    named (suc (suc i)) h = absurd (omega arith)

    outside :
        (i a : ℕ)
        → i < 2
        → 4 * i ≤ a
        → a < 4 * i + suc (length (names i))
        → (a < 1000) ⊎ (1000 + 64 ≤ a)
    outside zero a h lo hi = inl (omega arith)
    outside (suc zero) a h lo hi = inl (omega arith)
    outside (suc (suc i)) a h lo hi = absurd (omega arith)

abbrev buffers : Buffers
buffers = record { cmd_line = 2000; tmp = 3000; exec_tmp = 1000 }

abbrev blank : Terminal
blank = record { mem = bytes; cmd_pos = 0; p = 0; executed = [] }

-- "cpi", with the p and the i erased, "pu"
abbrev typed : List ℕ
typed = 99 ∷ 112 ∷ 105 ∷ 8 ∷ 8 ∷ 112 ∷ 117 ∷ []

typed-edits : rev_onto (edits typed []) [] ≡ cpu
typed-edits = refl

type_chars-Enters_example :
    (mem : ℕ → ℕ) × IsString mem 2000 (rev_onto (edits typed []) [])
    × (type_chars 80 two_commands buffers (typed ++ (enter ∷ [])) blank
        ≡ (kterm_exec 80 two_commands 1000 2000 mem >>= λ r. done (next_line r [])))
type_chars-Enters_example =
    type_chars-Enters 80 two_commands buffers (inr (omega arith)) typed blank (ground arith)
      (omega arith) (omega arith) (record { pos = refl; held = tt })
