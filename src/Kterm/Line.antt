-- ===== src/Kterm/Line.antt =====
-- src/kterm.c, kterm_run: the line that the characters edit.
use smor.Prelude.{
  ℕ, suc, ◌+◌, ◌-◌, ◌≤◌, ◌<◌, ◌≡◌, ◌≢◌, refl, sym, ap, subst, ◌∙◌, ◌⊎◌, inl, inr, false, ◌==◌,
  if◌then◌else◌, update, List, [], ◌∷◌, ◌++◌, length, Outcome, done, panic, hang, undefined, ◌>>=◌,
  done-eq, >>=-eq-done, arith, Bool-cases, lt→ltb, le→ltb,
}
use smor.Strings.Copy.{IsString}
use smor.Kterm.{
  max_cmd_line, max_temp_buf, Buffers, Terminal, enter, backspace, Commands, type_char, type_chars,
  kterm_exec, Executed,
}

-- the line that a character makes of the line `ls`, the last character first
abbrev pub edit : ℕ → List ℕ → List ℕ
edit ch [] = if ch == backspace then [] else ch ∷ []
edit ch (l ∷ ls) = if ch == backspace then ls else ch ∷ l ∷ ls

abbrev pub edits : List ℕ → List ℕ → List ℕ
edits [] ls = ls
edits (ch ∷ chs) ls = edits chs (edit ch ls)

edit_other : (ch : ℕ) (ls : List ℕ) → (ch == backspace) ≡ false → edit ch ls ≡ ch ∷ ls
edit_other ch [] h = rw h
edit_other ch (l ∷ ls) h = rw h

length-edit : (ch : ℕ) (ls : List ℕ) → length (edit ch ls) ≤ suc (length ls)
length-edit ch [] = ground arith
length-edit ch (l ∷ ls) = ground arith

length-edits : (chs ls : List ℕ) → length (edits chs ls) ≤ length chs + length ls
length-edits [] ls = omega arith
length-edits (ch ∷ chs) ls = omega (arith, length-edits chs (edit ch ls), length-edit ch ls)

-- the terminal after a line, with what the lines before it did
abbrev pub next_line : Executed × (ℕ → ℕ) → List Executed → Terminal
next_line r lines = record { mem = r.1; cmd_pos = 0; p = 0; executed = r.0 ∷ lines }

>>=-done : {A : Type 0} (o : Outcome A) → (o >>= λ x. done x) ≡ o
>>=-done (done x) = refl
>>=-done panic = refl
>>=-done hang = refl
>>=-done undefined = refl

-- neither 0 nor Enter
abbrev pub AreTyped : List ℕ → Type 0
AreTyped [] = Unit
AreTyped (ch ∷ chs) = (ch ≢ 0) × (ch ≢ enter) × AreTyped chs

-- a text written backwards before another
abbrev pub rev_onto : List ℕ → List ℕ → List ℕ
rev_onto [] cs = cs
rev_onto (l ∷ ls) cs = rev_onto ls (l ∷ cs)

-- the characters before the index `length ls` are those of `ls`, the last one first
abbrev pub HoldsBack : (mem : ℕ → ℕ) → (line : ℕ) → List ℕ → Type 0
HoldsBack mem line [] = Unit
HoldsBack mem line (l ∷ ls) = (mem (line + length ls) ≡ l) × (l ≢ 0) × HoldsBack mem line ls

pub HoldsBack-frame :
    (mem mem' : ℕ → ℕ) (line : ℕ) (ls : List ℕ)
    → ((a : ℕ) → line ≤ a → a < line + length ls → mem' a ≡ mem a)
    → HoldsBack mem line ls
    → HoldsBack mem' line ls
HoldsBack-frame mem mem' line [] same h = tt
HoldsBack-frame mem mem' line (l ∷ ls) same h = (
  same (line + length ls) (omega arith) (omega arith) ∙ h.0,
  h.1,
  HoldsBack-frame mem mem' line ls (λ a lo hi. same a lo (omega arith)) (h.2),
)

pub HoldsBack-IsString :
    (mem : ℕ → ℕ) (line : ℕ) (ls cs : List ℕ)
    → HoldsBack mem line ls
    → IsString mem (line + length ls) cs
    → IsString mem line (rev_onto ls cs)
HoldsBack-IsString mem line [] cs h s = subst (λ x. IsString mem x cs) (omega arith) s
HoldsBack-IsString mem line (l ∷ ls) cs h s =
    HoldsBack-IsString mem line ls (l ∷ cs) (h.2)
      (h.0, h.1, subst (λ x. IsString mem x cs) (omega arith) s)

-- `ls` is the line so far, and `p` characters are in the buffer for the screen
pub record IsLine (b : Buffers) (s : Terminal) (ls : List ℕ) : Type 0 where
  pub pos : s.cmd_pos ≡ length ls
  pub held : HoldsBack s.mem b.cmd_line ls

-- the buffers do not overlap
abbrev pub AreApart : Buffers → Type 0
AreApart b = (b.tmp + max_temp_buf ≤ b.cmd_line) ⊎ (b.cmd_line + max_cmd_line ≤ b.tmp)

module _ (fuel : ℕ) (t : Commands) (b : Buffers) (apart : AreApart b) where
  -- typing a character makes the line `ls`
  abbrev Types : (ch : ℕ) → Terminal → List ℕ → Type 0
  Types ch s ls =
      (s' : Terminal) × (type_char fuel t b ch s ≡ done s')
      × IsLine b s' ls
      × (s'.p ≤ s.p + 1)
      × (s'.executed ≡ s.executed)

  erase-Edits : (s : Terminal) (ls : List ℕ) → IsLine b s ls → Types backspace s (edit backspace ls)
  unfolding type_char
  erase-Edits s [] v =
      (s, rw (le→ltb 0 s.cmd_pos (omega (arith, v.pos))) refl, v, omega arith, refl)
  erase-Edits s (l ∷ ls) v = (
    record s { cmd_pos = s.cmd_pos - 1; mem = update s.mem (b.cmd_line + (s.cmd_pos - 1)) 0 },
    rw (lt→ltb 0 s.cmd_pos (omega (arith, v.pos))) refl,
    record {
      pos = omega (arith, v.pos);
      held =
          HoldsBack-frame s.mem (update s.mem (b.cmd_line + (s.cmd_pos - 1)) 0) b.cmd_line ls
            (λ a lo hi. ground (arith, v.pos)) (v.held.2);
    },
    omega arith,
    refl,
  )

  add-Edits :
      (ch : ℕ) (s : Terminal) (ls : List ℕ)
      → ch ≢ 0
      → ch ≢ enter
      → ch ≢ backspace
      → s.p < max_temp_buf
      → length ls < max_cmd_line
      → IsLine b s ls
      → Types ch s (ch ∷ ls)
  unfolding type_char
  add-Edits ch s ls nz ne other room short v = (
    record s {
      p = s.p + 1;
      cmd_pos = s.cmd_pos + 1;
      mem = update (update s.mem (b.tmp + s.p) ch) (b.cmd_line + s.cmd_pos) ch;
    },
    ground (arith, v.pos),
    record {
      pos = omega (arith, v.pos);
      held = (
        ground (arith, v.pos),
        nz,
        HoldsBack-frame s.mem (update (update s.mem (b.tmp + s.p) ch) (b.cmd_line + s.cmd_pos) ch)
            b.cmd_line ls (λ a lo hi. ground (arith, v.pos)) v.held,
      );
    },
    omega arith,
    refl,
  )

  type_char-Edits :
      (ch : ℕ) (s : Terminal) (ls : List ℕ)
      → ch ≢ 0
      → ch ≢ enter
      → s.p < max_temp_buf
      → length ls < max_cmd_line
      → IsLine b s ls
      → Types ch s (edit ch ls)
  type_char-Edits ch s ls nz ne room short v = elim (Bool-cases (ch == backspace)) [
    | inl back ↦ subst (λ c. Types c s (edit c ls)) (ground arith) (erase-Edits s ls v)
    | inr other ↦
        subst (Types ch s) (sym (edit_other ch ls other))
          (add-Edits ch s ls nz ne (ground arith) room short v)
  ]

  -- From the line `ls`, characters other than Enter edit the line as they should, if the two buffers
  -- have room for them all.
  pub type_chars-Edits :
      (chs : List ℕ) (s : Terminal) (ls : List ℕ)
      → AreTyped chs
      → s.p + length chs ≤ max_temp_buf
      → length ls + length chs ≤ max_cmd_line
      → IsLine b s ls
      → (s' : Terminal) × (type_chars fuel t b chs s ≡ done s')
        × IsLine b s' (edits chs ls)
        × (s'.executed ≡ s.executed)
  unfolding type_chars
  type_chars-Edits [] s ls typed room short v = (s, refl, v, refl)
  type_chars-Edits (ch ∷ chs) s ls typed room short v =
      let (s1, run, v1, le, same) =
        type_char-Edits ch s ls (typed.0) (typed.1) (omega arith) (omega arith) v in
      let (s2, run2, v2, same2) =
        type_chars-Edits chs s1 (edit ch ls) (typed.2) (omega arith)
          (omega (arith, length-edit ch ls)) v1 in
      (s2, rw run run2, v2, same2 ∙ same)

  type_chars-append :
      (chs ds : List ℕ) (s s' : Terminal)
      → type_chars fuel t b chs s ≡ done s'
      → type_chars fuel t b (chs ++ ds) s ≡ type_chars fuel t b ds s'
  unfolding type_chars
  type_chars-append [] ds s s' e = ap (type_chars fuel t b ds) (done-eq e)
  type_chars-append (ch ∷ chs) ds s s' e =
      let (s1, run, e1) = >>=-eq-done (type_char fuel t b ch s) (type_chars fuel t b chs) e in
      rw run (type_chars-append chs ds s1 s' e1)

  enter_line :
      (s : Terminal) (ls : List ℕ)
      → IsLine b s ls
      → 0 < length ls
      → length ls < max_cmd_line
      → type_char fuel t b enter s ≡ (
          kterm_exec fuel t b.exec_tmp b.cmd_line (update s.mem (b.cmd_line + s.cmd_pos) 0) >>= λ r.
          done (next_line r s.executed))
  unfolding type_char
  enter_line s ls v some_char short =
      rw
        (
          lt→ltb 0 s.cmd_pos (omega (arith, v.pos)),
          lt→ltb s.cmd_pos max_cmd_line (omega (arith, v.pos)),
        )
        refl

  -- Where the buffers of the line and the echo do not overlap: Enter ends the line that the characters
  -- before it have edited, if that is not empty and the characters have room in the buffers: `kterm_exec` gets the edited text as a string; what it does is recorded, and
  -- the next line is empty; where it fails, so does the terminal.
  pub type_chars-Enters :
      (chs : List ℕ) (s : Terminal)
      → AreTyped chs
      → s.p + length chs ≤ max_temp_buf
      → 0 < length (edits chs [])
      → IsLine b s []
      → (mem : ℕ → ℕ) × IsString mem b.cmd_line (rev_onto (edits chs []) [])
        × (type_chars fuel t b (chs ++ (enter ∷ [])) s
            ≡ (kterm_exec fuel t b.exec_tmp b.cmd_line mem >>= λ r. done (next_line r s.executed)))
  unfolding type_chars
  type_chars-Enters chs s typed room some_char v =
      let ls = edits chs [] in
      let short : length ls ≤ length chs = omega (arith, length-edits chs []) in
      let (s1, run, v1, same) = type_chars-Edits chs s [] typed room (omega arith) v in
      let mem = update s1.mem (b.cmd_line + s1.cmd_pos) 0 in
      let held =
        HoldsBack-frame s1.mem mem b.cmd_line ls (λ a lo hi. ground (arith, v1.pos)) v1.held in
      (
        mem,
        HoldsBack-IsString mem b.cmd_line ls [] held (ground (arith, v1.pos)),
        type_chars-append chs (enter ∷ []) s s1 run
            ∙ >>=-done (type_char fuel t b enter s1)
            ∙ enter_line s1 ls v1 some_char (omega (arith, short))
            ∙ ap (λ x. kterm_exec fuel t b.exec_tmp b.cmd_line mem >>= λ r. done (next_line r x))
                same,
      )
