-- ===== src/Kterm.antt =====
-- src/kterm.c: the kernel's terminal. A line of input is cut into arguments and names a command; the
-- function of a command is named by its address. `mem` holds the bytes of the strings.
pub mod Args
pub mod Split
pub mod Exec
pub mod Line
mod Tests
use smor.Prelude.{
  ℕ, zero, suc, ◌+◌, ◌-◌, Bool, true, false, ◌&&◌, not, ◌==◌, ltb, leb, if◌then◌else◌, update,
  Option, none, some, List, [], ◌∷◌, ◌++◌, length, Outcome, done, hang, undefined, check, ◌>>=◌,
  ◌>>◌,
}
use smor.Strings.{StrOrder, less, same, greater, count_chars, strcmp, strcpy}

pub record KtermCmd : Type 0 where
  pub name : ℕ
  pub cmd_fn : ℕ

pub record Commands : Type 0 where
  pub commands : ℕ → KtermCmd
  pub num_commands : ℕ

abbrev pub max_kterm_cmds : ℕ
max_kterm_cmds = 16

pub kterm_add_cmd : (name fn : ℕ) → Commands → Outcome Commands
kterm_add_cmd name fn t = do
  check (ltb t.num_commands max_kterm_cmds)
  let cmd : KtermCmd = record { name = name; cmd_fn = fn }
  done (record t {
    commands = update t.commands t.num_commands cmd;
    num_commands = t.num_commands + 1;
  })

-- `' '`
abbrev pub space : ℕ
space = 32

-- the first inner loop of `kterm_exec`
pub skip_spaces : ℕ → (p : ℕ) → (mem : ℕ → ℕ) → Outcome (ℕ × (ℕ → ℕ))
skip_spaces zero p mem = hang
skip_spaces (suc fuel) p mem =
    let rest = skip_spaces fuel (p + 1) (update mem p 0) in
    if not (mem p == 0) && (mem p == space) then rest else done (p, mem)

-- the second
pub skip_word : ℕ → (p : ℕ) → (mem : ℕ → ℕ) → Outcome ℕ
skip_word zero p mem = hang
skip_word (suc fuel) p mem =
    let rest = skip_word fuel (p + 1) mem in
    if not (mem p == 0) && not (mem p == space) then rest else done p

abbrev pub max_args : ℕ
max_args = 32

-- the outer loop; a write past `args` is undefined
pub split_args : ℕ → (args : List ℕ) → (p : ℕ) → (mem : ℕ → ℕ) → Outcome (List ℕ × (ℕ → ℕ))
split_args zero args p mem = hang
split_args (suc fuel) args p mem =
    let rest = (do
      (p1, mem1) ← skip_spaces fuel p mem
      if ltb (length args) max_args
          then (do p2 ← skip_word fuel p1 mem1; split_args fuel (args ++ (p1 ∷ [])) p2 mem1)
          else undefined) in
    if mem p == 0 then done (args, mem) else rest

pub data Executed : Type 0 where
  ran : (fn : ℕ) (args : List ℕ) → Executed
  unknown : Executed

-- the loop over the commands: the number of rounds left, the index
pub find_cmd : ℕ → ℕ → (i : ℕ) → Commands → (arg : ℕ) → (mem : ℕ → ℕ) → Outcome (Option ℕ)
find_cmd fuel zero i t arg mem = done none
find_cmd fuel (suc n) i t arg mem = do
  order ← strcmp fuel mem (t.commands i).name arg
  let rest = find_cmd fuel n (i + 1) t arg mem
  (elim order [ same ↦ done (some (t.commands i).cmd_fn) | _ ↦ rest ])

abbrev pub run_cmd : Option ℕ → List ℕ → Executed
run_cmd none args = unknown
run_cmd (some fn) args = ran fn args

abbrev pub max_temp_buf : ℕ
max_temp_buf = 64

-- `tmp` is the address of the buffer of 64 bytes, which a longer string overflows.
pub kterm_exec : ℕ → Commands → (tmp str : ℕ) → (mem : ℕ → ℕ) → Outcome (Executed × (ℕ → ℕ))
kterm_exec fuel t tmp str mem = do
  n ← count_chars fuel mem str 0
  if ltb n max_temp_buf
      then (do
        mem1 ← strcpy fuel tmp str mem
        (args, mem2) ← split_args fuel [] tmp mem1
        (elim args [
          | [] ↦ done (unknown, mem2)
          | arg ∷ more ↦
              (find_cmd fuel t.num_commands 0 t arg mem2 >>= λ fn.
              done (run_cmd fn (arg ∷ more), mem2))
        ]))
      else undefined

abbrev pub max_cmd_line : ℕ
max_cmd_line = 256

-- `kterm_run`: its buffers `cmd_line` and `tmp`, and the `tmp` of `kterm_exec`, by their addresses
pub record Buffers : Type 0 where
  pub cmd_line : ℕ
  pub tmp : ℕ
  pub exec_tmp : ℕ

-- `p` is the index in `tmp`; `executed` is what the lines did, the last one first
pub record Terminal : Type 0 where
  pub mem : ℕ → ℕ
  pub cmd_pos : ℕ
  pub p : ℕ
  pub executed : List Executed

-- `'\r'` and `'\b'`
abbrev pub enter : ℕ
enter = 13

abbrev pub backspace : ℕ
backspace = 8

module _ (fuel : ℕ) (t : Commands) (b : Buffers) where
  -- one round of the loop over the characters, without what it prints; a write past a buffer is
  -- undefined
  pub type_char : (ch : ℕ) → Terminal → Outcome Terminal
  type_char ch s =
      let ended = update s.mem (b.cmd_line + s.cmd_pos) 0 in
      let line =
        if ltb s.cmd_pos max_cmd_line
        then (kterm_exec fuel t b.exec_tmp b.cmd_line ended >>= λ r.
            done (record s { mem = r.1; cmd_pos = 0; p = 0; executed = r.0 ∷ s.executed }))
        else undefined in
      let erased = record s {
        cmd_pos = s.cmd_pos - 1;
        mem = update s.mem (b.cmd_line + (s.cmd_pos - 1)) 0;
      } in
      let echoed = update s.mem (b.tmp + s.p) ch in
      let typed = record s {
        p = s.p + 1;
        cmd_pos = s.cmd_pos + 1;
        mem = update echoed (b.cmd_line + s.cmd_pos) ch;
      } in
      if ch == enter
      then (if ltb 0 s.cmd_pos then line else done (record s { p = 0 }))
      else if ch == backspace
      then done (if ltb 0 s.cmd_pos then erased else s)
      else if ltb s.p max_temp_buf && ltb s.cmd_pos max_cmd_line
      then done typed
      else undefined

  pub type_chars : List ℕ → Terminal → Outcome Terminal
  unfolding type_char
  type_chars [] s = done s
  type_chars (ch ∷ chs) s = do s1 ← type_char ch s; type_chars chs s1

  -- one round of the outer loop, on the characters that `kbd_read` gives
  pub kterm_run_round : List ℕ → Terminal → Outcome Terminal
  unfolding type_chars
  kterm_run_round chs s = do
    s1 ← type_chars chs (record s { p = 0 })
    if ltb 0 s1.p
        then (if ltb s1.p max_temp_buf
            then done (record s1 { mem = update s1.mem (b.tmp + s1.p) 0 })
            else undefined)
        else done s1
