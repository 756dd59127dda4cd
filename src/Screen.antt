-- ===== src/Screen.antt =====
-- src/console.c: the functions that pass characters to the screen, one caller at a time. The pointers
-- to functions are those that `console_init` sets, the ones of src/fb_cons.c.
use smor.Prelude.{ℕ, zero, suc, ◌+◌, ◌==◌, if◌then◌else◌, Outcome, done, hang, ◌>>=◌}
use smor.Thread.{Machine, cpu_splhi, cpu_splx, spinlock_lock, spinlock_unlock}
use smor.Multiboot.{MbInfo}
use smor.VmBoot.{BootTables}
use smor.FbCons.{
  FbScreen, fb_cons_init, fb_cons_clear, fb_cons_putchar, fb_cons_clear_char, fb_cons_clear_line,
}

pub record ConsoleScreen : Type 0 where
  pub lock : ℕ
  pub cons : FbScreen

-- the lock is a variable that is 0 at the start
pub console_init : (pixels : ℕ → ℕ) → MbInfo → BootTables → Outcome (ConsoleScreen × BootTables)
console_init pixels b m = do
  (cons, m1) ← fb_cons_init pixels b m
  done (record { lock = 0; cons = fb_cons_clear cons }, m1)

-- the calls of `console_putchar_fn` on a string
pub put_chars : (glyphs : ℕ → ℕ → ℕ) → ℕ → (mem : ℕ → ℕ) → (str : ℕ) → FbScreen → Outcome FbScreen
put_chars glyphs zero mem str cons = hang
put_chars glyphs (suc fuel) mem str cons =
    let rest =
      (fb_cons_putchar glyphs (mem str) cons >>= λ c1. put_chars glyphs fuel mem (str + 1) c1) in
    if mem str == 0 then done cons else rest

-- what the four functions share: interrupts off and the lock taken around a call
pub with_screen :
    (FbScreen → Outcome FbScreen) → ConsoleScreen → Machine → Outcome (ConsoleScreen × Machine)
with_screen call s m = do
  let (spl, m1) = cpu_splhi m
  held ← spinlock_lock s.lock
  cons ← call s.cons
  done (record { lock = spinlock_unlock held; cons = cons }, cpu_splx spl m1)

pub console_putstr :
    (glyphs : ℕ → ℕ → ℕ)
    → (fuel : ℕ) → (mem : ℕ → ℕ) → (str : ℕ) → ConsoleScreen
    → Machine
    → Outcome (ConsoleScreen × Machine)
console_putstr glyphs fuel mem str s m = with_screen (put_chars glyphs fuel mem str) s m

pub console_putchar :
    (glyphs : ℕ → ℕ → ℕ) → (ch : ℕ) → ConsoleScreen → Machine → Outcome (ConsoleScreen × Machine)
console_putchar glyphs ch s m = with_screen (fb_cons_putchar glyphs ch) s m

pub console_clear_char : (num : ℕ) → ConsoleScreen → Machine → Outcome (ConsoleScreen × Machine)
console_clear_char num s m = with_screen (λ c. done (fb_cons_clear_char num c)) s m

pub console_clear_line : ConsoleScreen → Machine → Outcome (ConsoleScreen × Machine)
console_clear_line s m = with_screen (λ c. done (fb_cons_clear_line c)) s m
