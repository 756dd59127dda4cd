-- ===== src/Vga.antt =====
-- src/vga_cons.c: the text screen. `fb` gives the cells of 16 bits from the start of the screen's
-- memory on.
pub mod Screen
pub mod Bounds
mod Tests
use smor.Prelude.{
  ℕ, zero, suc, ◌+◌, ◌-◌, ◌*◌, ◌%◌, ◌^◌, true, false, ◌==◌, leb, if◌then◌else◌, update, u16,
}

pub record VgaConsole : Type 0 where
  pub fb : ℕ → ℕ
  pub x_pos : ℕ
  pub y_pos : ℕ
  pub width : ℕ
  pub height : ℕ
  pub color : ℕ

-- `bg << 4` and `fg` have no bit in common, and so have the two bytes of a cell
abbrev pub vga_entry_color : (fg bg : ℕ) → ℕ
vga_entry_color fg bg = (fg + bg * 2 ^ 4) % 2 ^ 8

abbrev pub vga_entry : (uc color : ℕ) → ℕ
vga_entry uc color = u16 (uc + color * 2 ^ 8)

-- VGA_COLOR_LIGHT_GREY is 7, VGA_COLOR_BLACK is 0
pub vga_cons_init : (vga : ℕ → ℕ) → VgaConsole
vga_cons_init vga = record {
  fb = vga;
  x_pos = 0;
  y_pos = 0;
  width = 80;
  height = 25;
  color = vga_entry_color 7 0;
}

-- `memcpy` to the cell `dst` from `src`, upwards: the number of cells left. It copies bytes upwards,
-- which is the same for cells that lie a whole number of cells apart.
pub copy_cells : ℕ → (dst src : ℕ) → (ℕ → ℕ) → ℕ → ℕ
copy_cells zero dst src fb = fb
copy_cells (suc n) dst src fb = copy_cells n (dst + 1) (src + 1) (update fb dst (fb src))

-- the loop that clears the last line
pub clear_cells : ℕ → (p : ℕ) → (ℕ → ℕ) → ℕ → ℕ
clear_cells zero p fb = fb
clear_cells (suc n) p fb = clear_cells n (p + 1) (update fb p 0)

-- the tests of `vga_cons_putchar` in their order
pub wrap_line : VgaConsole → VgaConsole
wrap_line s = if leb s.width s.x_pos then record s { x_pos = 0; y_pos = u16 (s.y_pos + 1) } else s

pub put_tab : (ch : ℕ) → VgaConsole → VgaConsole
put_tab ch s = if ch == 9 then record s { x_pos = u16 (s.x_pos + 4) } else s

pub put_newline : (ch : ℕ) → VgaConsole → VgaConsole
put_newline ch s = if ch == 10 then record s { x_pos = 0; y_pos = u16 (s.y_pos + 1) } else s

-- the height is 25: `height - 1` is not negative
pub scroll : VgaConsole → VgaConsole
unfolding copy_cells clear_cells
scroll s =
    let last = s.height - 1 in
    let copied = copy_cells (s.width * last) 0 s.width s.fb in
    if leb s.height s.y_pos
    then record s { fb = clear_cells s.width (last * s.width) copied; y_pos = last }
    else s

pub draw_char : (ch : ℕ) → VgaConsole → VgaConsole
draw_char ch s =
    let cell = s.y_pos * s.width + s.x_pos in
    if leb 32 ch
    then record s { fb = update s.fb cell (vga_entry ch s.color); x_pos = u16 (s.x_pos + 1) }
    else s

pub vga_cons_putchar : (ch : ℕ) → VgaConsole → VgaConsole
unfolding wrap_line put_tab put_newline scroll draw_char
vga_cons_putchar ch s = draw_char ch (scroll (put_newline ch (put_tab ch (wrap_line s))))
