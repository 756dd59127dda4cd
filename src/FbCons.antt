-- ===== src/FbCons.antt =====
-- src/fb_cons.c: text on a screen of pixels. `fb` gives the pixels of 16 bits at their offsets in bytes
-- from the start of the screen's memory on, where a line of pixels takes an even number of bytes. The
-- glyphs of src/fb_font.c are an argument.
pub mod Cursor
mod Tests
use smor.Prelude.{
  ℕ, zero, suc, ◌+◌, ◌-◌, ◌*◌, ◌/◌, ◌%◌, ◌^◌, true, false, ◌==◌, ltb, leb, ◌||◌, if◌then◌else◌,
  update, Outcome, done, undefined, ◌>>=◌, u16, u32,
}
use smor.Multiboot.{MbInfo}
use smor.VmBoot.{BootTables, vm_boot_map_range}

pub record FbScreen : Type 0 where
  pub fb : ℕ → ℕ
  pub pitch : ℕ
  pub width : ℕ
  pub height : ℕ
  pub x_pos : ℕ
  pub y_pos : ℕ
  pub font_width : ℕ
  pub font_height : ℕ
  pub clear_color : ℕ

-- `RGB_565` of a blue alone
abbrev pub blue_565 : ℕ → ℕ
blue_565 b = b / 2 ^ 3

-- the product of two 32-bit numbers wraps; `pixels` are those that the memory holds
pub fb_cons_init : (pixels : ℕ → ℕ) → MbInfo → BootTables → Outcome (FbScreen × BootTables)
fb_cons_init pixels b m = do
  m1 ← vm_boot_map_range b.fb_addr b.fb_addr (u32 (b.fb_pitch * b.fb_height)) m
  let cons : FbScreen = record {
    fb = pixels;
    pitch = u16 b.fb_pitch;
    width = u16 b.fb_width;
    height = u16 b.fb_height;
    x_pos = 0;
    y_pos = 0;
    font_width = 8;
    font_height = 16;
    clear_color = blue_565 0xAA;
  }
  done (cons, m1)

-- the inner loop over the pixels of a line: the number left, the place
pub clear_pixels : ℕ → (color p : ℕ) → (ℕ → ℕ) → ℕ → ℕ
clear_pixels zero color p fb = fb
clear_pixels (suc n) color p fb = clear_pixels n color (p + 2) (update fb p color)

-- the loops over lines of `n` pixels: the number left, the place
pub clear_lines : ℕ → (n pitch color ptr : ℕ) → (ℕ → ℕ) → ℕ → ℕ
clear_lines zero n pitch color ptr fb = fb
clear_lines (suc lines) n pitch color ptr fb =
    clear_lines lines n pitch color (ptr + pitch) (clear_pixels n color ptr fb)

pub fb_cons_clear : FbScreen → FbScreen
fb_cons_clear s = record s { fb = clear_lines s.height s.width s.pitch s.clear_color 0 s.fb }

-- the loop over the 8 columns of a line of a glyph: the number left, the column
pub draw_columns : ℕ → (line : ℕ → ℕ) → (x ptr : ℕ) → (ℕ → ℕ) → ℕ → ℕ
draw_columns zero line x ptr fb = fb
draw_columns (suc n) line x ptr fb =
    let p = ptr + 2 * x in
    let drawn =
      if line x == 0xFF then update fb p 0xFFFF else if line x == 0xBB then update fb p 0 else fb in
    draw_columns n line (x + 1) ptr drawn

-- the loop over its 16 lines of 9 bytes
pub draw_lines : ℕ → (glyph : ℕ → ℕ) → (y ptr pitch : ℕ) → (ℕ → ℕ) → ℕ → ℕ
draw_lines zero glyph y ptr pitch fb = fb
draw_lines (suc n) glyph y ptr pitch fb =
    draw_lines n glyph (y + 1) (ptr + pitch) pitch
      (draw_columns 8 (λ x. glyph (y * 9 + x)) 0 ptr fb)

abbrev pub num_glyphs : ℕ
num_glyphs = 96

-- a character past the table of glyphs is undefined
pub fb_draw_char : (glyphs : ℕ → ℕ → ℕ) → (ch : ℕ) → FbScreen → Outcome FbScreen
fb_draw_char glyphs ch s =
    let ptr = s.y_pos * s.pitch + s.x_pos * 2 in
    let drawn = record s { fb = draw_lines 16 (glyphs (ch - 31)) 0 ptr s.pitch s.fb } in
    if ltb (ch - 31) num_glyphs then done drawn else undefined

pub fb_clear_char : (x num : ℕ) → FbScreen → FbScreen
fb_clear_char x num s =
    let ptr = s.y_pos * s.pitch + x * s.font_width * 2 in
    record s { fb = clear_lines 16 (u32 (num * s.font_width)) s.pitch s.clear_color ptr s.fb }

pub fb_cons_clear_char : (num : ℕ) → FbScreen → FbScreen
fb_cons_clear_char num s =
    let x = s.x_pos / s.font_width in
    let x_pos = if ltb x num then 0 else x - num in
    let cleared = fb_clear_char x_pos (x - x_pos) s in
    if x - x_pos == 0 then s else record cleared { x_pos = u16 (x_pos * s.font_width) }

pub fb_cons_clear_line : FbScreen → FbScreen
fb_cons_clear_line s =
    let cleared = fb_clear_char 0 s.x_pos s in
    if s.x_pos == 0 then s else record cleared { x_pos = 0 }

-- the test for the end of a line, and the next line
pub end_line : FbScreen → FbScreen
end_line s = record s { x_pos = 0; y_pos = u16 (s.y_pos + s.font_height) }

-- `memcpy` of `n` pixels from the offset `src` to the offset `dst`, upwards
pub move_pixels : ℕ → (dst src : ℕ) → (ℕ → ℕ) → ℕ → ℕ
move_pixels zero dst src fb = fb
move_pixels (suc n) dst src fb = move_pixels n (dst + 2) (src + 2) (update fb dst (fb src))

-- the screen is at least as high as a line of text
pub scroll_lines : FbScreen → FbScreen
scroll_lines s =
    let rest = s.height - s.font_height in
    let moved = move_pixels (s.pitch * rest / 2) 0 (s.pitch * s.font_height) s.fb in
    if leb s.height s.y_pos
    then record s {
      fb = clear_lines s.font_height s.width s.pitch s.clear_color (rest * s.pitch) moved;
      y_pos = rest;
    }
    else s

pub fb_cons_putchar : (glyphs : ℕ → ℕ → ℕ) → (ch : ℕ) → FbScreen → Outcome FbScreen
fb_cons_putchar glyphs ch s =
    let s1 = if leb s.width s.x_pos then end_line s else s in
    let shown =
      (fb_draw_char glyphs ch (scroll_lines s1) >>= λ s2.
      done (record s2 { x_pos = u16 (s2.x_pos + s2.font_width) })) in
    if ch == 9
    then done (record s1 { x_pos = u16 (s1.x_pos + 4 * s1.font_width) })
    else if ch == 8
    then done (fb_cons_clear_char 1 s1)
    else if (ch == 10) || (ch == 13)
    then done (end_line s1)
    else if leb 32 ch
    then shown
    else done (scroll_lines s1)
