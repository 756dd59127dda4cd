-- ===== src/FbCons/Tests.antt =====
-- A screen of 640 by 480 pixels with the cursor in its second line, and the theorem at it.
use smor.Prelude.{ℕ, ◌≡◌, refl, done, ◌>>=◌, arith}
use smor.FbCons.{FbScreen, fb_clear_char, fb_cons_putchar}
use smor.FbCons.Cursor.{drawn, backspace-putchar}

abbrev screen : FbScreen
screen = record {
  fb = λ _. 21;
  pitch = 1280;
  width = 640;
  height = 480;
  x_pos = 24;
  y_pos = 16;
  font_width = 8;
  font_height = 16;
  clear_color = 21;
}

abbrev glyphs : ℕ → ℕ → ℕ
glyphs ch i = 0xFF

backspace-putchar_case :
    (fb_cons_putchar glyphs 65 screen >>= λ s1. fb_cons_putchar glyphs 8 s1)
    ≡ done (record (fb_clear_char 3 1 (drawn glyphs 65 screen)) { x_pos = 24 })
backspace-putchar_case =
    backspace-putchar glyphs 65 screen
      (record {
        font = refl;
        column = refl;
        room = omega arith;
        fits = omega arith;
        line = omega arith;
      })
      (omega arith) (omega arith)
