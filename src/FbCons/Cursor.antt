-- ===== src/FbCons/Cursor.antt =====
-- src/fb_cons.c: a backspace takes the cursor back over the last character.
use smor.Prelude.{
  ℕ, ◌+◌, ◌-◌, ◌*◌, ◌/◌, ◌%◌, ◌^◌, ◌<◌, ◌≤◌, ◌≡◌, refl, true, false, ltb, leb, done, ◌>>=◌, arith,
  u16, ne→==,
}
use smor.FbCons.{
  FbScreen, num_glyphs, fb_draw_char, draw_lines, scroll_lines, fb_clear_char, fb_cons_clear_char,
  fb_cons_putchar,
}

-- a screen whose cursor is at a whole number of characters, with room for one more before the last
pub record HasRoom (s : FbScreen) : Type 0 where
  pub font : s.font_width ≡ 8
  pub column : s.x_pos % 8 ≡ 0
  pub room : s.x_pos + 8 < s.width
  pub fits : s.width < 2 ^ 16
  pub line : s.y_pos < s.height

-- the screen with the character drawn at the cursor
abbrev pub drawn : (glyphs : ℕ → ℕ → ℕ) → (ch : ℕ) → FbScreen → FbScreen
drawn glyphs ch s = record s {
  fb = draw_lines 16 (glyphs (ch - 31)) 0 (s.y_pos * s.pitch + s.x_pos * 2) s.pitch s.fb;
  x_pos = s.x_pos + 8;
}

draw_char-drawn :
    (glyphs : ℕ → ℕ → ℕ) (ch : ℕ) (s : FbScreen)
    → ltb (ch - 31) num_glyphs ≡ true
    → fb_draw_char glyphs ch s ≡ done (record (drawn glyphs ch s) { x_pos = s.x_pos })
unfolding fb_draw_char
draw_char-drawn glyphs ch s glyph = rw glyph refl

scroll_lines-stays : (s : FbScreen) → leb s.height s.y_pos ≡ false → scroll_lines s ≡ s
unfolding scroll_lines
scroll_lines-stays s h = rw h refl

putchar-drawn :
    (glyphs : ℕ → ℕ → ℕ) (ch : ℕ) (s : FbScreen)
    → HasRoom s
    → 32 ≤ ch
    → ch < 127
    → fb_cons_putchar glyphs ch s ≡ done (drawn glyphs ch s)
unfolding fb_cons_putchar
putchar-drawn glyphs ch s v lo hi =
    let no_wrap : leb s.width s.x_pos ≡ false = ground (arith, v.room) in
    let no_scroll : leb s.height s.y_pos ≡ false = ground (arith, v.line) in
    let next : u16 (s.x_pos + s.font_width) ≡ s.x_pos + 8 = omega (arith, v.font, v.room, v.fits) in
    let glyph : ltb (ch - 31) num_glyphs ≡ true = ground arith in
    let shown : leb 32 ch ≡ true = ground arith in
    rw
      (
        no_wrap,
        ne→== ch 9 (omega arith),
        ne→== ch 8 (omega arith),
        ne→== ch 10 (omega arith),
        ne→== ch 13 (omega arith),
        shown,
        scroll_lines-stays s no_scroll,
        draw_char-drawn glyphs ch s glyph,
        next,
      )
      refl

backspace_back :
    (glyphs : ℕ → ℕ → ℕ) (s : FbScreen)
    → s.font_width ≡ 8
    → s.x_pos % 8 ≡ 0
    → s.x_pos < s.width
    → s.width < 2 ^ 16
    → 0 < s.x_pos
    → fb_cons_putchar glyphs 8 s
      ≡ done (record (fb_clear_char (s.x_pos / 8 - 1) 1 s) { x_pos = s.x_pos - 8 })
unfolding fb_cons_putchar fb_cons_clear_char
backspace_back glyphs s font column room fits some_char =
    let no_wrap : leb s.width s.x_pos ≡ false = ground arith in
    let a_char : ltb (s.x_pos / 8) 1 ≡ false = ground arith in
    let one : s.x_pos / 8 - (s.x_pos / 8 - 1) ≡ 1 = omega arith in
    let back : u16 ((s.x_pos / 8 - 1) * 8) ≡ s.x_pos - 8 = omega arith in
    rw (no_wrap, font, a_char, one, back) refl

-- A character that can be seen, drawn where the line has room for one more, moves the cursor by a
-- character; a backspace then takes it back, and clears the place of the character.
pub backspace-putchar :
    (glyphs : ℕ → ℕ → ℕ) (ch : ℕ) (s : FbScreen)
    → HasRoom s
    → 32 ≤ ch
    → ch < 127
    → (fb_cons_putchar glyphs ch s >>= λ s1. fb_cons_putchar glyphs 8 s1)
      ≡ done (record (fb_clear_char (s.x_pos / 8) 1 (drawn glyphs ch s)) { x_pos = s.x_pos })
backspace-putchar glyphs ch s v lo hi =
    let next : (s.x_pos + 8) / 8 - 1 ≡ s.x_pos / 8 = omega arith in
    let back : s.x_pos + 8 - 8 ≡ s.x_pos = omega arith in
    rw
      (
        putchar-drawn glyphs ch s v lo hi,
        backspace_back glyphs (drawn glyphs ch s) v.font (omega (arith, v.column)) v.room v.fits
            (omega arith),
        next,
        back,
      )
      refl
