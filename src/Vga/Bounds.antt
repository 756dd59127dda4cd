-- ===== src/Vga/Bounds.antt =====
-- src/vga_cons.c: no character is drawn outside the screen, whatever the characters are.
use smor.Prelude.{
  ℕ, zero, suc, ◌+◌, ◌-◌, ◌*◌, ◌^◌, ◌<◌, ◌≤◌, ◌≡◌, refl, ◌∙◌, subst, inl, inr, leb, ◌==◌,
  if◌then◌else◌, update, arith, Bool-cases, u16,
}
use smor.Vga.{VgaConsole, vga_entry, put_tab, put_newline, scroll, draw_char, vga_cons_putchar}
use smor.Vga.Screen.{IsOnScreen, moved_up, next_column, next_line, scrolled_cells, wrap_line-line}

put_tab-column :
    (ch : ℕ) (s : VgaConsole)
    → put_tab ch s ≡ record s { x_pos = if ch == 9 then u16 (s.x_pos + 4) else s.x_pos }
unfolding put_tab
put_tab-column ch s = elim (Bool-cases (ch == 9)) [ inl e ↦ rw e refl | inr e ↦ rw e refl ]

put_newline-line :
    (ch : ℕ) (s : VgaConsole)
    → put_newline ch s ≡ record s {
      x_pos = if ch == 10 then 0 else s.x_pos;
      y_pos = if ch == 10 then u16 (s.y_pos + 1) else s.y_pos;
    }
unfolding put_newline
put_newline-line ch s = elim (Bool-cases (ch == 10)) [ inl e ↦ rw e refl | inr e ↦ rw e refl ]

-- `s'` is on a screen of the same size, and agrees with `s` outside it
abbrev pub Stays : (s s' : VgaConsole) → Type 0
Stays s s' =
    IsOnScreen s'
    × (s'.width ≡ s.width)
    × (s'.height ≡ s.height)
    × ((i : ℕ) → s.width * s.height ≤ i → s'.fb i ≡ s.fb i)

-- a screen of at least one cell, with the cursor at `x` and `y`
record Sized (s : VgaConsole) : Type 0 where
  wide : 0 < s.width
  high : 0 < s.height
  width_fits : s.width + 4 < 2 ^ 16
  height_fits : s.height + 2 < 2 ^ 16
  column : s.x_pos ≤ s.width + 3

moved_up-outside :
    (width height i : ℕ) (fb : ℕ → ℕ)
    → 0 < height
    → width * height ≤ i
    → moved_up width (height - 1) fb i ≡ fb i
moved_up-outside width zero i fb high out = absurd (omega arith)
moved_up-outside width (suc last) i fb high out =
    let size : width * last + width ≡ width * suc last = grind arith in ground (arith, size)

scroll-Stays : (s : VgaConsole) → Sized s → Stays s (scroll s)
unfolding scroll
scroll-Stays s v = elim (Bool-cases (leb s.height s.y_pos)) [
  | inl leaves ↦ rw leaves (
    record {
      wide = v.wide;
      high = v.high;
      width_fits = v.width_fits;
      height_fits = v.height_fits;
      column = v.column;
      line = omega (arith, v.high);
    },
    refl,
    refl,
    λ i out.
        scrolled_cells s.width (s.height - 1) i s.fb v.wide
        ∙ moved_up-outside s.width s.height i s.fb v.high out,
  )
  | inr stays ↦ rw stays (
    record {
      wide = v.wide;
      high = v.high;
      width_fits = v.width_fits;
      height_fits = v.height_fits;
      column = v.column;
      line = ground arith;
    },
    refl,
    refl,
    λ i out. refl,
  )
]

row_inside : (width x y below : ℕ) → x < width → y * width + x < width * (y + 1 + below)
row_inside width x y below h = grind arith

cell_inside :
    (s : VgaConsole)
    → IsOnScreen s
    → s.x_pos < s.width
    → s.y_pos * s.width + s.x_pos < s.width * s.height
cell_inside s v column =
    let below : s.y_pos + 1 + (s.height - (s.y_pos + 1)) ≡ s.height = omega (arith, v.line) in
    subst (λ h. s.y_pos * s.width + s.x_pos < s.width * h) below
      (row_inside s.width s.x_pos s.y_pos (s.height - (s.y_pos + 1)) column)

put_inside :
    {i n cell : ℕ} (value : ℕ) (fb : ℕ → ℕ) → cell < n → n ≤ i → update fb cell value i ≡ fb i
put_inside value fb inside out = ground arith

cong_size :
    (s s' : VgaConsole)
    → s'.width ≡ s.width
    → s'.height ≡ s.height
    → s.width * s.height ≡ s'.width * s'.height
cong_size s s' w h = rw (w, h) refl

draw_char-Stays :
    (ch : ℕ) (s s' : VgaConsole)
    → (32 ≤ ch → s'.x_pos < s'.width)
    → Stays s s'
    → Stays s (draw_char ch s')
unfolding draw_char
draw_char-Stays ch s s' room (v, w, h, same) = elim (Bool-cases (leb 32 ch)) [
  | inl shown ↦
      let column : s'.x_pos < s'.width = room (ground arith) in
      let next : u16 (s'.x_pos + 1) ≡ s'.x_pos + 1 = omega (arith, v.width_fits) in
      rw (shown, next)
        (
          record {
            wide = v.wide;
            high = v.high;
            width_fits = v.width_fits;
            height_fits = v.height_fits;
            column = omega arith;
            line = v.line;
          },
          w,
          h,
          λ i out.
              put_inside (vga_entry ch s'.color) s'.fb (cell_inside s' v column)
                (subst (λ n. n ≤ i) (cong_size s s' w h) out)
              ∙ same i out,
        )
  | inr hidden ↦ rw hidden (v, w, h, same)
]

scroll-column : (s : VgaConsole) → (scroll s).x_pos ≡ s.x_pos
unfolding scroll
scroll-column s = elim (Bool-cases (leb s.height s.y_pos)) [ inl e ↦ rw e refl | inr e ↦ rw e refl ]

-- Every character leaves the cursor on the screen, or up to a tab behind a line's end, and changes no
-- cell of memory outside the screen.
pub vga_cons_putchar-Stays :
    (ch : ℕ) (s : VgaConsole) → IsOnScreen s → Stays s (vga_cons_putchar ch s)
unfolding vga_cons_putchar
vga_cons_putchar-Stays ch s v =
    let column = if ch == 9 then u16 (next_column s + 4) else next_column s in
    let moved = record s {
      x_pos = if ch == 10 then 0 else column;
      y_pos = if ch == 10 then u16 (next_line s + 1) else next_line s;
    } in
    let fits : next_column s < s.width = ground (arith, v.wide) in
    let sized : Sized moved = record {
      wide = v.wide;
      high = v.high;
      width_fits = v.width_fits;
      height_fits = v.height_fits;
      column = ground (arith, fits, v.width_fits);
    } in
    rw
      (
        wrap_line-line s v,
        put_tab-column ch (record s { x_pos = next_column s; y_pos = next_line s }),
        put_newline-line ch (record s { x_pos = column; y_pos = next_line s }),
      )
      (draw_char-Stays ch s (scroll moved)
        (λ shown. rw (scroll-column moved, (scroll-Stays moved sized).1) (ground (arith, fits)))
        (scroll-Stays moved sized))
