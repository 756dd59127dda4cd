-- ===== src/Vga/Screen.antt =====
-- src/vga_cons.c: a character is drawn where the cursor is, on a screen that scrolls when the cursor
-- leaves it.
use smor.Prelude.{
  ℕ, zero, suc, ◌+◌, ◌-◌, ◌*◌, ◌%◌, ◌^◌, ◌<◌, ◌≤◌, ◌≡◌, refl, ◌∙◌, subst, inl, inr, true, false,
  ltb, leb, ◌==◌, if◌then◌else◌, update, arith, Bool-cases, u16,
}
use smor.Vga.{
  VgaConsole, vga_entry, copy_cells, clear_cells, wrap_line, put_tab, put_newline, scroll,
  draw_char, vga_cons_putchar,
}

copy_cells-get :
    (n dst k i : ℕ) (fb : ℕ → ℕ)
    → 0 < k
    → copy_cells n dst (dst + k) fb i
      ≡ (if leb dst i then (if ltb i (dst + n) then fb (i + k) else fb i) else fb i)
unfolding copy_cells
copy_cells-get zero dst k i fb pos = ground arith
copy_cells-get (suc n) dst k i fb pos =
    let same : dst + k + 1 ≡ dst + 1 + k = omega arith in
    rw (same, copy_cells-get n (dst + 1) k i (update fb dst (fb (dst + k))) pos) (ground arith)

clear_cells-get :
    (n p i : ℕ) (fb : ℕ → ℕ)
    → clear_cells n p fb i ≡ (if leb p i then (if ltb i (p + n) then 0 else fb i) else fb i)
unfolding clear_cells
clear_cells-get zero p i fb = ground arith
clear_cells-get (suc n) p i fb = ground (arith, clear_cells-get n (p + 1) i (update fb p 0))

-- the cells of a screen of lines of `width` cells that has moved up by a line, `last` lines below it
abbrev pub moved_up : (width last : ℕ) → (ℕ → ℕ) → ℕ → ℕ
moved_up width last fb i =
    if ltb i (width * last)
    then fb (i + width)
    else if ltb i (width * last + width)
    then 0
    else fb i

copied_cells :
    (n k i : ℕ) (fb : ℕ → ℕ)
    → 0 < k
    → copy_cells n 0 k fb i ≡ (if ltb i n then fb (i + k) else fb i)
copied_cells n k i fb pos =
    let zero_add : 0 + k ≡ k = omega arith in
    subst (λ x. copy_cells n 0 x fb i ≡ (if ltb i n then fb (i + k) else fb i)) zero_add
      (copy_cells-get n 0 k i fb pos ∙ ground arith)

cleared_cells :
    (n width i : ℕ) (fb : ℕ → ℕ)
    → 0 < width
    → clear_cells width n (copy_cells n 0 width fb) i
      ≡ (if ltb i n then fb (i + width) else if ltb i (n + width) then 0 else fb i)
cleared_cells n width i fb pos =
    ground
      (arith, clear_cells-get width n i (copy_cells n 0 width fb), copied_cells n width i fb pos)

pub scrolled_cells :
    (width last i : ℕ) (fb : ℕ → ℕ)
    → 0 < width
    → clear_cells width (last * width) (copy_cells (width * last) 0 width fb) i
      ≡ moved_up width last fb i
scrolled_cells width last i fb pos =
    let swap : last * width ≡ width * last = grind arith in
    rw swap (cleared_cells (width * last) width i fb pos)

pub record IsOnScreen (s : VgaConsole) : Type 0 where
  pub wide : 0 < s.width
  pub high : 0 < s.height
  pub width_fits : s.width + 4 < 2 ^ 16
  pub height_fits : s.height + 2 < 2 ^ 16
  pub column : s.x_pos ≤ s.width + 3
  pub line : s.y_pos < s.height

-- the place of the next character, before the screen is scrolled
abbrev pub next_column : VgaConsole → ℕ
next_column s = if leb s.width s.x_pos then 0 else s.x_pos

abbrev pub next_line : VgaConsole → ℕ
next_line s = if leb s.width s.x_pos then s.y_pos + 1 else s.y_pos

-- the screen as it is when the next character is drawn
abbrev pub ready : VgaConsole → ℕ → ℕ
ready s i = if next_line s == s.height then moved_up s.width (s.height - 1) s.fb i else s.fb i

abbrev pub drawn_line : VgaConsole → ℕ
drawn_line s = if next_line s == s.height then s.height - 1 else next_line s

-- `s'` is `s` with the character `ch` at the cursor
pub record Drawn (ch : ℕ) (s s' : VgaConsole) : Type 0 where
  pub cursor : (s'.x_pos ≡ next_column s + 1) × (s'.y_pos ≡ drawn_line s)
  pub cells :
      (i : ℕ)
      → s'.fb i
        ≡ (if i == drawn_line s * s.width + next_column s then vga_entry ch s.color else ready s i)

pub wrap_line-line :
    (s : VgaConsole)
    → IsOnScreen s
    → wrap_line s ≡ record s { x_pos = next_column s; y_pos = next_line s }
unfolding wrap_line
wrap_line-line s v =
    let small : (s.y_pos + 1) % 2 ^ 16 ≡ s.y_pos + 1 = omega (arith, v.line, v.height_fits) in
    elim (Bool-cases (leb s.width s.x_pos)) [
      | inl wraps ↦ rw (wraps, small) refl
      | inr stays ↦ rw stays refl
    ]

-- the screen with the character `ch` at the cursor of a screen that has room for it
abbrev put_at : (ch line column : ℕ) → (ℕ → ℕ) → VgaConsole → VgaConsole
put_at ch line column fb s = record s {
  fb = update fb (line * s.width + column) (vga_entry ch s.color);
  x_pos = u16 (column + 1);
  y_pos = line;
}

putchar_full :
    (ch : ℕ) (s : VgaConsole)
    → IsOnScreen s
    → 32 ≤ ch
    → (next_line s == s.height) ≡ true
    → vga_cons_putchar ch s
      ≡ put_at ch
          (s.height - 1)
          (next_column s)
          (clear_cells s.width
            ((s.height - 1) * s.width)
            (copy_cells (s.width * (s.height - 1)) 0 s.width s.fb))
          s
unfolding vga_cons_putchar put_tab put_newline scroll draw_char
putchar_full ch s v visible full =
    let no_tab : (ch == 9) ≡ false = ground arith in
    let no_newline : (ch == 10) ≡ false = ground arith in
    let shown : leb 32 ch ≡ true = ground arith in
    let leaves : leb s.height (next_line s) ≡ true = ground arith in
    rw (wrap_line-line s v, no_tab, no_newline, leaves, shown) refl

putchar_room :
    (ch : ℕ) (s : VgaConsole)
    → IsOnScreen s
    → 32 ≤ ch
    → (next_line s == s.height) ≡ false
    → vga_cons_putchar ch s ≡ put_at ch (next_line s) (next_column s) s.fb s
unfolding vga_cons_putchar put_tab put_newline scroll draw_char
putchar_room ch s v visible room =
    let no_tab : (ch == 9) ≡ false = ground arith in
    let no_newline : (ch == 10) ≡ false = ground arith in
    let shown : leb 32 ch ≡ true = ground arith in
    let stays : leb s.height (next_line s) ≡ false = ground (arith, v.line) in
    rw (wrap_line-line s v, no_tab, no_newline, stays, shown) refl

-- A character that can be seen is drawn at the cursor, on the next line if this one is full; if that
-- is below the screen, all lines move up and the last one is cleared first. The cursor is behind it
-- then, and no other cell of the memory changes.
pub vga_cons_putchar-Drawn :
    (ch : ℕ) (s : VgaConsole) → IsOnScreen s → 32 ≤ ch → Drawn ch s (vga_cons_putchar ch s)
vga_cons_putchar-Drawn ch s v visible =
    let column : u16 (next_column s + 1) ≡ next_column s + 1 = ground (arith, v.width_fits) in
    elim (Bool-cases (next_line s == s.height)) [
      | inl full ↦ rw (putchar_full ch s v visible full) (record {
        cursor = (column, rw full refl);
        cells = λ i. rw full (ground (arith, scrolled_cells s.width (s.height - 1) i s.fb v.wide));
      })
      | inr room ↦
          rw (putchar_room ch s v visible room)
            (record { cursor = (column, rw room refl); cells = λ i. rw room (ground arith) })
    ]
