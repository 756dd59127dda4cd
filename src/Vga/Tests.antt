-- ===== src/Vga/Tests.antt =====
-- A screen whose last line is full, and the theorems at it.
use smor.Prelude.{arith}
use smor.Vga.{VgaConsole, vga_cons_putchar}
use smor.Vga.Screen.{IsOnScreen, Drawn, vga_cons_putchar-Drawn}
use smor.Vga.Bounds.{Stays, vga_cons_putchar-Stays}

abbrev full : VgaConsole
full = record { fb = λ i. i; x_pos = 80; y_pos = 24; width = 80; height = 25; color = 7 }

full-IsOnScreen : IsOnScreen full
full-IsOnScreen = record {
  wide = omega arith;
  high = omega arith;
  width_fits = omega arith;
  height_fits = omega arith;
  column = omega arith;
  line = omega arith;
}

vga_cons_putchar-Drawn_example : Drawn 65 full (vga_cons_putchar 65 full)
vga_cons_putchar-Drawn_example = vga_cons_putchar-Drawn 65 full full-IsOnScreen (omega arith)

vga_cons_putchar-Stays_example : Stays full (vga_cons_putchar 9 full)
vga_cons_putchar-Stays_example = vga_cons_putchar-Stays 9 full full-IsOnScreen
