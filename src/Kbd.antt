-- ===== src/Kbd.antt =====
-- src/kbd_8042.c: scan codes in a ring of 16 bytes, and their characters. The code that `inb(0x60)`
-- gives is an argument; characters are bytes.
pub mod Ring
mod Tests
use smor.Prelude.{
  ℕ, zero, suc, ◌+◌, ◌-◌, ◌%◌, ◌≤◌, Bool, true, false, ◌&&◌, ◌||◌, not, ◌==◌, ltb, leb,
  if◌then◌else◌, update, List, [], ◌∷◌, get_or, length, Outcome, done, hang, undefined, ◌>>=◌, u8,
  u32, sub32,
}
use smor.Thread.{Machine, spinlock_lock, spinlock_unlock}
use smor.Sync.{Condition, cond_signal}

abbrev pub kbd_bufsize : ℕ
kbd_bufsize = 16

pub record Keyboard : Type 0 where
  pub lock : ℕ
  pub cond : Condition
  pub read_pos : ℕ
  pub write_pos : ℕ
  pub buf : ℕ → ℕ
  pub shift : Bool
  pub ctrl : Bool
  pub alt : Bool
  pub caps : Bool
  pub num : Bool

pub normal : List ℕ
normal =
    0 ∷ 27 ∷ 49 ∷ 50 ∷ 51 ∷ 52 ∷ 53 ∷ 54 ∷ 55 ∷ 56 ∷ 57 ∷ 48 ∷ 45 ∷ 61 ∷ 8 ∷ 9 ∷ 113 ∷ 119 ∷ 101
    ∷ 114 ∷ 116 ∷ 121 ∷ 117 ∷ 105 ∷ 111 ∷ 112 ∷ 91 ∷ 93 ∷ 13 ∷ 128 ∷ 97 ∷ 115 ∷ 100 ∷ 102 ∷ 103
    ∷ 104 ∷ 106 ∷ 107 ∷ 108 ∷ 59 ∷ 39 ∷ 96 ∷ 128 ∷ 92 ∷ 122 ∷ 120 ∷ 99 ∷ 118 ∷ 98 ∷ 110 ∷ 109 ∷ 44
    ∷ 46 ∷ 47 ∷ 128 ∷ 42 ∷ 128 ∷ 32 ∷ 128 ∷ 128 ∷ 128 ∷ 128 ∷ 128 ∷ 128 ∷ 128 ∷ 128 ∷ 128 ∷ 128
    ∷ 128 ∷ 128 ∷ 128 ∷ 128 ∷ 128 ∷ 128 ∷ 128 ∷ 128 ∷ 128 ∷ 128 ∷ 128 ∷ 128 ∷ 128 ∷ 128 ∷ 48 ∷ 127
    ∷ []

pub shifted : List ℕ
shifted =
    0 ∷ 27 ∷ 33 ∷ 64 ∷ 35 ∷ 36 ∷ 37 ∷ 94 ∷ 38 ∷ 42 ∷ 40 ∷ 41 ∷ 95 ∷ 43 ∷ 8 ∷ 9 ∷ 81 ∷ 87 ∷ 69 ∷ 82
    ∷ 84 ∷ 89 ∷ 85 ∷ 73 ∷ 79 ∷ 80 ∷ 123 ∷ 125 ∷ 13 ∷ 128 ∷ 65 ∷ 83 ∷ 68 ∷ 70 ∷ 71 ∷ 72 ∷ 74 ∷ 75
    ∷ 76 ∷ 58 ∷ 34 ∷ 126 ∷ 128 ∷ 124 ∷ 90 ∷ 88 ∷ 67 ∷ 86 ∷ 66 ∷ 78 ∷ 77 ∷ 60 ∷ 62 ∷ 63 ∷ 128 ∷ 42
    ∷ 128 ∷ 32 ∷ 128 ∷ 128 ∷ 128 ∷ 128 ∷ 128 ∷ 128 ∷ 128 ∷ 128 ∷ 128 ∷ 128 ∷ 128 ∷ 128 ∷ 128 ∷ 55
    ∷ 56 ∷ 57 ∷ 128 ∷ 52 ∷ 53 ∷ 54 ∷ 128 ∷ 49 ∷ 50 ∷ 51 ∷ 48 ∷ 177 ∷ []

-- a read past the end of a table is undefined
abbrev pub char_at : List ℕ → ℕ → Outcome ℕ
char_at table code = if ltb code (length table) then done (get_or table code 0) else undefined

pub kbd_decode : Keyboard → (code : ℕ) → Outcome ℕ
unfolding normal shifted
kbd_decode kbd code =
    if code == 72
    then done 42
    else (if kbd.caps
        then (do
          tmp ← char_at normal code
          if leb 97 tmp && leb tmp 122
              then char_at (if kbd.shift then normal else shifted) code
              else char_at (if kbd.shift then shifted else normal) code)
        else char_at (if kbd.shift then shifted else normal) code)

-- whether the code is a special one, and the keyboard after it
pub kbd_check_special : Keyboard → (key : ℕ) → Bool × Keyboard
kbd_check_special kbd key =
    if (key == 0x36) || (key == 0x2A)
    then (true, record kbd { shift = true })
    else if (key == 0xB6) || (key == 0xAA)
    then (true, record kbd { shift = false })
    else if key == 0x1D
    then (true, record kbd { ctrl = true })
    else if key == 0x9D
    then (true, record kbd { ctrl = false })
    else if key == 0x38
    then (true, record kbd { alt = true })
    else if key == 0xB8
    then (true, record kbd { alt = false })
    else if (key == 0x3A) || (key == 0x45)
    then (true, kbd)
    else if key == 0xBA
    then (true, record kbd { caps = not kbd.caps })
    else if key == 0xC5
    then (true, record kbd { num = not kbd.num })
    else if key == 0xE0
    then (true, kbd)
    else (false, kbd)

-- the ring after one code
abbrev pub put : Keyboard → (code : ℕ) → Keyboard
put kbd code = record kbd {
  buf = update kbd.buf (kbd.write_pos % kbd_bufsize) code;
  write_pos = u32 (kbd.write_pos + 1);
}

pub irq_handler : (code : ℕ) → Keyboard → Machine → Outcome (Keyboard × Machine)
unfolding kbd_check_special
irq_handler code kbd m =
    let (special, kbd1) = kbd_check_special kbd code in
    if special || leb 128 code then done (kbd1, m) else (do
      held ← spinlock_lock kbd1.lock
      let kbd2 = put kbd1 code
      (cond, m1) ← cond_signal kbd2.cond m
      done (record kbd2 { cond = cond; lock = spinlock_unlock held }, m1))

-- the loop of `kbd_read` that empties the ring into a local buffer of 16 bytes, from the index `n`,
-- and a write past that buffer
pub drain : ℕ → (n : ℕ) → Keyboard → Outcome (List ℕ × Keyboard)
drain zero n kbd = hang
drain (suc fuel) n kbd =
    let code = kbd.buf (kbd.read_pos % kbd_bufsize) in
    let rest = drain fuel (n + 1) (record kbd { read_pos = u32 (kbd.read_pos + 1) }) in
    if ltb kbd.read_pos kbd.write_pos
    then (if ltb n kbd_bufsize then rest >>= (λ r. done (code ∷ r.0, r.1)) else undefined)
    else done ([], kbd)

pub decode_all : Keyboard → List ℕ → Outcome (List ℕ)
unfolding kbd_decode
decode_all kbd [] = done []
decode_all kbd (code ∷ codes) = do c ← kbd_decode kbd code; cs ← decode_all kbd codes; done (c ∷ cs)

-- `kbd_read` from where its loop on `cond_wait` ends, which is at once if there are unread codes
pub kbd_read : (fuel : ℕ) → Keyboard → Outcome (List ℕ × Keyboard)
unfolding drain decode_all
kbd_read fuel kbd = do
  held ← spinlock_lock kbd.lock
  (codes, kbd1) ← drain fuel 0 (record kbd { lock = held })
  let kbd2 = record kbd1 { lock = spinlock_unlock kbd1.lock }
  out ← decode_all kbd2 codes
  if ltb kbd.read_pos kbd.write_pos then done (out, kbd2) else hang
