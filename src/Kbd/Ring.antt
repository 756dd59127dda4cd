-- ===== src/Kbd/Ring.antt =====
-- src/kbd_8042.c: the ring between the interrupt and `kbd_read`.
use smor.Prelude.{
  ℕ, zero, suc, ◌+◌, ◌%◌, ◌^◌, ◌≤◌, ◌<◌, ◌≡◌, refl, sym, arith, true, false, ◌==◌, ltb, update,
  List, [], ◌∷◌, ◌++◌, length, done, undefined, u32, Bool-cases, inl, inr, append-nil, append-snoc,
  length-append,
}
use smor.Kbd.{Keyboard, put, drain}

-- the codes put into the ring one after the other
abbrev pub put_all : Keyboard → List ℕ → Keyboard
put_all kbd [] = kbd
put_all kbd (code ∷ codes) = put_all (put kbd code) codes

-- from the position `p` the ring holds `xs`, and ends at `q`
abbrev pub HoldsFrom : (ℕ → ℕ) → ℕ → List ℕ → ℕ → Type 0
HoldsFrom buf p [] q = q ≡ p
HoldsFrom buf p (x ∷ xs) q = (buf (p % 16) ≡ x) × HoldsFrom buf (p + 1) xs q

HoldsFrom-length :
    (buf : ℕ → ℕ) (p : ℕ) (xs : List ℕ) (q : ℕ) → HoldsFrom buf p xs q → q ≡ p + length xs
HoldsFrom-length buf p [] q v = omega (arith, v)
HoldsFrom-length buf p (x ∷ xs) q v = omega (arith, HoldsFrom-length buf (p + 1) xs q (v.1))

drain-Holds :
    (fuel n : ℕ) (kbd : Keyboard) (xs : List ℕ)
    → length xs < fuel
    → n + length xs ≤ 16
    → kbd.write_pos < 2 ^ 32
    → HoldsFrom kbd.buf kbd.read_pos xs kbd.write_pos
    → drain fuel n kbd ≡ done (xs, record kbd { read_pos = kbd.write_pos })
unfolding drain
drain-Holds zero n kbd xs h s w v = absurd (omega arith)
drain-Holds (suc fuel) n kbd [] h s w v =
    let stop : ltb kbd.read_pos kbd.write_pos ≡ false = ground (arith, v) in
    rw stop (λ k. done ([], record kbd { read_pos = sym v k }))
drain-Holds (suc fuel) n kbd (x ∷ xs) h s w v =
    let e : kbd.write_pos ≡ kbd.read_pos + 1 + length xs =
      HoldsFrom-length kbd.buf (kbd.read_pos + 1) xs kbd.write_pos (v.1) in
    let on : ltb kbd.read_pos kbd.write_pos ≡ true = ground (arith, e) in
    let fits : ltb n 16 ≡ true = ground arith in
    let step : u32 (kbd.read_pos + 1) ≡ kbd.read_pos + 1 = omega (arith, e) in
    rw
      (
        on,
        fits,
        step,
        v.0,
        drain-Holds fuel (n + 1) (record kbd { read_pos = kbd.read_pos + 1 }) xs (omega arith)
            (omega arith) w (v.1),
      )
      refl

put-Holds :
    (buf : ℕ → ℕ) (p : ℕ) (xs : List ℕ) (q c : ℕ)
    → length xs < 16
    → HoldsFrom buf p xs q
    → HoldsFrom (update buf (q % 16) c) p (xs ++ (c ∷ [])) (q + 1)
put-Holds buf p [] q c h v = (ground (arith, v), omega (arith, v))
put-Holds buf p (x ∷ xs) q c h v =
    let e : q ≡ p + 1 + length xs = HoldsFrom-length buf (p + 1) xs q (v.1) in
    let away : (p % 16 == q % 16) ≡ false = ground (arith, e) in
    (rw away v.0, put-Holds buf (p + 1) xs q c (omega arith) (v.1))

put_all-Holds :
    (kbd : Keyboard) (xs codes : List ℕ)
    → length xs + length codes ≤ 16
    → kbd.write_pos + length codes < 2 ^ 32
    → HoldsFrom kbd.buf kbd.read_pos xs kbd.write_pos
    → (HoldsFrom (put_all kbd codes).buf kbd.read_pos (xs ++ codes) (put_all kbd codes).write_pos)
      × ((put_all kbd codes).read_pos ≡ kbd.read_pos)
      × ((put_all kbd codes).write_pos < 2 ^ 32)
put_all-Holds kbd xs [] h w v = (rw (append-nil xs) v, refl, omega arith)
put_all-Holds kbd xs (c ∷ codes) h w v =
    let step : u32 (kbd.write_pos + 1) ≡ kbd.write_pos + 1 = omega arith in
    let put1 : HoldsFrom (put kbd c).buf kbd.read_pos (xs ++ (c ∷ [])) (put kbd c).write_pos =
      rw step (put-Holds kbd.buf kbd.read_pos xs kbd.write_pos c (omega arith) v) in
    let all =
      put_all-Holds (put kbd c) (xs ++ (c ∷ [])) codes (omega (arith, length-append xs (c ∷ [])))
        (omega arith) put1 in
    rw⁻¹ (append-snoc xs c codes) all

-- Up to 16 codes that interrupts put into an empty ring come out of the loop of `kbd_read` in their
-- order, and leave the ring empty, as long as the position stays below 2 ^ 32.
pub drain-put_all :
    (fuel : ℕ) (kbd : Keyboard) (codes : List ℕ)
    → kbd.read_pos ≡ kbd.write_pos
    → length codes ≤ 16
    → kbd.write_pos + length codes < 2 ^ 32
    → length codes < fuel
    → drain fuel 0 (put_all kbd codes)
      ≡ done (codes, record (put_all kbd codes) { read_pos = (put_all kbd codes).write_pos })
drain-put_all fuel kbd codes empty few low h =
    let v = put_all-Holds kbd [] codes (omega arith) low (sym empty) in
    drain-Holds fuel 0 (put_all kbd codes) codes h (omega arith) (v.2) (rw v.1 (v.0))

-- If `write_pos` is more than 16 ahead of `read_pos`, the loop of `kbd_read` writes past its buffer.
pub drain_overflows :
    (fuel n : ℕ) (kbd : Keyboard)
    → n ≤ 16
    → kbd.read_pos + 16 < kbd.write_pos + n
    → kbd.write_pos < 2 ^ 32
    → 16 < fuel + n
    → drain fuel n kbd ≡ undefined
unfolding drain
drain_overflows zero n kbd s more w h = absurd (omega arith)
drain_overflows (suc fuel) n kbd s more w h =
    let on : ltb kbd.read_pos kbd.write_pos ≡ true = ground arith in
    elim (Bool-cases (ltb n 16)) [
      | inl fits ↦
          let step : u32 (kbd.read_pos + 1) ≡ kbd.read_pos + 1 = omega arith in
          rw (on, fits, step)
            (rw
              (drain_overflows fuel (n + 1) (record kbd { read_pos = kbd.read_pos + 1 })
                (ground (arith, fits)) (omega arith) w (omega arith))
              refl)
      | inr past ↦ rw (on, past) refl
    ]
