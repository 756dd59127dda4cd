-- ===== src/Kbd/Tests.antt =====
-- Three codes through the ring, and seventeen.
use smor.Prelude.{◌≡◌, refl, arith, false, [], ◌∷◌, done}
use smor.Kbd.{Keyboard, drain}
use smor.Kbd.Ring.{put_all, drain-put_all}

abbrev fresh : Keyboard
fresh = record {
  lock = 0;
  cond = record { threads = record { head = 0; tail = 0 } };
  read_pos = 20;
  write_pos = 20;
  buf = λ _. 0;
  shift = false;
  ctrl = false;
  alt = false;
  caps = false;
  num = false;
}

drain-put_all_case :
    drain 4 0 (put_all fresh (30 ∷ 31 ∷ 32 ∷ []))
    ≡ done (30 ∷ 31 ∷ 32 ∷ [], record (put_all fresh (30 ∷ 31 ∷ 32 ∷ [])) { read_pos = 23 })
drain-put_all_case =
    drain-put_all 4 fresh (30 ∷ 31 ∷ 32 ∷ []) refl (omega arith) (omega arith) (omega arith)
