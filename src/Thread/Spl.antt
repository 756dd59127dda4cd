-- ===== src/Thread/Spl.antt =====
-- src/x86.h, cpu_splhi and cpu_splx.
use smor.Prelude.{◌≡◌, refl, Bool, true, false}
use smor.Thread.{Machine, cpu_splhi, cpu_splx}

splx_back :
    (b : Bool) (m : Machine) → m.interrupts ≡ b → cpu_splx (cpu_splhi m).0 (cpu_splhi m).1 ≡ m
splx_back true m e = rw e refl
splx_back false m e = rw e refl

-- `cpu_splx` undoes `cpu_splhi`
pub splx-splhi : (m : Machine) → cpu_splx (cpu_splhi m).0 (cpu_splhi m).1 ≡ m
splx-splhi m = splx_back m.interrupts m refl
