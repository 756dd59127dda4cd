-- ===== src/Pic/Tests.antt =====
-- Interrupts 9 and 10 of the second controller are enabled, then 9 is disabled.
use smor.Prelude.{ℕ, ◌-◌, ◌^◌, ◌≤◌, ◌≡◌, refl, inr, [], ◌∷◌, done, arith, digit}
use smor.Pic.{Pic, slave_irq, pic_enable_irq, pic_disable_irq, pit_init}
use smor.Pic.Masks.{Delivers, Enabled, Writes, pic_enable_irq-Enabled, pic_disable_irq-second}

abbrev masked : Pic
masked = record { irq_mask = 0xFFFF; outputs = [] }

pic_enable_irq-Enabled_example :
    (p' : Pic) × (pic_enable_irq 9 masked ≡ done p') × Enabled 9 masked p'
pic_enable_irq-Enabled_example = pic_enable_irq-Enabled 9 masked (omega arith)

abbrev open_9_10 : Pic
open_9_10 = record { irq_mask = 0xFFFF - 2 ^ 9 - 2 ^ 10 - 2 ^ 2; outputs = [] }

-- the interrupt 10 was let through before
open_10 : Delivers open_9_10.irq_mask 10
unfolding Delivers digit
open_10 = (refl, inr refl)

pic_disable_irq-second_example :
    (p' : Pic) × (pic_disable_irq 9 open_9_10 ≡ done p')
    × Writes open_9_10 p'
    × ((k : ℕ) → slave_irq ≤ k → ¬ Delivers p'.irq_mask k)
pic_disable_irq-second_example = pic_disable_irq-second 9 open_9_10 (omega arith) (omega arith)

-- 1000 times a second
rate : (pit_init masked).outputs ≡ (0x43, 0x36) ∷ (0x40, 169) ∷ (0x40, 4) ∷ []
unfolding pit_init
rate = refl
