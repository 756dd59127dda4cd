-- ===== src/Thread/Tests.antt =====
-- Threads at the addresses 1 to 3, and the theorems at them.
use smor.Prelude.{ℕ, ◌≡◌, refl, arith, false, [], ◌∷◌, has, update}
use smor.Thread.{Thread, ThreadList, new_thread, queue_push_back}
use smor.Thread.Queue.{IsQueue, push_back-IsQueue}
use smor.Thread.WaitList.{Waits, Pushed, push-Pushed, Popped, pop-Popped}

-- a queue of the threads 1 and 2, in which 2 and 1 wait, in this order
abbrev mem : ℕ → Thread
mem =
    update
      (update (λ _. new_thread 4096) 1
        (record (new_thread 4096) { next = 2; prev = 2; next_wait = 0 }))
      2 (record (new_thread 8192) { next = 1; prev = 1; next_wait = 1 })

two-IsQueue : IsQueue mem 1 (2 ∷ [])
two-IsQueue = (omega arith, (refl, (refl, tt)), (refl, refl, (refl, refl)))

abbrev line : ThreadList
line = record { head = 2; tail = 1 }

two-Waits : Waits mem line (2 ∷ 1 ∷ [])
two-Waits = (refl, omega arith, (refl, (refl, tt)), (refl, omega arith, (refl, refl)))

push_back-IsQueue_case :
    ((queue_push_back mem 1 3).0 ≡ 1)
    × IsQueue ((queue_push_back mem 1 3).1) 1 (2 ∷ 3 ∷ [])
    × ((a : ℕ) → has a (3 ∷ 1 ∷ 2 ∷ []) ≡ false → (queue_push_back mem 1 3).1 a ≡ mem a)
push_back-IsQueue_case = push_back-IsQueue mem 1 3 (2 ∷ []) refl two-IsQueue

push-Pushed_case : Pushed mem line (2 ∷ 1 ∷ []) 3
push-Pushed_case = push-Pushed mem line (2 ∷ 1 ∷ []) 3 (omega arith) refl two-Waits

pop-Popped_case : Popped mem line (2 ∷ 1 ∷ [])
pop-Popped_case = pop-Popped mem line (2 ∷ 1 ∷ []) two-Waits
