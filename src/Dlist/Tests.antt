-- ===== src/Dlist/Tests.antt =====
-- Two lists of three and one elements, and the theorems at them.
use smor.Prelude.{refl, [], ◌∷◌, arith, update}
use smor.Dlist.{nowhere, head, next_of, Links, slab_list_insert, slab_list_remove}
use smor.Dlist.Segment.{Holds}
use smor.Dlist.Insert.{Inserted, insert-Inserted}
use smor.Dlist.Remove.{Removed, remove-Removed}

-- under head 1: 10, 20, 30
abbrev three : Links
three = record {
  heads = update (λ _. 0) 1 10;
  next = update (update (λ _. 0) 10 20) 20 30;
  prev = update (update (update (λ _. nowhere) 10 (head 1)) 20 (next_of 10)) 30 (next_of 20);
}

three-Holds : Holds three 1 (10 ∷ 20 ∷ 30 ∷ [])
three-Holds = ground arith

insert-Inserted_example : Inserted three 1 40 (10 ∷ 20 ∷ 30 ∷ []) (slab_list_insert three 1 40)
insert-Inserted_example =
    insert-Inserted three 1 40 (10 ∷ 20 ∷ 30 ∷ []) (omega arith) (refl, (refl, (refl, (refl, tt))))
      three-Holds

remove-Removed_example : Removed three 1 20 (10 ∷ []) (30 ∷ []) (slab_list_remove three 20)
remove-Removed_example =
    remove-Removed three 1 20 (10 ∷ []) (30 ∷ []) (refl, (refl, (refl, tt))) three-Holds
