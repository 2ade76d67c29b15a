-- ===== src/LinkedList/Tests.antt =====
-- A head at 1 with the entries 2 and 3.
use himu_os.Prelude.{refl, [], ◌∷◌, ◌==◌, if◌then◌else◌}
use himu_os.LinkedList.{Heap, linked_list_remove}
use himu_os.LinkedList.Ring.{IsRing}
use himu_os.LinkedList.Remove.{linked_list_remove-IsRing}

abbrev pair : Heap
pair = record {
  flink = λ n. if n == 1 then 2 else if n == 2 then 3 else 1;
  blink = λ n. if n == 1 then 3 else if n == 2 then 1 else 2;
}

pair-IsRing : IsRing pair 1 (2 ∷ 3 ∷ [])
pair-IsRing = record {
  chain = (refl, refl, (refl, refl, (refl, refl)));
  distinct = (refl, (refl, (refl, tt)));
}

linked_list_remove-IsRing_example : IsRing (linked_list_remove pair 2) 1 (3 ∷ [])
linked_list_remove-IsRing_example = linked_list_remove-IsRing pair 1 [] 2 (3 ∷ []) pair-IsRing
