-- ===== src/LinkedList.antt =====
-- Intrusive circular lists, lib/common/linked_list.c, over a heap of nodes. `Ring` has the shape and
-- what the operations do to it.
use himu_os.Prelude.{ℕ, Bool, ◌==◌, if◌then◌else◌}
pub mod Ring
pub mod Remove
mod Tests

-- LINKED_LIST_TAG by address.
pub record Heap : Type 0 where
  pub flink : ℕ → ℕ
  pub blink : ℕ → ℕ

abbrev pub put_flink : Heap → ℕ → ℕ → Heap
put_flink h a v = record h { flink = λ n. if n == a then v else h.flink n }

abbrev pub put_blink : Heap → ℕ → ℕ → Heap
put_blink h a v = record h { blink = λ n. if n == a then v else h.blink n }

unfoldable pub linked_list_init : Heap → ℕ → Heap
linked_list_init h head = put_blink (put_flink h head head) head head

-- The writes in their order; each reads the heap that the former ones left.
unfoldable pub linked_list_insert_head : Heap → ℕ → ℕ → Heap
linked_list_insert_head h head entry =
    let h1 = put_flink h entry (h.flink head) in
    let h2 = put_blink h1 entry head in
    let h3 = put_blink h2 (h2.flink head) entry in put_flink h3 head entry

unfoldable pub linked_list_insert_tail : Heap → ℕ → ℕ → Heap
linked_list_insert_tail h head entry =
    let h1 = put_flink h entry head in
    let h2 = put_blink h1 entry (h1.blink head) in
    let h3 = put_flink h2 (h2.blink head) entry in put_blink h3 head entry

unfoldable pub linked_list_remove : Heap → ℕ → Heap
linked_list_remove h entry =
    let h1 = put_flink h (h.blink entry) (h.flink entry) in
    let h2 = put_blink h1 (h1.flink entry) (h1.blink entry) in
    let h3 = put_flink h2 entry entry in put_blink h3 entry entry

unfoldable pub linked_list_is_empty : Heap → ℕ → Bool
linked_list_is_empty h head = h.flink head == head
