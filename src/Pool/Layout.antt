-- ===== src/Pool/Layout.antt =====
-- The layout of a page of a pool, kernel/ke/mm/pool.c: the page node, and slots behind it.
use himu_os.Prelude.{
  ℕ, zero, suc, ◌+◌, ◌-◌, ◌*◌, ◌/◌, ◌%◌, List, [], ◌∷◌, ltb, if◌then◌else◌, align_up, u32_mod,
}

-- PAGE_4KB, and sizeof(KE_POOL_PAGE_NODE), which is sizeof(KE_POOL_FREE_NODE) too.
abbrev pub page_size : ℕ
page_size = 4096

abbrev pub node_size : ℕ
node_size = 8

unfoldable pub slot_size_of : ℕ → ℕ
slot_size_of object_size =
    let size = align_up object_size 8 in if ltb size node_size then node_size else size

unfoldable pub header_size : ℕ → ℕ
header_size slot_size = align_up node_size slot_size

unfoldable pub slots_per_page_of : ℕ → ℕ
slots_per_page_of slot_size = (page_size - header_size slot_size) / slot_size % u32_mod

-- The loop that links the slots from number `i` on in front of a list.
unfoldable pub link_slots : ℕ → ℕ → ℕ → ℕ → List ℕ → List ℕ
link_slots slot_base slot_size i zero slots = slots
link_slots slot_base slot_size i (suc left) slots =
    link_slots slot_base slot_size (suc i) left ((slot_base + i * slot_size) ∷ slots)

-- KE_POOL_PREPARED_PAGE: its list of slots stands for Head and Tail.
pub record PreparedPage : Type 0 where
  pub base_virt : ℕ
  pub slots : List ℕ
  pub slot_count : ℕ

unfoldable pub lay_out : ℕ → ℕ → PreparedPage
lay_out base slot_size = record {
  base_virt = base;
  slots = link_slots (base + header_size slot_size) slot_size 0 (slots_per_page_of slot_size) [];
  slot_count = slots_per_page_of slot_size;
}
