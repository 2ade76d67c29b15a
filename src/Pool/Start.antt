-- ===== src/Pool/Start.antt =====
-- KePoolInit, KePoolDestroy and KePoolQueryStats of kernel/ke/mm/pool.c.
use himu_os.Prelude.{
  ℕ, zero, suc, ◌/◌, List, [], ◌∷◌, not, ◌==◌, leb, if◌then◌else◌, add32, sub32, Result, ok, err,
  Status, ec_success, ec_illegal_argument, ec_invalid_state,
}
use himu_os.Pool.Layout.{page_size, slot_size_of, header_size, slots_per_page_of, PreparedPage}
use himu_os.Pool.Machine.{Pages}
use himu_os.Pool.Operations.{
  Magic, unset, alive, dead, Pool, is_alive, Run, returns, panics, then_freed,
  publish_prepared_page, prepare_one_page,
}

unfoldable pub empty_pool : Magic → ℕ → ℕ → Pool
empty_pool magic slot_size slots_per_page = record {
  magic = magic;
  free_list = [];
  page_list = [];
  slot_size = slot_size;
  slots_per_page = slots_per_page;
  total_slots = 0;
  used_slots = 0;
  peak_used_slots = 0;
  failed_grows = 0;
  page_count = 0;
}

unfoldable pub needed_pages_of : ℕ → ℕ → ℕ
needed_pages_of capacity slots_per_page =
    let needed = sub32 (add32 capacity slots_per_page) 1 / slots_per_page in
    if needed == 0 then 1 else needed

module _ {M : Type 0} (os : Pages M) where
  -- The loop that gives back the pages of a list.
  unfoldable pub free_pages : {A : Type 0} → List ℕ → (M → Run M A) → M → Run M A
  free_pages [] next m = next m
  free_pages (b ∷ bs) next m = then_freed (os.free_page m b) (free_pages bs next)

  -- A grow that fails gives back the pages already attached.
  unfoldable pub attach_next :
      Pool
      → Run M (Result PreparedPage)
      → (Pool → M → Run M (Status × Pool))
      → Run M (Status × Pool)
  attach_next p (panics e) next = panics e
  attach_next p (returns (err e) m) next =
      free_pages p.page_list
        (returns (
          e,
          record p {
            magic = unset;
            free_list = [];
            page_list = [];
            total_slots = 0;
            page_count = 0;
          },
        ))
        m
  attach_next p (returns (ok page) m) next = elim (publish_prepared_page p page) [
    | err e ↦ panics e
    | ok p' ↦ next p' m
  ]

  unfoldable pub attach_pages : ℕ → ℕ → Pool → M → Run M (Status × Pool)
  attach_pages slot_size zero p m = returns (ec_success, record p { magic = alive }) m
  attach_pages slot_size (suc left) p m =
      attach_next p (prepare_one_page os m slot_size) (attach_pages slot_size left)

  -- A pool whose slots do not fit a page is left unset.
  unfoldable pub init : Pool → ℕ → ℕ → M → Run M (Status × Pool)
  init p object_size capacity m =
      let slot_size = slot_size_of object_size in
      let slots = slots_per_page_of slot_size in
      if leb page_size (header_size slot_size)
      then returns (ec_illegal_argument, record p { magic = unset }) m
      else if slots == 0
      then returns (ec_illegal_argument, empty_pool unset slot_size slots) m
      else attach_pages slot_size (needed_pages_of capacity slots)
          (empty_pool unset slot_size slots) m

  unfoldable pub destroy : Pool → M → Run M (Status × Pool)
  destroy p m =
      if not (is_alive p.magic)
      then returns (ec_invalid_state, p) m
      else if not (p.used_slots == 0)
      then returns (ec_invalid_state, p) m
      else free_pages p.page_list (returns (ec_success, empty_pool dead 0 0)) m

-- KE_POOL_STATS
pub record Stats : Type 0 where
  pub total_slots : ℕ
  pub used_slots : ℕ
  pub free_slots : ℕ
  pub page_count : ℕ
  pub peak_used_slots : ℕ
  pub failed_grow_count : ℕ

unfoldable pub query_stats : Pool → Stats
query_stats p = record {
  total_slots = p.total_slots;
  used_slots = p.used_slots;
  free_slots = sub32 p.total_slots p.used_slots;
  page_count = p.page_count;
  peak_used_slots = p.peak_used_slots;
  failed_grow_count = p.failed_grows;
}
