-- ===== src/Kva/Release.antt =====
-- Releasing a range: the teardown of its mappings, its pages and its record.
use himu_os.Prelude.{
  ℕ, zero, suc, ◌+◌, ◌%◌, Bool, true, false, ◌&&◌, not, Option, none, some, ◌==◌, ltb, leb,
  if◌then◌else◌, get_or, Result, ok, err, Status, ec_illegal_argument, ec_not_supported,
  ec_invalid_state, add64, mul64,
}
use himu_os.Kva.State.{
  RangeRecord, Range, Kva, arena_fixmap, arena_max, page_free, page_retired, fixmap_pages,
  generation_mask, arena_at, record_at, usable_base, put_page_states, put_record, blank_record,
}
use himu_os.Kva.Arena.{mark_pages}
use himu_os.Kva.Range.{find_record_by_id, find_record_by_usable_base}
use himu_os.Kva.Machine.{Mapping, Machine}

-- A release is done, refused with nothing changed, or ends in HO_KPANIC.
pub data Teardown (A : Type 0) : Type 0 where
  released : A → Teardown A
  refused : Status → Teardown A
  panicked : Status → Teardown A

abbrev pub then_released : {A : Type 0} {B : Type 0} → (A → B) → Teardown A → Teardown B
then_released f (released a) = released (f a)
then_released f (refused e) = refused e
then_released f (panicked e) = panicked e

module _ {M : Type 0} (os : Machine M) where
  -- KePmmFreePages of the page that was mapped, for a range that owns its backing.
  unfoldable pub after_free : Result M → (M → Teardown M) → Teardown M
  after_free (err e) next = panicked e
  after_free (ok m) next = next m

  unfoldable pub after_unmap : Bool → ℕ → Result M → (M → Teardown M) → Teardown M
  after_unmap owns physical (err e) next = panicked e
  after_unmap owns physical (ok m) next =
      if owns then after_free (os.free_page m physical) next else next m

  -- One page of the loop, with the rest of the loop as `next`; `started` is teardownStarted.
  unfoldable pub teardown_page :
      Bool → Bool → ℕ → M → Result Mapping → (Bool → M → Teardown M) → Teardown M
  teardown_page owns started va m (err e) next = if started then panicked e else refused e
  teardown_page owns started va m (ok mapping) next =
      if not mapping.present
      then next started m
      else if not (mapping.level == 1)
      then (if started then panicked ec_not_supported else refused ec_not_supported)
      else after_unmap owns mapping.physical_base (os.unmap_page m va) (next true)

  unfoldable pub teardown : Bool → ℕ → ℕ → ℕ → Bool → M → Teardown M
  teardown owns base zero page started m = released m
  teardown owns base (suc left) page started m =
      let va = add64 base (mul64 page 4096) in
      teardown_page owns started va m (os.query_page m va) (teardown owns base left (suc page))

unfoldable pub is_slot_retired : Kva → ℕ → Bool
is_slot_retired s slot =
    ltb slot fixmap_pages && leb generation_mask (get_or s.slot_generations slot 0)

unfoldable pub released_page_state : Kva → RangeRecord → ℕ
released_page_state s r =
    if (r.arena == arena_fixmap) && ((r.total_pages == 1) && is_slot_retired s r.base_page_index)
    then page_retired
    else page_free

-- The writes after the teardown: the pages, then the record.
unfoldable pub retire_record : Kva → ℕ → Kva
retire_record s idx =
    let r = record_at s idx in
    put_record
      (put_page_states s r.arena (
        mark_pages (λ offset. released_page_state s r) r.base_page_index r.total_pages
          (arena_at s r.arena).page_states))
      idx (blank_record (idx + 1))

module _ {M : Type 0} (os : Machine M) where
  unfoldable pub release_record : Kva → M → ℕ → Teardown (Kva × M)
  release_record s m idx =
      let r = record_at s idx in
      then_released (λ m'. (retire_record s idx, m'))
        (teardown os r.owns_physical_backing (usable_base (arena_at s r.arena) r) r.usable_pages 0
          false m)

  -- A record that was looked up, with its arena checked.
  unfoldable pub release_found : Kva → M → Option ℕ → Teardown (Kva × M)
  release_found s m none = refused ec_invalid_state
  release_found s m (some idx) =
      if ltb (record_at s idx).arena arena_max
      then release_record s m idx
      else refused ec_invalid_state

  unfoldable pub release_range_handle : Kva → M → Range → Teardown (Kva × M)
  release_range_handle s m range =
      if not s.initialized
      then refused ec_invalid_state
      else release_found s m (find_record_by_id s range)

  unfoldable pub release_range : Kva → M → ℕ → Teardown (Kva × M)
  release_range s m address =
      if not s.initialized
      then refused ec_invalid_state
      else if not (address % 4096 == 0)
      then refused ec_illegal_argument
      else release_found s m (find_record_by_usable_base s address)
