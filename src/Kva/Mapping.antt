-- ===== src/Kva/Mapping.antt =====
-- Mapping the pages of a range, and the page-backed heap that allocates and maps one.
use himu_os.Prelude.{
  ℕ, zero, suc, ◌+◌, ◌^◌, true, not, Option, none, some, ◌==◌, leb, if◌then◌else◌, Result, ok, err,
  Status, ec_success, ec_illegal_argument, ec_invalid_state, add64, mul64,
}
use himu_os.Kva.State.{Range, Kva, arena_heap, record_at}
use himu_os.Kva.Range.{find_record_by_id, alloc_range}
use himu_os.Kva.Machine.{Machine, succeeded}
use himu_os.Kva.Release.{Teardown, released, refused, panicked, release_range_handle, release_range}

-- KE_KVA_DEFAULT_PAGE_ATTRS
abbrev pub default_page_attrs : ℕ
default_page_attrs = 2 + 2 ^ 8 + 2 ^ 63

-- How a mapping loop ends: with a status and the state left, or in HO_KPANIC.
pub data Outcome (A : Type 0) : Type 0 where
  ended : Status → A → Outcome A
  halted : Status → Outcome A

module _ {M : Type 0} (os : Machine M) where
  unfoldable pub map_at : Kva → M → Range → ℕ → ℕ → ℕ → Option ℕ → M × Status
  map_at s m range page physical attributes none = (m, ec_invalid_state)
  map_at s m range page physical attributes (some idx) =
      if leb (record_at s idx).usable_pages page
      then (m, ec_illegal_argument)
      else os.map_page m (add64 range.usable_base (mul64 page 4096)) physical attributes

  unfoldable pub map_page : Kva → M → Range → ℕ → ℕ → ℕ → M × Status
  map_page s m range page physical attributes =
      if not s.initialized
      then (m, ec_invalid_state)
      else map_at s m range page physical attributes (find_record_by_id s range)

  -- The rollback: the range is released and the first failure reported, or the release's own.
  unfoldable pub rolled_back : Kva → M → Status → Teardown (Kva × M) → Outcome (Kva × M)
  rolled_back s m status (released after) = ended status after
  rolled_back s m status (refused e) = ended e (s, m)
  rolled_back s m status (panicked e) = halted e

  unfoldable pub rollback : Kva → Range → Status → M → Outcome (Kva × M)
  rollback s range status m = rolled_back s m status (release_range_handle os s m range)

  -- KePmmFreePages, its status ignored.
  unfoldable pub dropped : M → Result M → M
  dropped m (err e) = m
  dropped m (ok m') = m'

  unfoldable pub after_map :
      Kva → Range → ℕ → M × Status → (M → Outcome (Kva × M)) → Outcome (Kva × M)
  after_map s range physical (m, status) next =
      if succeeded status
      then next m
      else rollback s range status (dropped m (os.free_page m physical))

  unfoldable pub after_alloc :
      Kva → Range → ℕ → ℕ → M → Result (M × ℕ) → (M → Outcome (Kva × M)) → Outcome (Kva × M)
  after_alloc s range page attributes m (err e) next = rollback s range e m
  after_alloc s range page attributes m (ok (m', physical)) next =
      after_map s range physical (map_page s m' range page physical attributes) next

  unfoldable pub map_pages : Kva → Range → ℕ → ℕ → ℕ → M → Outcome (Kva × M)
  map_pages s range attributes zero page m = ended ec_success (s, m)
  map_pages s range attributes (suc left) page m =
      after_alloc s range page attributes m (os.alloc_page m)
        (map_pages s range attributes left (suc page))

  unfoldable pub map_owned_at : Kva → M → Range → ℕ → Option ℕ → Outcome (Kva × M)
  map_owned_at s m range attributes none = ended ec_invalid_state (s, m)
  map_owned_at s m range attributes (some idx) =
      if (record_at s idx).owns_physical_backing
      then map_pages s range attributes (record_at s idx).usable_pages 0 m
      else ended ec_invalid_state (s, m)

  unfoldable pub map_owned_pages : Kva → M → Range → ℕ → Outcome (Kva × M)
  map_owned_pages s m range attributes =
      if not s.initialized
      then ended ec_invalid_state (s, m)
      else map_owned_at s m range attributes (find_record_by_id s range)

  -- The heap hands out the usable base where every page was mapped.
  unfoldable pub heap_mapped : Range → Outcome (Kva × M) → Outcome ((Kva × M) × Option ℕ)
  heap_mapped range (ended status after) =
      ended status (after, if succeeded status then some range.usable_base else none)
  heap_mapped range (halted e) = halted e

  unfoldable pub heap_allocated : Kva → M → Result (Kva × Range) → Outcome ((Kva × M) × Option ℕ)
  heap_allocated s m (err e) = ended e ((s, m), none)
  heap_allocated s m (ok (s', range)) =
      heap_mapped range (map_owned_pages s' m range default_page_attrs)

  unfoldable pub heap_alloc_pages : Kva → M → ℕ → Outcome ((Kva × M) × Option ℕ)
  heap_alloc_pages s m page_count = heap_allocated s m (
      if not s.initialized
      then err ec_invalid_state
      else if page_count == 0
      then err ec_illegal_argument
      else alloc_range s arena_heap page_count 0 0 true)

  unfoldable pub heap_free_pages : Kva → M → ℕ → Teardown (Kva × M)
  heap_free_pages s m address = release_range os s m address
