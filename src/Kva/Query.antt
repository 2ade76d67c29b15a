-- ===== src/Kva/Query.antt =====
-- The queries: ranges, arenas, usage, active ranges and what an address is.
use himu_os.Prelude.{
  ℕ, zero, suc, ◌-◌, ◌/◌, Bool, true, false, ◌&&◌, ◌||◌, not, Option, none, some, List, [], ◌∷◌,
  ◌==◌, ltb, leb, if◌then◌else◌, length, Result, ok, err, ◌>>=◌, ◌>>◌, require, Status, ec_success,
  ec_illegal_argument, ec_invalid_state, add64, mul64,
}
use himu_os.Kva.State.{
  RangeRecord, Range, Kva, arena_stack, arena_fixmap, arena_heap, arena_max, page_free, page_alloc,
  page_guard, arena_at, record_at, page_state, fill_range,
}
use himu_os.Kva.Arena.{count_free_pages}
use himu_os.Kva.Range.{find_record_by_usable_base, find_record_by_address}

unfoldable pub count_active_ranges : List RangeRecord → ℕ → ℕ
count_active_ranges [] arena_type = 0
count_active_ranges (r ∷ rs) arena_type =
    let rest = count_active_ranges rs arena_type in
    if r.in_use && (r.arena == arena_type) then suc rest else rest

unfoldable pub count_all_active_ranges : List RangeRecord → ℕ
count_all_active_ranges [] = 0
count_all_active_ranges (r ∷ rs) =
    let rest = count_all_active_ranges rs in if r.in_use then suc rest else rest

unfoldable pub filled : Kva → Option ℕ → Result Range
filled s none = err ec_invalid_state
filled s (some idx) =
    let r = record_at s idx in
    require (ltb r.arena arena_max) ec_illegal_argument >> ok (fill_range (arena_at s r.arena) r)

unfoldable pub query_range : Kva → ℕ → Result Range
query_range s address =
    require s.initialized ec_invalid_state >> filled s (find_record_by_usable_base s address)

-- The part of an imported region the allocator reads.
pub record Region : Type 0 where
  pub virtual_start : ℕ
  pub virtual_end_exclusive : ℕ

unfoldable pub overlaps_imported_regions : List Region → ℕ → ℕ → Bool
overlaps_imported_regions [] start end = false
overlaps_imported_regions (region ∷ regions) start end =
    let rest = overlaps_imported_regions regions start end in
    if leb end region.virtual_start || leb region.virtual_end_exclusive start then rest else true

-- KE_KVA_ARENA_INFO
pub record ArenaInfo : Type 0 where
  pub arena : ℕ
  pub base_address : ℕ
  pub end_address_exclusive : ℕ
  pub total_pages : ℕ
  pub free_pages : ℕ
  pub active_allocations : ℕ
  pub overlaps : Bool

unfoldable pub query_arena_info : Kva → List Region → ℕ → Result ArenaInfo
query_arena_info s regions arena_type =
    let arena = arena_at s arena_type in
    let end = add64 arena.base_address arena.size_bytes in
    require s.initialized ec_invalid_state
    >> require (ltb arena_type arena_max) ec_illegal_argument
    >> ok (record {
      arena = arena_type;
      base_address = arena.base_address;
      end_address_exclusive = end;
      total_pages = arena.page_count;
      free_pages = count_free_pages arena.page_states;
      active_allocations = count_active_ranges s.ranges arena_type;
      overlaps = overlaps_imported_regions regions arena.base_address end;
    })

-- KE_KVA_USAGE_INFO
pub record UsageInfo : Type 0 where
  pub active_range_count : ℕ
  pub fixmap_total_slots : ℕ
  pub fixmap_active_slots : ℕ

unfoldable pub query_usage_info : Kva → Result UsageInfo
query_usage_info s =
    require s.initialized ec_invalid_state
    >> ok (record {
      active_range_count = count_all_active_ranges s.ranges;
      fixmap_total_slots = (arena_at s arena_fixmap).page_count;
      fixmap_active_slots = count_active_ranges s.ranges arena_fixmap;
    })

-- KE_KVA_ACTIVE_RANGE_ENTRY
pub record ActiveEntry : Type 0 where
  pub range : Range
  pub end_address_exclusive : ℕ
  pub usable_end_exclusive : ℕ

unfoldable pub fill_active_entry : Kva → RangeRecord → Result ActiveEntry
fill_active_entry s r =
    let range = fill_range (arena_at s r.arena) r in
    require (ltb r.arena arena_max) ec_illegal_argument
    >> ok (record {
      range = range;
      end_address_exclusive = add64 range.base_address (mul64 range.total_pages 4096);
      usable_end_exclusive = add64 range.usable_base (mul64 range.usable_pages 4096);
    })

-- KE_KVA_ACTIVE_RANGE_SNAPSHOT_MAX
abbrev pub snapshot_max : ℕ
snapshot_max = 16

-- The loop: the entries copied, in order, and whether it stopped at the full snapshot.
unfoldable pub copy_active : Kva → List RangeRecord → ℕ → Result (List ActiveEntry × Bool)
copy_active s [] returned = ok ([], false)
copy_active s (r ∷ rs) returned =
    let skip = copy_active s rs returned in
    let rest = copy_active s rs (suc returned) in
    if not r.in_use
    then skip
    else if leb snapshot_max returned
    then ok ([], true)
    else fill_active_entry s r >>= λ entry. rest >>= λ copied. ok (entry ∷ copied.0, copied.1)

-- KE_KVA_ACTIVE_RANGE_SNAPSHOT; the returned count is the length of the entries.
pub record Snapshot : Type 0 where
  pub total_active_range_count : ℕ
  pub truncated : Bool
  pub entries : List ActiveEntry

unfoldable pub query_active_ranges : Kva → Result Snapshot
query_active_ranges s =
    let total = count_all_active_ranges s.ranges in
    require s.initialized ec_invalid_state
    >> (copy_active s s.ranges 0 >>= λ copied. ok (record {
      total_active_range_count = total;
      truncated = copied.1 || ltb (length copied.0) total;
      entries = copied.0;
    }))

-- KE_KVA_ADDRESS_KIND
pub data AddressKind : Type 0 where
  address_outside address_free_hole address_guard_page : AddressKind
  address_active_stack address_active_fixmap address_active_heap address_unknown : AddressKind

unfoldable pub address_kind_from_arena : ℕ → AddressKind
address_kind_from_arena arena_type =
    if arena_type == arena_stack
    then address_active_stack
    else if arena_type == arena_fixmap
    then address_active_fixmap
    else if arena_type == arena_heap
    then address_active_heap
    else address_unknown

-- The arena of an address, of the `left` arenas from `idx` on, and the page in it.
unfoldable pub locate_arena : Kva → ℕ → ℕ → ℕ → Option (ℕ × ℕ)
locate_arena s address zero idx = none
locate_arena s address (suc left) idx =
    let arena = arena_at s idx in
    let rest = locate_arena s address left (suc idx) in
    if ltb address arena.base_address || leb (add64 arena.base_address arena.size_bytes) address
    then rest
    else some (idx, (address - arena.base_address) / 4096)

unfoldable pub locate_arena_by_address : Kva → ℕ → Option (ℕ × ℕ)
locate_arena_by_address s address = locate_arena s address arena_max 0

-- KE_KVA_ADDRESS_INFO: the place in an arena and the range, where there are any.
pub record AddressInfo : Type 0 where
  pub kind : AddressKind
  pub place : Option (ℕ × ℕ)
  pub range : Option Range

unfoldable pub kind_of_state : ℕ → ℕ → AddressKind
kind_of_state arena_type state =
    if state == page_guard
    then address_guard_page
    else if state == page_alloc
    then address_kind_from_arena arena_type
    else address_unknown

unfoldable pub is_unknown : AddressKind → Bool
is_unknown address_unknown = true
is_unknown _ = false

-- A page that is not free, with the record that covers the address.
unfoldable pub classify_page : Kva → ℕ → ℕ → Option ℕ → Status × AddressInfo
classify_page s arena_type page none = (
  ec_invalid_state,
  record {
    kind = kind_of_state arena_type (page_state s arena_type page);
    place = some (arena_type, page);
    range = none;
  },
)
classify_page s arena_type page (some idx) =
    let kind = kind_of_state arena_type (page_state s arena_type page) in
    let r = record_at s idx in
    (
      if is_unknown kind then ec_invalid_state else ec_success,
      record {
        kind = kind;
        place = some (arena_type, page);
        range = some (fill_range (arena_at s r.arena) r);
      },
    )

unfoldable pub classify_place : Kva → ℕ → Option (ℕ × ℕ) → Status × AddressInfo
classify_place s address none =
    (ec_success, record { kind = address_outside; place = none; range = none })
classify_place s address (some (arena_type, page)) =
    if page_state s arena_type page == page_free
    then (
      ec_success,
      record { kind = address_free_hole; place = some (arena_type, page); range = none },
    )
    else classify_page s arena_type page (find_record_by_address s arena_type address)

unfoldable pub classify_address : Kva → ℕ → Result (Status × AddressInfo)
classify_address s address =
    require s.initialized ec_invalid_state
    >> ok (classify_place s address (locate_arena_by_address s address))
