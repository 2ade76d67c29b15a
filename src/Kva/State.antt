-- ===== src/Kva/State.antt =====
-- The allocator's variables of kernel/ke/mm/kva.c and the structures of kernel/ke/mm.h it hands out.
use himu_os.Prelude.{
  ℕ, ◌+◌, ◌-◌, ◌^◌, Bool, false, Option, none, some, List, [], ltb, if◌then◌else◌, get_or, set,
  add64, mul64,
}

-- KE_KVA_ARENA_TYPE: any other number is not an arena.
abbrev pub arena_stack : ℕ
arena_stack = 0

abbrev pub arena_fixmap : ℕ
arena_fixmap = 1

abbrev pub arena_heap : ℕ
arena_heap = 2

abbrev pub arena_max : ℕ
arena_max = 3

-- KE_KVA_PAGE_STATE_FREE, _ALLOC, _GUARD and _RETIRED.
abbrev pub page_free : ℕ
page_free = 0

abbrev pub page_alloc : ℕ
page_alloc = 1

abbrev pub page_guard : ℕ
page_guard = 2

abbrev pub page_retired : ℕ
page_retired = 3

abbrev pub max_ranges : ℕ
max_ranges = 512

-- KE_KVA_FIXMAP_ARENA_PAGES
abbrev pub fixmap_pages : ℕ
fixmap_pages = 64

-- KE_TEMP_MAP_TOKEN_GENERATION_MASK
abbrev pub generation_mask : ℕ
generation_mask = 2 ^ 58 - 1

-- KE_KVA_ARENA_STATE
pub record Arena : Type 0 where
  pub base_address : ℕ
  pub size_bytes : ℕ
  pub page_count : ℕ
  pub page_states : List ℕ

-- KE_KVA_RANGE_RECORD
pub record RangeRecord : Type 0 where
  pub in_use : Bool
  pub owns_physical_backing : Bool
  pub arena : ℕ
  pub record_id : ℕ
  pub generation : ℕ
  pub base_page_index : ℕ
  pub total_pages : ℕ
  pub usable_pages : ℕ
  pub guard_lower_pages : ℕ
  pub guard_upper_pages : ℕ

-- KE_KVA_RANGE
pub record Range : Type 0 where
  pub arena : ℕ
  pub record_id : ℕ
  pub generation : ℕ
  pub base_address : ℕ
  pub usable_base : ℕ
  pub total_pages : ℕ
  pub usable_pages : ℕ
  pub guard_lower_pages : ℕ
  pub guard_upper_pages : ℕ

-- The variables: gKvaArenas, gKvaRanges, gFixmapSlotGenerations, gKvaRangeGenerationCounter and
-- gKvaInitialized.
pub record Kva : Type 0 where
  pub arenas : List Arena
  pub ranges : List RangeRecord
  pub slot_generations : List ℕ
  pub generation_counter : ℕ
  pub initialized : Bool

-- What a read past an array would find; the guards rule such reads out.
abbrev pub no_arena : Arena
no_arena = record { base_address = 0; size_bytes = 0; page_count = 0; page_states = [] }

-- A record cleared by memset, with its number.
abbrev pub blank_record : ℕ → RangeRecord
blank_record id = record {
  in_use = false;
  owns_physical_backing = false;
  arena = 0;
  record_id = id;
  generation = 0;
  base_page_index = 0;
  total_pages = 0;
  usable_pages = 0;
  guard_lower_pages = 0;
  guard_upper_pages = 0;
}

abbrev pub arena_at : Kva → ℕ → Arena
arena_at s arena_type = get_or s.arenas arena_type no_arena

abbrev pub record_at : Kva → ℕ → RangeRecord
record_at s idx = get_or s.ranges idx (blank_record 0)

abbrev pub page_state : Kva → ℕ → ℕ → ℕ
page_state s arena_type page = get_or (arena_at s arena_type).page_states page 0

unfoldable pub arena_state : Kva → ℕ → Option Arena
arena_state s arena_type = if ltb arena_type arena_max then some (arena_at s arena_type) else none

-- The address of a page of an arena, in 64 bits.
abbrev pub page_address : Arena → ℕ → ℕ
page_address arena page = add64 arena.base_address (mul64 page 4096)

abbrev pub usable_base : Arena → RangeRecord → ℕ
usable_base arena r = page_address arena (r.base_page_index + r.guard_lower_pages)

abbrev pub put_page_states : Kva → ℕ → List ℕ → Kva
put_page_states s arena_type states = record s {
  arenas = set s.arenas arena_type (record (arena_at s arena_type) { page_states = states });
}

abbrev pub put_record : Kva → ℕ → RangeRecord → Kva
put_record s idx r = record s { ranges = set s.ranges idx r }

unfoldable pub fill_range : Arena → RangeRecord → Range
fill_range arena r = record {
  arena = r.arena;
  record_id = r.record_id;
  generation = r.generation;
  base_address = page_address arena r.base_page_index;
  usable_base = usable_base arena r;
  total_pages = r.total_pages;
  usable_pages = r.usable_pages;
  guard_lower_pages = r.guard_lower_pages;
  guard_upper_pages = r.guard_upper_pages;
}
