-- ===== src/Kva/Init.antt =====
-- `KeKvaInit` and the validation of the arenas against the imported regions and the page tables.
use himu_os.Prelude.{
  ℕ, zero, suc, ◌+◌, ◌*◌, ◌/◌, Bool, true, false, not, List, [], ◌∷◌, if◌then◌else◌, replicate,
  Result, ok, err, ◌>>◌, require, Status, ec_success, ec_invalid_state, add64, align_up,
}
use himu_os.Kva.State.{
  Arena, RangeRecord, Kva, page_free, fixmap_pages, max_ranges, page_address, blank_record,
}
use himu_os.Kva.Machine.{Mapping, Machine}
use himu_os.Kva.Query.{Region, overlaps_imported_regions}
use himu_os.Kva.Fixmap.{fixmap_arena_base}

-- KRNL_IST2_STACK_VA and the bases and sizes of the arenas.
abbrev pub ist2_stack_va : ℕ
ist2_stack_va = 0xFFFF808000000000 + (0x4000 + 0x1000) + (0x4000 + 0x1000)

abbrev pub stack_arena_base : ℕ
stack_arena_base = align_up (ist2_stack_va + 0x4000 + 0x1000) 0x200000

abbrev pub stack_arena_size : ℕ
stack_arena_size = 32 * 1024 * 1024

abbrev pub heap_arena_base : ℕ
heap_arena_base = align_up (stack_arena_base + stack_arena_size) 0x200000

abbrev pub heap_arena_size : ℕ
heap_arena_size = 64 * 1024 * 1024

abbrev pub fixmap_arena_size : ℕ
fixmap_arena_size = 64 * 4096

abbrev pub fresh_arena : ℕ → ℕ → Arena
fresh_arena base size = record {
  base_address = base;
  size_bytes = size;
  page_count = size / 4096;
  page_states = replicate (size / 4096) page_free;
}

abbrev pub initial_arenas : List Arena
initial_arenas =
    fresh_arena stack_arena_base stack_arena_size
    ∷ fresh_arena fixmap_arena_base fixmap_arena_size
    ∷ fresh_arena heap_arena_base heap_arena_size
    ∷ []

-- The kernel address space as far as the validation reads it.
pub record Space : Type 0 where
  pub initialized : Bool
  pub regions : List Region

module _ {M : Type 0} (os : Machine M) (m : M) (space : Space) where
  unfoldable pub check_unmapped : Result Mapping → Result (Unit {0}) → Result (Unit {0})
  check_unmapped (err e) rest = err e
  check_unmapped (ok mapping) rest = if mapping.present then err ec_invalid_state else rest

  unfoldable pub all_unmapped : Arena → ℕ → ℕ → Result (Unit {0})
  all_unmapped arena zero page = ok tt
  all_unmapped arena (suc left) page =
      check_unmapped (os.query_page m (page_address arena page))
        (all_unmapped arena left (suc page))

  unfoldable pub validate_arena : Bool → Arena → Result (Unit {0})
  validate_arena require_unmapped arena =
      require space.initialized ec_invalid_state
      >> require
          (not (
            overlaps_imported_regions space.regions arena.base_address
              (add64 arena.base_address arena.size_bytes)))
          ec_invalid_state
      >> (if require_unmapped then all_unmapped arena arena.page_count 0 else ok tt)

  -- The loop over the arenas, which stops at the first that fails.
  unfoldable pub validate_arenas : Bool → List Arena → Result (Unit {0})
  validate_arenas require_unmapped [] = ok tt
  validate_arenas require_unmapped (arena ∷ arenas) =
      validate_arena require_unmapped arena >> validate_arenas require_unmapped arenas

-- The records' numbers from `idx` on.
unfoldable pub number_records : ℕ → ℕ → List RangeRecord
number_records zero idx = []
number_records (suc count) idx = blank_record (idx + 1) ∷ number_records count (suc idx)

-- The variables after the clearing, and after the numbering.
unfoldable pub cleared : Kva → Kva
cleared s = record s { arenas = initial_arenas; ranges = replicate max_ranges (blank_record 0) }

unfoldable pub ready : Kva → Kva
ready s = record s {
  arenas = initial_arenas;
  ranges = number_records max_ranges 0;
  slot_generations = replicate fixmap_pages 0;
  generation_counter = 1;
  initialized = true;
}

unfoldable pub init_validated : Kva → Result (Unit {0}) → Kva × Status
init_validated s (err e) = (cleared s, e)
init_validated s (ok checked) = (ready s, ec_success)

module _ {M : Type 0} (os : Machine M) (m : M) (space : Space) where
  unfoldable pub init : Kva → Kva × Status
  init s =
      if s.initialized
      then (s, ec_invalid_state)
      else init_validated s (validate_arenas os m space true initial_arenas)

  unfoldable pub validate_layout : Kva → Result (Unit {0})
  validate_layout s =
      require s.initialized ec_invalid_state >> validate_arenas os m space false s.arenas
