-- ===== src/Pmm/Tests.antt =====
-- Eight pages: one reserved, two allocated, five free; runs of the sink on them, and the theorems at
-- this table.
use himu_os.Prelude.{
  ℕ, zero, suc, ◌+◌, ◌-◌, ◌^◌, ◌<◌, ◌≡◌, ◌↔◌, refl, [], ◌∷◌, Option, none, some, ok, err,
  ec_not_enough_memory, ec_invalid_state, get_or, arith,
}
use himu_os.Pmm.Bitmap.{Context, page_bits, put_bits, get_state, set_state, set_range, check_range}
use himu_os.Pmm.Sink.{
  Constraints, is_power_of_two, align_pages, max_page_index, first_used, scan, mark_allocated,
  page_range, alloc_pages, free_pages, mark_free, tally_page, tally_from, compare_counts,
  check_invariants,
}
use himu_os.Pmm.Pages.{IsBuffer}
use himu_os.Pmm.Counts.{count_state}
use himu_os.Pmm.Audit.{CountsMatch, check_invariants_iff}
use himu_os.Pmm.Invariant.{IsValid}
use himu_os.Pmm.Alloc.{FirstFitAlloc, alloc_pages-FirstFitAlloc, alloc_pages-limit_wraps}
use himu_os.Pmm.Release.{Moves, free_pages-Moves, page_range_wraps}
use himu_os.Pmm.RoundTrip.{SamePages, free_pages-alloc_pages}

abbrev base : ℕ
base = 0x10_0000

abbrev pages : Context
pages = record {
  bitmap = 6 ∷ 4 ∷ [];
  managed_base_phys = base;
  total_managed_pages = 8;
  free_pages = 5;
  allocated_pages = 2;
  reserved_pages = 1;
}

abbrev even_run : Option Constraints
even_run = some (record { max_phys_addr = 0x10_7fff; alignment_pages = 2 })

pages_bytes : (k : ℕ) → get_or pages.bitmap k 0 < 256
pages_bytes zero = omega arith
pages_bytes (suc zero) = omega arith
pages_bytes (suc (suc k)) = omega arith

abbrev pages-IsBuffer : IsBuffer pages
pages-IsBuffer = record { bytes = pages_bytes; covers = omega arith }

pages-IsValid : IsValid pages
unfolding count_state get_state page_bits
pages-IsValid = record {
  buffer = pages-IsBuffer;
  aligned = refl;
  reach = omega arith;
  legal = refl;
  free = refl;
  allocated = refl;
  reserved = refl;
}

-- Three free pages in a row are at index 6 only past the end, so two fit at 2 and three nowhere.
abbrev after_alloc : Context
after_alloc = record pages { bitmap = 0x56 ∷ 4 ∷ []; free_pages = 3; allocated_pages = 4 }

allocates : alloc_pages pages 2 even_run ≡ ok (after_alloc, base + 0x2000)
unfolding alloc_pages align_pages is_power_of_two max_page_index scan first_used mark_allocated
    set_range set_state get_state page_bits put_bits
allocates = refl

no_room : alloc_pages pages 4 none ≡ err ec_not_enough_memory
unfolding alloc_pages align_pages is_power_of_two max_page_index scan first_used mark_allocated
    set_range set_state get_state page_bits put_bits
no_room = refl

frees : free_pages after_alloc (base + 0x2000) 2 ≡ ok pages
unfolding free_pages page_range check_range mark_free set_range set_state get_state page_bits
    put_bits
frees = refl

double_free : free_pages pages (base + 0x2000) 2 ≡ err ec_invalid_state
unfolding free_pages page_range check_range mark_free set_range set_state get_state page_bits
    put_bits
double_free = refl

audits : check_invariants pages ≡ ok tt
unfolding check_invariants tally_from tally_page compare_counts get_state page_bits
audits = refl

alloc_pages-FirstFitAlloc_example : FirstFitAlloc pages 2 2 8 (alloc_pages pages 2 even_run)
unfolding align_pages is_power_of_two max_page_index
alloc_pages-FirstFitAlloc_example =
    alloc_pages-FirstFitAlloc pages 2 even_run 2 8 pages-IsValid (omega arith) (omega arith) refl
      refl

free_pages-alloc_pages_example :
    (ctx'' : Context) × (free_pages after_alloc (base + 0x2000) 2 ≡ ok ctx'')
    × SamePages ctx'' pages
free_pages-alloc_pages_example =
    free_pages-alloc_pages pages after_alloc (base + 0x2000) 2 even_run pages-IsValid (omega arith)
      allocates

free_pages-Moves_example : Moves pages (base + 0x1000) 1 1 0 (free_pages pages (base + 0x1000) 1)
free_pages-Moves_example =
    free_pages-Moves pages (base + 0x1000) 1 pages-IsValid (omega arith) (omega arith)

check_invariants_iff_example : (check_invariants pages ≡ ok tt) ↔ CountsMatch pages
check_invariants_iff_example = check_invariants_iff pages pages-IsBuffer

alloc_pages-limit_wraps_example :
    alloc_pages
      (record pages { managed_base_phys = 0 })
      1
      (some (record { max_phys_addr = 2 ^ 64 - 1; alignment_pages = 1 }))
    ≡ err ec_not_enough_memory
unfolding align_pages
alloc_pages-limit_wraps_example =
    alloc_pages-limit_wraps (record pages { managed_base_phys = 0 }) 1
      (record { max_phys_addr = 2 ^ 64 - 1; alignment_pages = 1 }) 1 refl refl (omega arith) refl

page_range_wraps_example :
    (page_range pages (base + 4096) (2 ^ 64 - 1) ≡ ok 1) × (8 < 1 + (2 ^ 64 - 1))
page_range_wraps_example = page_range_wraps pages 1 pages-IsValid (omega arith) (omega arith)
