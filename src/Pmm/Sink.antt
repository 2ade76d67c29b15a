-- ===== src/Pmm/Sink.antt =====
-- The operations of the bitmap sink: kernel/ke/pmm/bitmap_sink.c. An operation that succeeds
-- returns the new context; one that fails has written nothing. Addresses and counts are 64-bit.
use Prim.Native.Nat.{bit_and}
use himu_os.Prelude.{
  ℕ, zero, suc, ◌+◌, ◌-◌, ◌/◌, ◌%◌, Bool, true, false, ◌&&◌, not, Option, none, some, List, ltb,
  leb, ◌==◌, if◌then◌else◌, add64, sub64, mul64, ec_illegal_argument, ec_not_enough_memory,
  ec_invalid_state, Result, ok, err, ◌>>=◌, ◌>>◌, require,
}
use himu_os.Pmm.Bitmap.{
  page_free, page_allocated, page_reserved, Context, get_state, set_range, check_range,
}

abbrev pub page_4kb : ℕ
page_4kb = 4096

-- KE_PMM_ALLOC_CONSTRAINTS: 0 for no limit, 0 or 1 for no alignment.
pub record Constraints : Type 0 where
  pub max_phys_addr : ℕ
  pub alignment_pages : ℕ

pub record Stats : Type 0 where
  pub total_bytes : ℕ
  pub free_bytes : ℕ
  pub allocated_bytes : ℕ
  pub reserved_bytes : ℕ

-- Some power of two, or zero.
unfoldable pub is_power_of_two : ℕ → Bool
is_power_of_two a = bit_and a (a - 1) == 0

unfoldable pub align_pages : Option Constraints → Result ℕ
align_pages none = ok 1
align_pages (some c) =
    if ltb 1 c.alignment_pages
    then if is_power_of_two c.alignment_pages then ok c.alignment_pages else err ec_illegal_argument
    else ok 1

-- The first page index that the address limit rules out.
unfoldable pub max_page_index : Context → Option Constraints → Result ℕ
max_page_index ctx none = ok ctx.total_managed_pages
max_page_index ctx (some c) =
    if c.max_phys_addr == 0
    then ok ctx.total_managed_pages
    else if ltb c.max_phys_addr ctx.managed_base_phys
    then err ec_not_enough_memory
    else let limit = add64 (sub64 c.max_phys_addr ctx.managed_base_phys) 1 / page_4kb in
      ok (if ltb limit ctx.total_managed_pages then limit else ctx.total_managed_pages)

-- The inner loop: the offset of the first page from `i + j` on that is not free.
unfoldable pub first_used : Context → ℕ → ℕ → ℕ → Option ℕ
first_used ctx i j zero = none
first_used ctx i j (suc n) =
    if get_state ctx (i + j) == page_free then first_used ctx i (j + 1) n else some j

-- The outer loop on fuel; each round moves `i` up.
unfoldable pub scan : ℕ → Context → ℕ → ℕ → ℕ → ℕ → Option ℕ
scan zero ctx count align max i = none
scan (suc fuel) ctx count align max i = elim (leb (add64 i count) max) [
  | false ↦ none
  | true ↦ elim (ltb 1 align && not (i % align == 0)) [
    | true ↦ scan fuel ctx count align max (add64 i (align - i % align))
    | false ↦ elim (first_used ctx i 0 count) [
      | some j ↦ scan fuel ctx count align max (add64 (add64 i j) 1)
      | none ↦ some i
    ]
  ]
]

unfoldable pub mark_allocated : Context → ℕ → ℕ → Context
mark_allocated ctx i count = record marked {
  free_pages = sub64 ctx.free_pages count;
  allocated_pages = add64 ctx.allocated_pages count;
}
  where
    marked : Context
    marked = set_range ctx i count page_allocated

abbrev pub allocate_at : Context → ℕ → Option ℕ → Result (Context × ℕ)
allocate_at ctx count none = err ec_not_enough_memory
allocate_at ctx count (some i) =
    ok (mark_allocated ctx i count, add64 ctx.managed_base_phys (mul64 i page_4kb))

unfoldable pub alloc_pages : Context → ℕ → Option Constraints → Result (Context × ℕ)
alloc_pages ctx count constraints = do
  require (not (count == 0)) ec_illegal_argument
  align ← align_pages constraints
  max ← max_page_index ctx constraints
  require (leb count max) ec_not_enough_memory
  allocate_at ctx count (scan (max + 1) ctx count align max 0)

-- The common guards of free and reserve, and the index of the first page.
unfoldable pub page_range : Context → ℕ → ℕ → Result ℕ
page_range ctx base_phys count = do
  require (not (count == 0)) ec_illegal_argument
  require (base_phys % page_4kb == 0) ec_illegal_argument
  require (leb ctx.managed_base_phys base_phys) ec_illegal_argument
  let start = sub64 base_phys ctx.managed_base_phys / page_4kb
  require (leb (add64 start count) ctx.total_managed_pages) ec_illegal_argument
  ok start

unfoldable pub mark_free : Context → ℕ → ℕ → Context
mark_free ctx start count = record marked {
  allocated_pages = sub64 ctx.allocated_pages count;
  free_pages = add64 ctx.free_pages count;
}
  where
    marked : Context
    marked = set_range ctx start count page_free

unfoldable pub free_pages : Context → ℕ → ℕ → Result Context
free_pages ctx base_phys count = do
  start ← page_range ctx base_phys count
  require (check_range ctx start count page_allocated) ec_invalid_state
  ok (mark_free ctx start count)

unfoldable pub mark_reserved : Context → ℕ → ℕ → Context
mark_reserved ctx start count = record marked {
  free_pages = sub64 ctx.free_pages count;
  reserved_pages = add64 ctx.reserved_pages count;
}
  where
    marked : Context
    marked = set_range ctx start count page_reserved

unfoldable pub reserve_pages : Context → ℕ → ℕ → Result Context
reserve_pages ctx base_phys count = do
  start ← page_range ctx base_phys count
  require (check_range ctx start count page_free) ec_invalid_state
  ok (mark_reserved ctx start count)

unfoldable pub query_stats : Context → Stats
query_stats ctx = record {
  total_bytes = mul64 ctx.total_managed_pages page_4kb;
  free_bytes = mul64 ctx.free_pages page_4kb;
  allocated_bytes = mul64 ctx.allocated_pages page_4kb;
  reserved_bytes = mul64 ctx.reserved_pages page_4kb;
}

-- The three counters of the loop in `check_invariants`.
pub record Tally : Type 0 where
  pub free : ℕ
  pub allocated : ℕ
  pub reserved : ℕ

-- One round: the switch on the page's state, whose default case leaves the function.
unfoldable pub tally_page : ℕ → Tally → Result Tally
tally_page s t =
    if s == page_free
    then ok (record t { free = t.free + 1 })
    else if s == page_allocated
    then ok (record t { allocated = t.allocated + 1 })
    else if s == page_reserved
    then ok (record t { reserved = t.reserved + 1 })
    else err ec_invalid_state

unfoldable pub tally_from : ℕ → Context → ℕ → Tally → Result Tally
tally_from zero ctx i t = ok t
tally_from (suc n) ctx i t = tally_page (get_state ctx i) t >>= tally_from n ctx (i + 1)

abbrev pub no_pages : Tally
no_pages = record { free = 0; allocated = 0; reserved = 0 }

-- The two comparisons behind the loop.
unfoldable pub compare_counts : Context → Tally → Result (Unit {0})
compare_counts ctx t = do
  require
      (t.free == ctx.free_pages
        && t.allocated == ctx.allocated_pages
        && t.reserved == ctx.reserved_pages)
      ec_invalid_state
  require (t.free + t.allocated + t.reserved == ctx.total_managed_pages) ec_invalid_state

unfoldable pub check_invariants : Context → Result (Unit {0})
check_invariants ctx = tally_from ctx.total_managed_pages ctx 0 no_pages >>= compare_counts ctx

-- KePmmBitmapSinkInit: the buffer is the caller's; null pointers are not values here.
unfoldable pub init_context : List ℕ → ℕ → ℕ → Result Context
init_context bitmap managed_base_phys total_managed_pages = do
  require (not (total_managed_pages == 0)) ec_illegal_argument
  ok (record {
    bitmap = bitmap;
    managed_base_phys = managed_base_phys;
    total_managed_pages = total_managed_pages;
    free_pages = 0;
    allocated_pages = 0;
    reserved_pages = 0;
  })
