-- ===== src/Kva/Tests.antt =====
-- The theorems of the allocator at a fresh state and a page table that is a function.
use himu_os.Prelude.{
  ℕ, zero, suc, ◌<◌, ◌≡◌, ◌≢◌, ◌==◌, ◌∙◌, refl, sym, subst, ap, true, false, Option, none, some, [],
  if◌then◌else◌, ok, ok-injective, Status, ec_success, ec_invalid_state, arith,
}
use himu_os.Kva.State.{Arena, Range, Kva, arena_at, record_at, page_state}
use himu_os.Kva.Backing.{IsKept, IsBacking}
use himu_os.Kva.Mapping.{heap_alloc_pages}
use himu_os.Kva.Heap.{IsHeapAlloc, heap_alloc_pages-IsHeapAlloc}
use himu_os.Kva.Machine.{Mapping, Machine, succeeded, IsUnmapped, IsMachine}
use himu_os.Kva.Init.{
  Space, ready, init, fresh_arena, stack_arena_base, stack_arena_size, fixmap_arena_size,
  heap_arena_base, heap_arena_size, all_unmapped, check_unmapped, validate_arena, validate_arenas,
  init_validated, number_records,
}
use himu_os.Kva.Range.{
  alloc_range, commit_range, next_range_generation, find_record, is_unused, total_pages_of,
  alloc_with_record, alloc_in_hole,
}
use himu_os.Kva.Arena.{first_hole, is_available}
use himu_os.Kva.Release.{released, refused, release_range_handle}
use himu_os.Kva.Query.{overlaps_imported_regions, AddressInfo, classify_address}
use himu_os.Kva.Fixmap.{fixmap_arena_base, fixmap_acquire}
use himu_os.Kva.Started.{ready-IsKva, IsVacant, init-IsStarted}
use himu_os.Kva.Alloc.{Allocated, alloc_range-Allocated}
use himu_os.Kva.Freed.{Handled, release_range_handle-Handled}
use himu_os.Kva.RoundTrip.{release_range_handle-alloc_range}
use himu_os.Kva.Slots.{IsFixmap}
use himu_os.Kva.Translated.{IsMapper, IsMapped}
use himu_os.Kva.Acquire.{IsAcquired, fixmap_acquire-IsAcquired}
use himu_os.Kva.Classified.{IsPlace, IsClass, classify_address-IsClass}
use himu_os.Kva.Invariant.{IsKva}

abbrev pub Store : Type 0
Store = ℕ → Option ℕ

abbrev mapping_of : Option ℕ → Mapping
mapping_of none = record { present = false; level = 0; physical_base = 0 }
mapping_of (some pa) = record { present = true; level = 1; physical_base = pa }

abbrev pub store : Machine Store
store = record {
  query_page = λ m va. ok (mapping_of (m va));
  map_page = λ m va pa attributes. (λ x. if x == va then some pa else m x, ec_success);
  unmap_page = λ m va. ok (λ x. if x == va then none else m x);
  alloc_page = λ m. ok (m, 0x100000);
  free_page = λ m pa. ok m;
}

abbrev pub empty : Store
empty va = none

abbrev pub before : Kva
before = record {
  arenas = [];
  ranges = [];
  slot_generations = [];
  generation_counter = 0;
  initialized = false;
}

abbrev pub fresh : Kva
fresh = ready before

alloc_range-Allocated_example : Allocated fresh 0 4 1 0 true (alloc_range fresh 0 4 1 0 true)
alloc_range-Allocated_example =
    alloc_range-Allocated fresh 0 4 1 0 true (ready-IsKva before) (omega arith) (omega arith)
      (omega arith)

heap_range : Kva × Range
unfolding commit_range
heap_range = commit_range fresh 2 2 0 0 2 true 0 0 (1, 2)

granted : alloc_range fresh 2 2 0 0 true ≡ ok heap_range
unfolding ready alloc_range heap_range total_pages_of alloc_with_record find_record number_records
    is_unused alloc_in_hole first_hole is_available next_range_generation
granted = refl

heap_range-IsKva : IsKva heap_range.0
heap_range-IsKva =
    (subst (Allocated fresh 2 2 0 0 true) granted (
      alloc_range-Allocated fresh 2 2 0 0 true (ready-IsKva before) (omega arith) (omega arith)
        (omega arith))).11

store-IsMachine : IsMachine store
store-IsMachine = record {
  unmap_self = λ m m' va e.
      let self : (va == va) ≡ true = ground arith in
      let same : (λ x. if x == va then none else m x) ≡ m' = ok-injective e in
      subst (λ n. IsUnmapped store n va) same (rw self (mapping_of none, refl, refl));
  unmap_other = λ m m' va other e ne.
      let apart : (other == va) ≡ false = ground arith in
      let same : (λ x. if x == va then none else m x) ≡ m' = ok-injective e in
      subst (λ n. store.query_page n other ≡ store.query_page m other) same (rw apart refl);
  free_query = λ m m' pa va e. ap (λ n. store.query_page n va) (sym (ok-injective e));
}

-- The first page of the heap range is mapped.
abbrev one_page : Store
one_page x = if x == heap_range.1.usable_base then some 0x200000 else none

release_range_handle-Handled_example :
    Handled store heap_range.0 one_page heap_range.1
      (release_range_handle store heap_range.0 one_page heap_range.1)
release_range_handle-Handled_example =
    release_range_handle-Handled store store-IsMachine heap_range.0 one_page heap_range-IsKva
      heap_range.1

release_range_handle-alloc_range_example :
    (s'' : Kva) × (release_range_handle store heap_range.0 empty heap_range.1
      ≡ released (s'', empty))
    × ((u page : ℕ) → page_state s'' u page ≡ page_state fresh u page)
    × IsKva s''
    × (release_range_handle store s'' empty heap_range.1 ≡ refused ec_invalid_state)
release_range_handle-alloc_range_example =
    release_range_handle-alloc_range store fresh heap_range.0 empty 2 2 0 0 true heap_range.1
      (ready-IsKva before) (omega arith) (omega arith) (omega arith) (omega arith) granted
      (λ k h. (mapping_of none, refl, refl))

abbrev no_regions : Space
no_regions = record { initialized = true; regions = [] }

empty-all_unmapped :
    (a : Arena) (left page : ℕ) → all_unmapped store empty no_regions a left page ≡ ok tt
unfolding all_unmapped check_unmapped
empty-all_unmapped a zero page = refl
empty-all_unmapped a (suc left) page = empty-all_unmapped a left (suc page)

empty-initialized : (init store empty no_regions before).0.initialized ≡ true
unfolding init init_validated validate_arenas validate_arena overlaps_imported_regions ready
empty-initialized =
    rw
      (
        empty-all_unmapped (fresh_arena stack_arena_base stack_arena_size) 8192 0,
        empty-all_unmapped (fresh_arena fixmap_arena_base fixmap_arena_size) 64 0,
        empty-all_unmapped (fresh_arena heap_arena_base heap_arena_size) 16384 0,
      )
      refl

init-IsStarted_example :
    ((init store empty no_regions before).1 ≡ ec_success)
    × IsKva (init store empty no_regions before).0
    × ((t : ℕ)
        → t < 3
        → IsVacant store empty no_regions (arena_at (init store empty no_regions before).0 t))
    × ((t page : ℕ)
        → t < 3
        → ◌≡◌ {A = ℕ} (page_state (init store empty no_regions before).0 t page) 0)
    × ((i : ℕ) → (record_at (init store empty no_regions before).0 i).in_use ≡ false)
init-IsStarted_example = init-IsStarted store empty no_regions before refl empty-initialized

fresh-IsFixmap : IsFixmap fresh
unfolding ready
fresh-IsFixmap = record { slots = refl; base = refl; generations = refl }

other_at : {A : Type 0} (x y : A) (va other : ℕ) → va ≢ other → (if other == va then x else y) ≡ y
other_at x y va other ne = let test : (other == va) ≡ false = ground arith in rw test refl

store-IsMapper : IsMapper store
store-IsMapper = record {
  maps = λ m m' va pa attributes e.
      let tables : (λ x. if x == va then some pa else m x) ≡ m' = ap (λ r. r.0) e in
      let self : (va == va) ≡ true = ground arith in
      (
        ap (λ f. ok (mapping_of (f va))) (sym tables) ∙ rw self refl,
        λ other ne.
            let kept : m' other ≡ m other =
              ap (λ f. f other) (sym tables) ∙ other_at (some pa) (m other) va other ne in
            (
              λ mapping q here. ap (λ o. ok (mapping_of o)) kept ∙ q,
              λ (mapping, q, gone). (mapping, ap (λ o. ok (mapping_of o)) kept ∙ q, gone),
            ),
      );
  fails = λ m m' va pa attributes status e bad other. absurd (bad (sym (ap (λ r. r.1) e)));
}

fixmap_acquire-IsAcquired_example :
    IsAcquired fresh empty (fixmap_acquire store fresh empty 0x200000 3)
    × IsMapped store 0x200000 empty (fixmap_acquire store fresh empty 0x200000 3)
unfolding ready
fixmap_acquire-IsAcquired_example =
    fixmap_acquire-IsAcquired store store-IsMapper fresh empty 0x200000 3 (ready-IsKva before)
      fresh-IsFixmap refl refl

classify_address-IsClass_example :
    (o : Option (ℕ × ℕ)) × IsPlace heap_range.0 0xFFFF808002200010 o
    × (r : Status × AddressInfo) × (classify_address heap_range.0 0xFFFF808002200010 ≡ ok r)
    × IsClass heap_range.0 0xFFFF808002200010 o r
unfolding ready heap_range commit_range
classify_address-IsClass_example =
    classify_address-IsClass heap_range.0 heap_range-IsKva 0xFFFF808002200010 refl

-- A page is backed where the store has it.
abbrev pub Stored : Store → ℕ → Type 0
Stored m va = (pa : ℕ) × (m va ≡ some pa)

abbrev with_page : Store → ℕ → ℕ → Store
with_page m va pa x = if x == va then some pa else m x

with_page-IsKept :
    (m : Store) (va pa other : ℕ) → va ≢ other → IsKept store Stored m (with_page m va pa) other
with_page-IsKept m va pa other ne =
    let apart : (other == va) ≡ false = ground arith in
    (λ b. (b.0, rw apart (b.1)), λ u. (u.0, rw apart (u.1), u.2))

store_maps :
    (m m1 m2 : Store) (va pa attributes : ℕ) (st : Status)
    → store.alloc_page m ≡ ok (m1, pa)
    → store.map_page m1 va pa attributes ≡ (m2, st)
    → Stored m2 va × ((other : ℕ) → va ≢ other → IsKept store Stored m m2 other)
store_maps m m1 m2 va pa attributes st given run =
    let self : (va == va) ≡ true = ground arith in
    let from : m ≡ m1 = ap (λ r. r.0) (ok-injective given) in
    let to : with_page m va pa ≡ m2 =
      ap (λ n. with_page n va pa) from ∙ ap (λ (r : Store × Status). r.0) run in
    subst (λ n. Stored n va × ((other : ℕ) → va ≢ other → IsKept store Stored m n other)) to
      ((pa, rw self refl), with_page-IsKept m va pa)

pub store-IsBacking : IsBacking store Stored
unfolding succeeded
store-IsBacking = record {
  alloc_fails = λ m e failed. absurd (cc failed);
  maps = λ m m1 m2 va pa attributes st absent given run won.
      store_maps m m1 m2 va pa attributes st given run;
  map_fails = λ m m1 m2 va pa attributes st absent given run lost.
      let won : ec_success ≡ st = ap (λ (r : Store × Status). r.1) run in
      absurd (cc (lost, ap succeeded won));
  takes = λ m va b.
      let self : (va == va) ≡ true = ground arith in
      let cut : Store = λ x. if x == va then none else m x in
      (
        mapping_of (some (b.0)),
        cut,
        cut,
        ap (λ o. ok (mapping_of o)) (b.1),
        refl,
        refl,
        refl,
        refl,
        (mapping_of none, rw self refl, refl),
        λ other ne.
            let apart : (other == va) ≡ false = ground arith in
            (λ c. (c.0, rw apart (c.1)), λ u. (u.0, rw apart (u.1), u.2)),
      );
}

heap_alloc_pages-IsHeapAlloc_example :
    IsHeapAlloc store Stored fresh empty 2 (heap_alloc_pages store fresh empty 2)
heap_alloc_pages-IsHeapAlloc_example =
    heap_alloc_pages-IsHeapAlloc store Stored store-IsBacking fresh empty 2 (ready-IsKva before)
      (λ p inside is_free. (mapping_of none, refl, refl)) (omega arith)
