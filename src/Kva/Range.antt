-- ===== src/Kva/Range.antt =====
-- Range records: finding one, allocating a range and asking for one.
use himu_os.Prelude.{
  ℕ, suc, ◌+◌, ◌-◌, Bool, true, ◌&&◌, ◌||◌, not, Option, none, some, List, [], ◌∷◌, ◌==◌, ltb, leb,
  if◌then◌else◌, Result, ok, err, ◌>>=◌, ◌>>◌, require, ec_illegal_argument, ec_out_of_resource,
  ec_invalid_state, u64_mod, add64, mul64,
}
use himu_os.Kva.State.{
  RangeRecord, Range, Kva, arena_max, max_ranges, arena_at, record_at, page_address, usable_base,
  put_page_states, put_record, fill_range,
}
use himu_os.Kva.Arena.{first_hole, layout_state, mark_pages}

-- The generation handed out, 0 when they have run out, and the counter left.
unfoldable pub next_range_generation : ℕ → ℕ × ℕ
next_range_generation counter =
    if counter == 0
    then (0, 0)
    else if counter == u64_mod - 1
    then (counter, 0)
    else (counter, add64 counter 1)

-- The number of the first record of the list that passes a test, counted from `idx`.
unfoldable pub find_record : (RangeRecord → Bool) → List RangeRecord → ℕ → Option ℕ
find_record test [] idx = none
find_record test (r ∷ rs) idx =
    let rest = find_record test rs (suc idx) in if test r then some idx else rest

unfoldable pub is_unused : RangeRecord → Bool
is_unused r = not r.in_use

abbrev pub first_unused : Kva → Option ℕ
first_unused s = find_record is_unused s.ranges 0

unfoldable pub has_usable_base : Kva → ℕ → RangeRecord → Bool
has_usable_base s address r =
    r.in_use && (ltb r.arena arena_max && (usable_base (arena_at s r.arena) r == address))

unfoldable pub find_record_by_usable_base : Kva → ℕ → Option ℕ
find_record_by_usable_base s address = find_record (has_usable_base s address) s.ranges 0

unfoldable pub covers_address : Kva → ℕ → ℕ → RangeRecord → Bool
covers_address s arena_type address r =
    let arena = arena_at s r.arena in
    let base = page_address arena r.base_page_index in
    r.in_use
    && ((r.arena == arena_type)
        && (ltb r.arena arena_max
            && (leb base address && ltb address (add64 base (mul64 r.total_pages 4096)))))

unfoldable pub find_record_by_address : Kva → ℕ → ℕ → Option ℕ
find_record_by_address s arena_type address =
    find_record (covers_address s arena_type address) s.ranges 0

-- The fields of a record against those of a range.
unfoldable pub is_record_of : Kva → Range → RangeRecord → Bool
is_record_of s range r =
    let arena = arena_at s r.arena in
    r.in_use
    && ((r.arena == range.arena)
        && ((r.generation == range.generation)
            && (ltb r.arena arena_max
                && ((page_address arena r.base_page_index == range.base_address)
                    && ((usable_base arena r == range.usable_base)
                        && ((r.total_pages == range.total_pages)
                            && ((r.usable_pages == range.usable_pages)
                                && ((r.guard_lower_pages == range.guard_lower_pages)
                                    && (r.guard_upper_pages == range.guard_upper_pages)))))))))

unfoldable pub find_record_by_id : Kva → Range → Option ℕ
find_record_by_id s range =
    if (range.record_id == 0) || ltb max_ranges range.record_id
    then none
    else if range.generation == 0
    then none
    else if is_record_of s range (record_at s (range.record_id - 1))
    then some (range.record_id - 1)
    else none

-- The pages a request comes to, with the guards against overflow.
unfoldable pub total_pages_of : ℕ → ℕ → ℕ → Result ℕ
total_pages_of usable guard_lower guard_upper =
    require (leb guard_lower (u64_mod - 1 - usable)) ec_out_of_resource
    >> require (leb guard_upper (u64_mod - 1 - (guard_lower + usable))) ec_out_of_resource
    >> ok (guard_lower + usable + guard_upper)

abbrev pub range_record : ℕ → ℕ → ℕ → ℕ → ℕ → ℕ → ℕ → ℕ → Bool → RangeRecord
range_record arena_type idx generation base total usable guard_lower guard_upper owns = record {
  in_use = true;
  owns_physical_backing = owns;
  arena = arena_type;
  record_id = idx + 1;
  generation = generation;
  base_page_index = base;
  total_pages = total;
  usable_pages = usable;
  guard_lower_pages = guard_lower;
  guard_upper_pages = guard_upper;
}

module _ (s : Kva) (arena_type : ℕ) (usable guard_lower guard_upper total : ℕ) (owns : Bool) where
  -- The writes of the allocator once it has a record, a hole and a generation.
  unfoldable pub commit_range : ℕ → ℕ → ℕ × ℕ → Kva × Range
  commit_range idx base (generation, counter) =
      let r =
        range_record arena_type idx generation base total usable guard_lower guard_upper owns in
      let marked = put_page_states s arena_type (
        mark_pages (layout_state guard_lower usable) base total
          (arena_at s arena_type).page_states) in
      (
        record (put_record marked idx r) { generation_counter = counter },
        fill_range (arena_at s arena_type) r,
      )

  -- With the hole found, a generation is drawn; none left fails.
  unfoldable pub alloc_in_hole : ℕ → Option ℕ → Result (Kva × Range)
  alloc_in_hole idx none = err ec_out_of_resource
  alloc_in_hole idx (some base) =
      if (next_range_generation s.generation_counter).0 == 0
      then err ec_out_of_resource
      else ok (commit_range idx base (next_range_generation s.generation_counter))

  -- The critical section: the first unused record, then the first hole.
  unfoldable pub alloc_with_record : Option ℕ → Result (Kva × Range)
  alloc_with_record none = err ec_out_of_resource
  alloc_with_record (some idx) = alloc_in_hole idx (
      first_hole (arena_at s arena_type).page_states total 0
        ((arena_at s arena_type).page_count + 1 - total))

-- The state is left as it was where the request fails.
unfoldable pub alloc_range : Kva → ℕ → ℕ → ℕ → ℕ → Bool → Result (Kva × Range)
alloc_range s arena_type usable guard_lower guard_upper owns =
    require s.initialized ec_invalid_state
    >> require (not (usable == 0)) ec_illegal_argument
    >> require (ltb arena_type arena_max) ec_illegal_argument
    >> (total_pages_of usable guard_lower guard_upper >>= λ total.
        require (not (total == 0) && leb total (arena_at s arena_type).page_count)
          ec_out_of_resource
        >> alloc_with_record s arena_type usable guard_lower guard_upper total owns
            (first_unused s))
