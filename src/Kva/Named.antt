-- ===== src/Kva/Named.antt =====
-- What a range handle names: the record in use that it was filled from.
use himu_os.Prelude.{ℕ, ◌+◌, ◌-◌, ◌<◌, ◌≡◌, refl, subst, true, false, ◌||◌, ◌==◌, ltb, some, arith}
use himu_os.Kva.State.{
  RangeRecord, Range, Kva, arena_at, record_at, fill_range, page_address, usable_base,
}
use himu_os.Kva.Range.{is_record_of, find_record_by_id}
use himu_os.Kva.Invariant.{IsKva}

module _ (s : Kva) (v : IsKva s) where
  is_record_of_sound :
      (range : Range) (r : RangeRecord)
      → is_record_of s range r ≡ true
      → r.record_id ≡ range.record_id
      → (r.in_use ≡ true) × (fill_range (arena_at s r.arena) r ≡ range)
  unfolding is_record_of fill_range
  is_record_of_sound range r e id =
      let used : r.in_use ≡ true = ground arith in
      let arena : r.arena ≡ range.arena = ground arith in
      let generation : r.generation ≡ range.generation = ground arith in
      let base : page_address (arena_at s r.arena) r.base_page_index ≡ range.base_address =
        ground arith in
      let usable : usable_base (arena_at s r.arena) r ≡ range.usable_base = ground arith in
      let total : r.total_pages ≡ range.total_pages = ground arith in
      let pages : r.usable_pages ≡ range.usable_pages = ground arith in
      let lower : r.guard_lower_pages ≡ range.guard_lower_pages = ground arith in
      let upper : r.guard_upper_pages ≡ range.guard_upper_pages = ground arith in
      let same : fill_range (arena_at s r.arena) r ≡ range = λ i. record {
        arena = arena i;
        record_id = id i;
        generation = generation i;
        base_address = base i;
        usable_base = usable i;
        total_pages = total i;
        usable_pages = pages i;
        guard_lower_pages = lower i;
        guard_upper_pages = upper i;
      } in
      (used, same)

  is_record_of-fill_range :
      (r : RangeRecord)
      → r.in_use ≡ true
      → r.arena < 3
      → is_record_of s (fill_range (arena_at s r.arena) r) r ≡ true
  unfolding is_record_of fill_range
  is_record_of-fill_range r used inside = ground arith

  -- The record that a handle names has every field that the handle was filled with.
  pub find_record_by_id_sound :
      (range : Range) (idx : ℕ)
      → find_record_by_id s range ≡ some idx
      → (idx < 512)
        × ((record_at s idx).in_use ≡ true)
        × (fill_range (arena_at s (record_at s idx).arena) (record_at s idx) ≡ range)
  unfolding find_record_by_id
  find_record_by_id_sound range idx e =
      let here : range.record_id ≡ idx + 1 = ground arith in
      let same : range.record_id - 1 ≡ idx = ground arith in
      let small : idx < 512 = ground arith in
      let test : is_record_of s range (record_at s (range.record_id - 1)) ≡ true = ground arith in
      let named =
        is_record_of_sound range (record_at s idx)
          (subst (λ i. is_record_of s range (record_at s i) ≡ true) same test)
          (omega (arith, v.numbered idx small)) in
      (small, named.0, named.1)

  found_by_id :
      (range : Range) (idx : ℕ)
      → idx < 512
      → range.record_id ≡ idx + 1
      → 0 < range.generation
      → is_record_of s range (record_at s idx) ≡ true
      → find_record_by_id s range ≡ some idx
  unfolding find_record_by_id
  found_by_id range idx at number pos test =
      let here : range.record_id - 1 ≡ idx = omega arith in
      let ids : ((range.record_id == 0) || ltb 512 range.record_id) ≡ false = ground arith in
      let old : (range.generation == 0) ≡ false = ground arith in rw (ids, old, here, test) refl

  -- A record in use is found by the handle filled from it.
  pub find_record_by_id-fill_range :
      (idx : ℕ)
      → idx < 512
      → (record_at s idx).in_use ≡ true
      → find_record_by_id s (fill_range (arena_at s (record_at s idx).arena) (record_at s idx))
        ≡ some idx
  unfolding fill_range
  find_record_by_id-fill_range idx at used =
      found_by_id (fill_range (arena_at s (record_at s idx).arena) (record_at s idx)) idx at
        (v.numbered idx at) (v.held idx used).4
        (is_record_of-fill_range (record_at s idx) used (v.held idx used).0)
