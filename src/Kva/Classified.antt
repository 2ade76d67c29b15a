-- ===== src/Kva/Classified.antt =====
-- `classify_address` against what the address is: outside, a free hole, a guard or allocated page of
-- a record, or a retired page.
use himu_os.Prelude.{
  ℕ, zero, suc, ◌+◌, ◌-◌, ◌*◌, ◌/◌, ◌^◌, ◌≤◌, ◌<◌, ◌≡◌, ◌⊎◌, ◌↔◌, inl, inr, refl, sym, subst, ap,
  Bool, true, false, ◌&&◌, ◌||◌, ◌==◌, leb, ltb, Bool-cases, Option, none, some, arith, Status,
  ec_success, ec_invalid_state, ok, add64, mul64,
}
use himu_os.Kva.State.{Kva, arena_at, record_at, page_state, fill_range}
use himu_os.Kva.Range.{covers_address, find_record, find_record_by_address}
use himu_os.Kva.Query.{
  AddressInfo, AddressKind, address_active_stack, address_active_fixmap, address_active_heap,
  address_outside, address_free_hole, address_guard_page, address_unknown, address_kind_from_arena,
  kind_of_state, is_unknown, locate_arena, locate_arena_by_address, classify_page, classify_place,
  classify_address,
}
use himu_os.Kva.Invariant.{InSpan, IsKva, span-live}
use himu_os.Kva.Found.{FirstFound, find_record-FirstFound, find_record-only}

-- The arena and the page of an address, or that it has none.
abbrev pub IsPlace : Kva → ℕ → Option (ℕ × ℕ) → Type 0
IsPlace s address none =
    (t : ℕ)
    → t < 3
    → (address < (arena_at s t).base_address)
      ⊎ ((arena_at s t).base_address + (arena_at s t).page_count * 4096 ≤ address)
IsPlace s address (some (t, page)) =
    (t < 3)
    × ((arena_at s t).base_address ≤ address)
    × (address < (arena_at s t).base_address + (arena_at s t).page_count * 4096)
    × (page ≡ (address - (arena_at s t).base_address) / 4096)

-- The comparison of an address with the ends of a run of pages, in 64 bits.
abbrev in_run : ℕ → ℕ → ℕ → ℕ → Bool
in_run base first total address =
    leb (add64 base (mul64 first 4096)) address
    && ltb address (add64 (add64 base (mul64 first 4096)) (mul64 total 4096))

in_run_iff :
    (base count first total address page : ℕ)
    → first + total ≤ count
    → base + count * 4096 < 2 ^ 64
    → base ≤ address
    → address < base + count * 4096
    → page ≡ (address - base) / 4096
    → (in_run base first total address ≡ true) ↔ ((first ≤ page) × (page < first + total))
in_run_iff base count first total address page fits reach lo hi at =
    let start : add64 base (mul64 first 4096) ≡ base + first * 4096 = omega arith in
    let end : add64 (base + first * 4096) (mul64 total 4096) ≡ base + (first + total) * 4096 =
      omega arith in
    rw (start, end) (λ e. (ground arith, ground arith), λ h. ground (arith, h))

module _ (s : Kva) (v : IsKva s) (address : ℕ) where
  locate_arena-IsPlace :
      (left idx : ℕ)
      → idx + left ≡ 3
      → ((t : ℕ)
          → t < idx
          → (address < (arena_at s t).base_address)
            ⊎ ((arena_at s t).base_address + (arena_at s t).page_count * 4096 ≤ address))
      → IsPlace s address (locate_arena s address left idx)
  unfolding locate_arena
  locate_arena-IsPlace zero idx e passed = λ t h. passed t (omega arith)
  locate_arena-IsPlace (suc left) idx e passed =
      let fits = v.reach idx (omega arith) in
      let size = v.size idx (omega arith) in
      elim (Bool-cases (
        ltb address (arena_at s idx).base_address
        || leb (add64 (arena_at s idx).base_address (arena_at s idx).size_bytes) address)) [
          | inr inside ↦ rw inside (omega arith, ground arith, ground arith, refl)
          | inl out ↦ rw out (
              locate_arena-IsPlace left (suc idx) (omega arith) (λ t h.
                elim (Bool-cases (t == idx)) [
                  | inl q ↦ let same : t ≡ idx = ground arith in rw same (ground arith)
                  | inr q ↦ passed t (ground arith)
                ]))
        ]

  module _ (t page : ℕ) (place : IsPlace s address (some (t, page))) where
    record_run :
        (i : ℕ)
        → (record_at s i).in_use ≡ true
        → (record_at s i).arena ≡ t
        → (in_run
              (arena_at s (record_at s i).arena).base_address
              (record_at s i).base_page_index
              (record_at s i).total_pages
              address
            ≡ true)
          ↔ (((record_at s i).base_page_index ≤ page)
              × (page < (record_at s i).base_page_index + (record_at s i).total_pages))
    record_run i used arena =
        let r = record_at s i in
        let h = v.held i used in
        in_run_iff (arena_at s r.arena).base_address (arena_at s r.arena).page_count
          r.base_page_index r.total_pages address page h.1 (v.reach r.arena h.0)
          (subst (λ u. (arena_at s u).base_address ≤ address) (sym arena) place.1)
          (subst (λ u. address < (arena_at s u).base_address + (arena_at s u).page_count * 4096)
            (sym arena) place.2)
          (subst (λ u. page ≡ (address - (arena_at s u).base_address) / 4096) (sym arena) place.3)

    -- A record covers the address where its span has the page.
    covers_address-InSpan :
        (i : ℕ)
        → (record_at s i).in_use ≡ true
        → InSpan (record_at s i) t page
        → covers_address s t address (record_at s i) ≡ true
    unfolding covers_address
    covers_address-InSpan i used (arena, lo, hi) =
        let r = record_at s i in
        let run : in_run (arena_at s r.arena).base_address r.base_page_index r.total_pages address
            ≡ true =
          (record_run i used arena).1 (lo, hi) in
        let same : (r.arena == t) ≡ true = ground arith in
        let inside : ltb r.arena 3 ≡ true = ground (arith, (v.held i used).0) in
        rw (used, same, inside) run

    covers_address_sound :
        (i : ℕ)
        → covers_address s t address (record_at s i) ≡ true
        → ((record_at s i).in_use ≡ true) × InSpan (record_at s i) t page
    unfolding covers_address
    covers_address_sound i e =
        let r = record_at s i in
        let used : r.in_use ≡ true = ground (arith, e) in
        let arena : r.arena ≡ t = ground (arith, e) in
        let run : in_run (arena_at s r.arena).base_address r.base_page_index r.total_pages address
            ≡ true =
          ground (arith, e) in
        let span = (record_run i used arena).0 run in (used, (arena, span.0, span.1))

    -- The record whose span has the page is the one found.
    found-InSpan :
        (i : ℕ)
        → i < 512
        → (record_at s i).in_use ≡ true
        → InSpan (record_at s i) t page
        → find_record_by_address s t address ≡ some i
    unfolding find_record_by_address
    found-InSpan i h used span =
        find_record-only (covers_address s t address) s.ranges i (omega (arith, v.record_count))
          (covers_address-InSpan i used span)
          (λ j hj e.
            let other = covers_address_sound j e in v.apart j i t page other.0 used other.1 span)

    found-none :
        ((i : ℕ) → (record_at s i).in_use ≡ true → ¬ InSpan (record_at s i) t page)
        → find_record_by_address s t address ≡ none
    unfolding find_record_by_address
    found-none free =
        nothing (find_record (covers_address s t address) s.ranges 0)
          (find_record-FirstFound (covers_address s t address) s.ranges 0)
      where
        nothing : (o : Option ℕ) → FirstFound (covers_address s t address) s.ranges 0 o → o ≡ none
        nothing none all = refl
        nothing (some i) (k, h, at, e, first) =
            let found = covers_address_sound k e in absurd (free k found.0 found.1)

-- The kind of an active address in each arena: the stacks, the fixmap and the heap.
abbrev IsActive : ℕ → AddressKind → Type 0
IsActive t kind =
    ((t ≡ 0) × (kind ≡ address_active_stack))
    ⊎ (((t ≡ 1) × (kind ≡ address_active_fixmap)) ⊎ ((t ≡ 2) × (kind ≡ address_active_heap)))

address_kind_from_arena-IsActive : (t : ℕ) → t < 3 → IsActive t (address_kind_from_arena t)
unfolding address_kind_from_arena
address_kind_from_arena-IsActive zero h = inl (refl, refl)
address_kind_from_arena-IsActive (suc zero) h = inr (inl (refl, refl))
address_kind_from_arena-IsActive (suc (suc zero)) h = inr (inr (refl, refl))
address_kind_from_arena-IsActive (suc (suc (suc t))) h = absurd (omega arith)

-- What the address is, by the state of its page.
abbrev pub OfRecord : Kva → ℕ → ℕ → AddressKind → Status × AddressInfo → Type 0
OfRecord s t page kind (status, info) =
    (i : ℕ) × (i < 512)
    × ((record_at s i).in_use ≡ true)
    × InSpan (record_at s i) t page
    × (status ≡ ec_success)
    × (info.kind ≡ kind)
    × (info.range ≡ some (fill_range (arena_at s t) (record_at s i)))

abbrev pub IsClass : Kva → ℕ → Option (ℕ × ℕ) → Status × AddressInfo → Type 0
IsClass s address none (status, info) =
    (status ≡ ec_success) × (info.kind ≡ address_outside) × (info.range ≡ none)
IsClass s address (some (t, page)) (status, info) =
    (info.place ≡ some (t, page))
    × (((◌≡◌ {A = ℕ} (page_state s t page) 0)
          × (status ≡ ec_success)
          × (info.kind ≡ address_free_hole)
          × (info.range ≡ none))
        ⊎ (((◌≡◌ {A = ℕ} (page_state s t page) 1)
              × (kind : AddressKind) × IsActive t kind
              × OfRecord s t page kind (status, info))
            ⊎ (((◌≡◌ {A = ℕ} (page_state s t page) 2)
                  × OfRecord s t page address_guard_page (status, info))
                ⊎ ((◌≡◌ {A = ℕ} (page_state s t page) 3)
                    × (status ≡ ec_invalid_state)
                    × (info.kind ≡ address_unknown)
                    × (info.range ≡ none)))))

-- Every arena has a kind.
known_arena : (t : ℕ) → t < 3 → is_unknown (address_kind_from_arena t) ≡ false
unfolding is_unknown address_kind_from_arena
known_arena zero h = refl
known_arena (suc zero) h = refl
known_arena (suc (suc zero)) h = refl
known_arena (suc (suc (suc t))) h = absurd (omega arith)

module _ (s : Kva) (v : IsKva s) (address : ℕ) where
  classify_place-IsClass :
      (o : Option (ℕ × ℕ)) → IsPlace s address o → IsClass s address o (classify_place s address o)
  unfolding classify_place classify_page kind_of_state is_unknown
  classify_place-IsClass none place = (refl, refl, refl)
  classify_place-IsClass (some (t, page)) place = elim (v.owned t page place.0) [
    | inl e ↦ rw e (refl, inl (refl, refl, refl, refl))
    | inr (inl e) ↦
        let nothing : find_record_by_address s t address ≡ none =
          found-none s v address t page place
            (λ i used span. omega (arith, e, span-live s v i t page used span)) in
        rw (e, nothing, classify_page, e) (refl, inr (inr (inr (refl, refl, refl, refl))))
    | inr (inr (i, h, used, span)) ↦
        let found = found-InSpan s v address t page place i h used span in
        let arena : fill_range (arena_at s (record_at s i).arena) (record_at s i)
            ≡ fill_range (arena_at s t) (record_at s i) =
          ap (λ u. fill_range (arena_at s u) (record_at s i)) span.0 in
        elim (span-live s v i t page used span) [
          | inl e ↦
              rw (e, found, classify_page, e, known_arena t place.0)
                (
                  refl,
                  inr (
                      inl (
                        refl,
                        address_kind_from_arena t,
                        address_kind_from_arena-IsActive t place.0,
                        (i, h, used, span, refl, refl, ap some arena),
                      )),
                )
          | inr e ↦
              rw (e, found, classify_page, e)
                (refl, inr (inr (inl (refl, (i, h, used, span, refl, refl, ap some arena)))))
        ]
  ]

  -- Once the allocator is initialized, an address is outside the arenas, in a free hole, on an
  -- allocated or a guard page of a record in use whose span has it, which is then returned, or on a
  -- retired page, the one case that EC_INVALID_STATE reports. An allocated page of arena 0 is of a
  -- stack, of arena 1 of the fixmap, of arena 2 of the heap.
  pub classify_address-IsClass :
      s.initialized ≡ true
      → (o : Option (ℕ × ℕ)) × IsPlace s address o
        × (r : Status × AddressInfo) × (classify_address s address ≡ ok r)
        × IsClass s address o r
  unfolding classify_address locate_arena_by_address
  classify_address-IsClass on =
      let place = locate_arena-IsPlace s v address 3 0 refl (λ t h. absurd (omega arith)) in
      (
        locate_arena s address 3 0,
        place,
        classify_place s address (locate_arena s address 3 0),
        rw on refl,
        classify_place-IsClass (locate_arena s address 3 0) place,
      )
