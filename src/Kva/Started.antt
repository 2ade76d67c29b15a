-- ===== src/Kva/Started.antt =====
-- What the initialisation establishes.
use himu_os.Prelude.{
  ℕ, zero, suc, ◌+◌, ◌*◌, ◌^◌, ◌≤◌, ◌<◌, ◌≡◌, ◌⊎◌, inl, inr, refl, subst, ap, true, false,
  Bool-cases, get_elem?, some, List, [], ◌∷◌, length, get_or, replicate, get_or-replicate, ok,
  Result-cases, add64, arith, ec_success,
}
use himu_os.Kva.State.{
  Arena, Kva, no_arena, arena_at, record_at, page_state, blank_record, page_address,
}
use himu_os.Kva.Machine.{Machine, IsUnmapped}
use himu_os.Kva.Query.{Region, overlaps_imported_regions}
use himu_os.Kva.Init.{
  Space, initial_arenas, check_unmapped, all_unmapped, validate_arena, validate_arenas,
  number_records, cleared, ready, init_validated, init,
}
use himu_os.Kva.Invariant.{IsKva}

number_records-length : (n idx : ℕ) → length (number_records n idx) ≡ n
unfolding number_records
number_records-length zero idx = refl
number_records-length (suc n) idx = ap suc (number_records-length n (suc idx))

number_records-record_id :
    (n idx i : ℕ)
    → i < n
    → (get_or (number_records n idx) i (blank_record 0)).record_id ≡ idx + i + 1
unfolding number_records
number_records-record_id zero idx i h = absurd (omega arith)
number_records-record_id (suc n) idx zero h = omega arith
number_records-record_id (suc n) idx (suc i) h =
    omega (arith, number_records-record_id n (suc idx) i (omega arith))

pub number_records-in_use :
    (n idx i : ℕ) → (get_or (number_records n idx) i (blank_record 0)).in_use ≡ false
unfolding number_records
number_records-in_use zero idx i = refl
number_records-in_use (suc n) idx zero = refl
number_records-in_use (suc n) idx (suc i) = number_records-in_use n (suc idx) i

replicate-length {ℓ} : {A : Type ℓ} (n : ℕ) (a : A) → length (replicate n a) ≡ n
replicate-length zero a = refl
replicate-length (suc n) a = ap suc (replicate-length n a)

-- The arenas as the initialisation leaves them: sizes that fit, and free pages.
IsSized : Arena → Type 0
IsSized a =
    (length a.page_states ≡ a.page_count)
    × (a.base_address + a.page_count * 4096 < 2 ^ 64)
    × (a.size_bytes ≡ a.page_count * 4096)
    × ((page : ℕ) → ◌≡◌ {A = ℕ} (get_or a.page_states page 0) 0)

fresh_arena-IsSized :
    (base pages : ℕ)
    → base + pages * 4096 < 2 ^ 64
    → IsSized (record {
      base_address = base;
      size_bytes = pages * 4096;
      page_count = pages;
      page_states = replicate pages 0;
    })
unfolding IsSized
fresh_arena-IsSized base pages fits =
    (replicate-length pages 0, fits, refl, λ page. get_or-replicate pages page 0)

initial_arenas-IsSized : (t : ℕ) → t < 3 → IsSized (get_or initial_arenas t no_arena)
initial_arenas-IsSized zero h = fresh_arena-IsSized 0xFFFF808000200000 8192 (omega arith)
initial_arenas-IsSized (suc zero) h = fresh_arena-IsSized 0xFFFF8FFFFFFC0000 64 (omega arith)
initial_arenas-IsSized (suc (suc zero)) h =
    fresh_arena-IsSized 0xFFFF808002200000 16384 (omega arith)
initial_arenas-IsSized (suc (suc (suc t))) h = absurd (omega arith)

pub ready-IsKva : (s : Kva) → IsKva (ready s)
unfolding ready IsSized
ready-IsKva s = record {
  arena_count = refl;
  record_count = number_records-length 512 0;
  sized = λ t h. (initial_arenas-IsSized t h).0;
  reach = λ t h. (initial_arenas-IsSized t h).1;
  size = λ t h. (initial_arenas-IsSized t h).2;
  held = λ i used. absurd (cc (used, number_records-in_use 512 0 i));
  apart = λ i j t page used. absurd (cc (used, number_records-in_use 512 0 i));
  owned = λ t page h. inl ((initial_arenas-IsSized t h).3 page);
  numbered = λ i h. omega (arith, number_records-record_id 512 0 i h);
}

-- A span of addresses meets none of the imported regions.
abbrev pub IsClear : List Region → ℕ → ℕ → Type 0
IsClear regions start end =
    (j : ℕ) (region : Region)
    → get_elem? regions j ≡ some region
    → (end ≤ region.virtual_start) ⊎ (region.virtual_end_exclusive ≤ start)

overlaps_imported_regions_sound :
    (regions : List Region) (start end : ℕ)
    → overlaps_imported_regions regions start end ≡ false
    → IsClear regions start end
unfolding overlaps_imported_regions
overlaps_imported_regions_sound [] start end e j region at = absurd (cc at)
overlaps_imported_regions_sound (r ∷ rs) start end e zero region at =
    let same : r ≡ region = cc at in
    subst (λ x. (end ≤ x.virtual_start) ⊎ (x.virtual_end_exclusive ≤ start)) same (ground arith)
overlaps_imported_regions_sound (r ∷ rs) start end e (suc j) region at =
    overlaps_imported_regions_sound rs start end (ground arith) j region at

module _ {M : Type 0} (os : Machine M) (m : M) (space : Space) where
  all_unmapped_sound :
      (a : Arena) (left page : ℕ)
      → all_unmapped os m space a left page ≡ ok tt
      → (k : ℕ) → k < left
      → IsUnmapped os m (page_address a (page + k))
  unfolding all_unmapped check_unmapped
  all_unmapped_sound a zero page e k h = absurd (omega arith)
  all_unmapped_sound a (suc left) page e k h =
      elim (Result-cases (os.query_page m (page_address a page))) [
        | inr (f, q) ↦ absurd (cc (rw q at e))
        | inl (mapping, q) ↦ elim (Bool-cases mapping.present) [
          | inl p ↦ absurd (cc (rw (q, p) at e))
          | inr p ↦
              each k h (mapping, q, p)
                (λ j hj. all_unmapped_sound a left (suc page) (rw (q, p) at e) j hj)
        ]
      ]
    where
      each :
          (k : ℕ)
          → k < suc left
          → IsUnmapped os m (page_address a page)
          → ((j : ℕ) → j < left → IsUnmapped os m (page_address a (suc page + j)))
          → IsUnmapped os m (page_address a (page + k))
      each zero h first rest = subst (λ x. IsUnmapped os m (page_address a x)) (omega arith) first
      each (suc k) h first rest =
          subst (λ x. IsUnmapped os m (page_address a x)) (omega arith) (rest k (omega arith))

  -- An arena that passes the validation before the start.
  abbrev pub IsVacant : Arena → Type 0
  IsVacant a =
      IsClear space.regions a.base_address (add64 a.base_address a.size_bytes)
      × ((page : ℕ) → page < a.page_count → IsUnmapped os m (page_address a page))

  validate_arena_sound : (a : Arena) → validate_arena os m space true a ≡ ok tt → IsVacant a
  unfolding validate_arena
  validate_arena_sound a e =
      let clear : overlaps_imported_regions space.regions a.base_address
            (add64 a.base_address a.size_bytes)
          ≡ false =
        ground arith in
      let scanned : all_unmapped os m space a a.page_count 0 ≡ ok tt = ground arith in
      (
        overlaps_imported_regions_sound space.regions a.base_address
            (add64 a.base_address a.size_bytes) clear,
        λ page h.
            subst (λ x. IsUnmapped os m (page_address a x)) (omega arith)
              (all_unmapped_sound a a.page_count 0 scanned page h),
      )

  validate_arenas_sound :
      (arenas : List Arena)
      → validate_arenas os m space true arenas ≡ ok tt
      → (t : ℕ) → t < length arenas
      → IsVacant (get_or arenas t no_arena)
  unfolding validate_arenas
  validate_arenas_sound [] e t h = absurd (omega arith)
  validate_arenas_sound (a ∷ rest) e zero h = validate_arena_sound a (ground arith)
  validate_arenas_sound (a ∷ rest) e (suc t) h =
      validate_arenas_sound rest (ground arith) t (omega arith)

  -- A start that leaves the allocator initialised succeeded: the arenas meet no imported region, none
  -- of their pages is mapped, every page is free, no range is in use, and the invariant holds.
  pub init-IsStarted :
      (s : Kva)
      → s.initialized ≡ false
      → (init os m space s).0.initialized ≡ true
      → ((init os m space s).1 ≡ ec_success)
        × IsKva (init os m space s).0
        × ((t : ℕ) → t < 3 → IsVacant (arena_at (init os m space s).0 t))
        × ((t page : ℕ) → t < 3 → ◌≡◌ {A = ℕ} (page_state (init os m space s).0 t page) 0)
        × ((i : ℕ) → (record_at (init os m space s).0 i).in_use ≡ false)
  unfolding init init_validated ready cleared IsSized
  init-IsStarted s off on = elim (Result-cases (validate_arenas os m space true initial_arenas)) [
    | inr (f, q) ↦ absurd (cc (off, simp q at on))
    | inl (u, q) ↦
        simp (off, q)
          (
            refl,
            ready-IsKva s,
            λ t h. validate_arenas_sound initial_arenas q t h,
            λ t page h. (initial_arenas-IsSized t h).3 page,
            λ i. number_records-in_use 512 0 i,
          )
  ]
