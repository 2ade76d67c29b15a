-- ===== src/Kva/Freed.antt =====
-- What a release does, from a handle or from an address, when it is done.
use himu_os.Prelude.{
  ℕ, ◌+◌, ◌-◌, ◌^◌, ◌≤◌, ◌<◌, ◌≡◌, ◌≢◌, ◌⊎◌, leb, get_or, inl, inr, refl, subst, true, false, ◌==◌,
  ltb, Bool-cases, Option, none, some, add64, mul64, arith, ec_invalid_state,
}
use himu_os.Kva.State.{
  RangeRecord, Range, Kva, arena_at, record_at, fill_range, blank_record, usable_base,
}
use himu_os.Kva.Range.{find_record_by_id}
use himu_os.Kva.Machine.{Machine, IsUnmapped, IsMachine}
use himu_os.Kva.Release.{
  Teardown, released, refused, panicked, then_released, teardown, released_page_state,
  is_slot_retired, retire_record, release_record, release_found, release_range_handle,
}
use himu_os.Kva.Invariant.{IsKva, Paints, Records}
use himu_os.Kva.Found.{mark_pages-Paints, set-Records}
use himu_os.Kva.Vacate.{given-IsKva}
use himu_os.Kva.Named.{find_record_by_id_sound, find_record_by_id-fill_range}
use himu_os.Kva.TornDown.{TearsDown, WhenDone, teardown-TearsDown}
use himu_os.Kva.Teardown.{IsGone, teardown-IsGone}

-- The pages of a record get the state that the release gives them and the record is cleared.
abbrev pub Vacated : Kva → ℕ → Kva → Type 0
Vacated s idx s' =
    Paints s s' (record_at s idx).arena (record_at s idx).base_page_index
      (record_at s idx).total_pages (λ k. released_page_state s (record_at s idx))
    × Records s s' idx (blank_record (idx + 1))
    × IsKva s'

module _ (s : Kva) (v : IsKva s) (idx : ℕ) (at : idx < 512)
    (used : (record_at s idx).in_use ≡ true) where
  -- Pages are given back free, or retired.
  dead :
      (◌≡◌ {A = ℕ} (released_page_state s (record_at s idx)) 0)
      ⊎ (◌≡◌ {A = ℕ} (released_page_state s (record_at s idx)) 3)
  unfolding released_page_state
  dead = ground arith

  pub retire_record-Vacated : Vacated s idx (retire_record s idx)
  unfolding retire_record
  retire_record-Vacated =
      let r = record_at s idx in
      let s' = retire_record s idx in
      let h = v.held idx used in
      let p : Paints s s' r.arena r.base_page_index r.total_pages (λ k. released_page_state s r) =
        mark_pages-Paints s s' r.arena r.base_page_index r.total_pages
          (λ k. released_page_state s r) (omega (arith, v.arena_count, h.0))
          (omega (arith, h.1, v.sized r.arena h.0)) refl in
      let w : Records s s' idx (blank_record (idx + 1)) =
        set-Records s s' idx (blank_record (idx + 1)) (omega (arith, v.record_count)) refl in
      (p, w, given-IsKva s s' idx (released_page_state s r) v used w at p dead)

-- The state of the pages that a record leaves: retired (3) for the single page of a record of the fixmap
-- whose slot has used up its generations, and otherwise free (0).
abbrev pub IsLeft : Kva → RangeRecord → ℕ → Type 0
IsLeft s r state =
    ((r.arena ≡ 1)
      × (r.total_pages ≡ 1)
      × (r.base_page_index < 64)
      × (2 ^ 58 - 1 ≤ get_or s.slot_generations r.base_page_index 0)
      × (state ≡ 3))
    ⊎ (((r.arena ≢ 1)
          ⊎ ((r.total_pages ≢ 1)
              ⊎ ((64 ≤ r.base_page_index)
                  ⊎ (get_or s.slot_generations r.base_page_index 0 < 2 ^ 58 - 1))))
        × (state ≡ 0))

released_page_state-IsLeft : (s : Kva) (r : RangeRecord) → IsLeft s r (released_page_state s r)
unfolding released_page_state is_slot_retired
released_page_state-IsLeft s r = elim (Bool-cases (r.arena == 1)) [
  | inr a ↦ rw a (inr (inl (ground (arith, a)), refl))
  | inl a ↦ elim (Bool-cases (r.total_pages == 1)) [
    | inr t ↦ rw (a, t) (inr (inr (inl (ground (arith, t))), refl))
    | inl t ↦ elim (Bool-cases (ltb r.base_page_index 64)) [
      | inr b ↦ rw (a, t, b) (inr (inr (inr (inl (ground (arith, b)))), refl))
      | inl b ↦
          elim (Bool-cases (leb (2 ^ 58 - 1) (get_or s.slot_generations r.base_page_index 0))) [
            | inr g ↦ rw (a, t, b, g) (inr (inr (inr (inr (ground (arith, g)))), refl))
            | inl g ↦
                rw (a, t, b, g)
                  (inl (
                    ground (arith, a),
                    ground (arith, t),
                    ground (arith, b),
                    ground (arith, g),
                    refl,
                  ))
          ]
    ]
  ]
]

-- The address of the first usable page of record `idx`, and of the page `k` pages after it.
abbrev pub usable_page : Kva → ℕ → ℕ → ℕ
usable_page s idx k =
    add64 (usable_base (arena_at s (record_at s idx).arena) (record_at s idx)) (mul64 k 4096)

-- A release that is done: every page of the record got the one state it leaves, the record is cleared,
-- no other page or record changed and the invariant holds; the usable pages were unmapped, one after
-- the other, with the pages behind them given back where the record owns them, and none is mapped.
abbrev pub Freed : {M : Type 0} → Machine M → Kva → M → ℕ → Teardown (Kva × M) → Type 0
Freed os s m idx (released (s', m')) =
    ((state : ℕ) × IsLeft s (record_at s idx) state
      × Paints s s' (record_at s idx).arena (record_at s idx).base_page_index
          (record_at s idx).total_pages (λ k. state))
    × Records s s' idx (blank_record (idx + 1))
    × IsKva s'
    × TearsDown os (record_at s idx).owns_physical_backing
        (usable_base (arena_at s (record_at s idx).arena) (record_at s idx))
        (record_at s idx).usable_pages 0 m m'
    × ((k : ℕ) → k < (record_at s idx).usable_pages → IsUnmapped os m' (usable_page s idx k))
Freed os s m idx (refused e) = Unit {0}
Freed os s m idx (panicked e) = Unit {0}

module _ {M : Type 0} (os : Machine M) (laws : IsMachine os) (s : Kva) (m : M) (v : IsKva s)
    (idx : ℕ) (at : idx < 512) (used : (record_at s idx).in_use ≡ true) where
  pub release_record-Freed : Freed os s m idx (release_record os s m idx)
  unfolding release_record
  release_record-Freed =
      let r = record_at s idx in
      let base = usable_base (arena_at s r.arena) r in
      finish _
        (λ k h.
          subst
            (λ x.
              IsGone os (add64 base (mul64 x 4096))
                (teardown os r.owns_physical_backing base r.usable_pages 0 false m))
            (omega arith)
            (teardown-IsGone os laws r.owns_physical_backing base r.usable_pages 0 false m k h))
        (teardown-TearsDown os r.owns_physical_backing base r.usable_pages 0 false m)
    where
      finish :
          (r : Teardown M)
          → ((k : ℕ) → k < (record_at s idx).usable_pages → IsGone os (usable_page s idx k) r)
          → WhenDone
              (TearsDown os
                (record_at s idx).owns_physical_backing
                (usable_base (arena_at s (record_at s idx).arena) (record_at s idx))
                (record_at s idx).usable_pages
                0
                m)
              r
          → Freed os s m idx (then_released (λ m'. (retire_record s idx, m')) r)
      finish (released m') gone torn =
          let (paints, records, valid) = retire_record-Vacated s v idx at used in
          (
            (
              released_page_state s (record_at s idx),
              released_page_state-IsLeft s (record_at s idx),
              paints,
            ),
            records,
            valid,
            torn,
            gone,
          )
      finish (refused e) gone torn = tt
      finish (panicked e) gone torn = tt

-- A release by handle, on every branch: what the handle names, and what is refused.
abbrev pub IsNamed : Kva → Range → ℕ → Type 0
IsNamed s range idx =
    (idx < 512)
    × ((record_at s idx).in_use ≡ true)
    × (fill_range (arena_at s (record_at s idx).arena) (record_at s idx) ≡ range)

abbrev pub Handled : {M : Type 0} → Machine M → Kva → M → Range → Teardown (Kva × M) → Type 0
Handled os s m range r =
    ((idx : ℕ) × IsNamed s range idx × (r ≡ release_record os s m idx) × Freed os s m idx r)
    ⊎ ((r ≡ refused ec_invalid_state)
        × ((s.initialized ≡ false) ⊎ ((idx : ℕ) → ¬ IsNamed s range idx)))

module _ {M : Type 0} (os : Machine M) (laws : IsMachine os) (s : Kva) (m : M) (v : IsKva s) where
  release_found-Handled :
      (range : Range) (o : Option ℕ)
      → find_record_by_id s range ≡ o
      → Handled os s m range (release_found os s m o)
  unfolding release_found
  release_found-Handled range none e = inr (
    refl,
    inr (λ idx (at, used, filled). cc (
      e,
      subst (λ q. find_record_by_id s q ≡ some idx) filled
          (find_record_by_id-fill_range s v idx at used),
    )),
  )
  release_found-Handled range (some idx) e =
      let named = find_record_by_id_sound s v range idx e in
      let arena : ltb (record_at s idx).arena 3 ≡ true = ground (arith, (v.held idx named.1).0) in
      rw arena (inl (idx, named, refl, release_record-Freed os laws s m v idx named.0 named.1))

  -- A release by handle, where its teardown is done, clears the record that the handle was filled from
  -- and makes all its pages free, or retires the page of a fixmap slot whose generations are used up;
  -- the usable pages are unmapped, and the physical pages behind them given back where the record owns
  -- them, and only there; none of them is mapped then. A handle that no record in use has is refused
  -- with EC_INVALID_STATE, as is every handle before the initialisation.
  pub release_range_handle-Handled :
      (range : Range) → Handled os s m range (release_range_handle os s m range)
  unfolding release_range_handle
  release_range_handle-Handled range = elim (Bool-cases s.initialized) [
    | inr e ↦ simp e (inr (refl, inl refl))
    | inl e ↦ simp e (elim (release_found-Handled range (find_record_by_id s range) refl) [
      | inl done ↦ inl done
      | inr (q, inl off) ↦ absurd (cc (e, off))
      | inr (q, inr unnamed) ↦ inr (q, inr unnamed)
    ])
  ]
