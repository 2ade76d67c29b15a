-- ===== src/Kva/Alloc.antt =====
-- `alloc_range` against its contract, on every branch.
use himu_os.Prelude.{
  ℕ, ◌+◌, ◌-◌, ◌^◌, ◌≤◌, ◌<◌, ◌≡◌, ◌⊎◌, inl, inr, refl, sym, ◌∙◌, ap, Bool, true, false, not, ◌&&◌,
  ◌==◌, leb, ltb, if◌then◌else◌, ◌%◌, Bool-cases, Option, none, some, Result, ok, err, ◌>>=◌, ◌>>◌,
  require, ec_invalid_state, ec_illegal_argument, ec_out_of_resource, arith,
}
use himu_os.Kva.State.{
  page_state, page_guard, page_alloc, Range, Kva, arena_at, record_at, fill_range,
}
use himu_os.Kva.Arena.{layout_state}
use himu_os.Kva.Range.{
  next_range_generation, is_unused, first_unused, range_record, total_pages_of, commit_range,
  alloc_in_hole, alloc_with_record, alloc_range,
}
use himu_os.Kva.Marks.{AllFree, LeastHole, first_hole-LeastHole}
use himu_os.Kva.Invariant.{Holds, IsKva, Paints, Records}
use himu_os.Kva.Found.{FirstFound, find_record-FirstFound, mark_pages-Paints, set-Records}
use himu_os.Kva.Occupy.{taken-IsKva}

-- The counter after a draw: it stops at 0 past the last generation.
abbrev pub counter_after : ℕ → ℕ
counter_after c = if c == 2 ^ 64 - 1 then 0 else (c + 1) % 2 ^ 64

-- Guards, then the usable pages, then guards.
abbrev pub IsLaidOut : Kva → ℕ → ℕ → ℕ → ℕ → ℕ → Type 0
IsLaidOut s t base us gl gu =
    ((k : ℕ) → k < gl → page_state s t (base + k) ≡ page_guard)
    × ((k : ℕ) → k < us → page_state s t (base + (gl + k)) ≡ page_alloc)
    × ((k : ℕ) → k < gu → page_state s t (base + (gl + us + k)) ≡ page_guard)

-- The first record not in use and the lowest run of free pages, which become the range's.
abbrev pub Granted : Kva → ℕ → ℕ → ℕ → ℕ → Bool → Kva → Range → Type 0
Granted s t us gl gu owns s' range =
    (idx : ℕ) × (base : ℕ) × (idx < 512)
    × ((record_at s idx).in_use ≡ false)
    × ((j : ℕ) → j < idx → (record_at s j).in_use ≡ true)
    × (base + (gl + us + gu) ≤ (arena_at s t).page_count)
    × AllFree (arena_at s t).page_states base (gl + us + gu)
    × ((b : ℕ) → b < base → ¬ AllFree (arena_at s t).page_states b (gl + us + gu))
    × Paints s s' t base (gl + us + gu) (layout_state gl us)
    × Records s s' idx (range_record t idx s.generation_counter base (gl + us + gu) us gl gu owns)
    × (range ≡ fill_range (arena_at s t) (record_at s' idx))
    × IsKva s'
    × (0 < s.generation_counter)
    × (s'.generation_counter ≡ counter_after s.generation_counter)
    × (s'.slot_generations ≡ s.slot_generations)
    × (s'.initialized ≡ s.initialized)
    × IsLaidOut s' t base us gl gu

-- The resources that may be short.
abbrev pub NoRoom : Kva → ℕ → ℕ → Type 0
NoRoom s t total =
    ((j : ℕ) → j < 512 → (record_at s j).in_use ≡ true)
    ⊎ (((b : ℕ)
          → b + total ≤ (arena_at s t).page_count
          → ¬ AllFree (arena_at s t).page_states b total)
        ⊎ (◌≡◌ {A = ℕ} s.generation_counter 0))

abbrev pub Allocated : Kva → ℕ → ℕ → ℕ → ℕ → Bool → Result (Kva × Range) → Type 0
Allocated s t us gl gu owns (ok (s', range)) = Granted s t us gl gu owns s' range
Allocated s t us gl gu owns (err e) =
    ((e ≡ ec_invalid_state) × (s.initialized ≡ false))
    ⊎ (((e ≡ ec_illegal_argument) × ((◌≡◌ {A = ℕ} us 0) ⊎ (3 ≤ t)))
        ⊎ ((e ≡ ec_out_of_resource) × NoRoom s t (gl + us + gu)))

next_range_generation_lem : (c : ℕ) → 0 < c → next_range_generation c ≡ (c, counter_after c)
unfolding next_range_generation
next_range_generation_lem c pos = ground arith

exhausted : (c : ℕ) → ◌≡◌ {A = ℕ} c 0 → ((next_range_generation c).0 == 0) ≡ true
unfolding next_range_generation
exhausted c e = ground arith

Paints-IsLaidOut :
    (s s' : Kva) (t base us gl gu : ℕ)
    → Paints s s' t base (gl + us + gu) (layout_state gl us)
    → IsLaidOut s' t base us gl gu
unfolding layout_state
Paints-IsLaidOut s s' t base us gl gu p = (
  λ k h. p.inside k (omega arith) ∙ ground arith,
  λ k h. p.inside (gl + k) (omega arith) ∙ ground arith,
  λ k h. p.inside (gl + us + k) (omega arith) ∙ ground arith,
)

module _ (s : Kva) (t us gl gu : ℕ) (owns : Bool) (v : IsKva s) (is_arena : t < 3)
    (some_pages : 0 < us) where
  module _ (idx : ℕ) (at : idx < 512) (unused : (record_at s idx).in_use ≡ false)
      (first : (j : ℕ) → j < idx → (record_at s j).in_use ≡ true) where
    commit-Granted :
        (base : ℕ)
        → 0 < s.generation_counter
        → base + (gl + us + gu) ≤ (arena_at s t).page_count
        → AllFree (arena_at s t).page_states base (gl + us + gu)
        → ((b : ℕ) → b < base → ¬ AllFree (arena_at s t).page_states b (gl + us + gu))
        → Allocated s t us gl gu owns (
            ok (
              commit_range s t us gl gu
                (gl + us + gu)
                owns
                idx
                base
                (s.generation_counter, counter_after s.generation_counter)))
    unfolding commit_range
    commit-Granted base pos fits free least =
        let r = range_record t idx s.generation_counter base (gl + us + gu) us gl gu owns in
        let s' =
          (commit_range s t us gl gu (gl + us + gu) owns idx base
            (s.generation_counter, counter_after s.generation_counter)).0 in
        let p : Paints s s' t base (gl + us + gu) (layout_state gl us) =
          mark_pages-Paints s s' t base (gl + us + gu) (layout_state gl us)
            (omega (arith, v.arena_count)) (omega (arith, v.sized t is_arena)) refl in
        let w : Records s s' idx r = set-Records s s' idx r (omega (arith, v.record_count)) refl in
        let new : Holds s' r = (is_arena, rw (p.counts t) fits, refl, some_pages, pos, p.inside) in
        (
          idx,
          base,
          at,
          unused,
          first,
          fits,
          free,
          least,
          p,
          w,
          ap (fill_range (arena_at s t)) (sym w.written),
          taken-IsKva s s' idx r v w at p refl new free unused refl,
          pos,
          refl,
          refl,
          refl,
          Paints-IsLaidOut s s' t base us gl gu p,
        )

    -- The draw of the generation.
    alloc_in_hole-Allocated :
        (hole : Option ℕ)
        → gl + us + gu ≤ (arena_at s t).page_count
        → LeastHole
            (arena_at s t).page_states
            (gl + us + gu)
            0
            ((arena_at s t).page_count + 1 - (gl + us + gu))
            hole
        → Allocated s t us gl gu owns (alloc_in_hole s t us gl gu (gl + us + gu) owns idx hole)
    unfolding alloc_in_hole
    alloc_in_hole-Allocated none small all =
        inr (inr (refl, inr (inl (λ b fits. all b (omega arith) (omega arith)))))
    alloc_in_hole-Allocated (some base) small (lo, hi, free, least) =
        elim (Bool-cases (s.generation_counter == 0)) [
          | inl e ↦
              let none_left : ((next_range_generation s.generation_counter).0 == 0) ≡ true =
                exhausted s.generation_counter (ground arith) in
              rw none_left (inr (inr (refl, inr (inr (ground arith)))))
          | inr e ↦
              let drawn : next_range_generation s.generation_counter
                  ≡ (s.generation_counter, counter_after s.generation_counter) =
                next_range_generation_lem s.generation_counter (ground arith) in
              rw (drawn, e)
                (commit-Granted base (ground arith) (omega arith) free
                  (λ b below. least b (omega arith) below))
        ]

  alloc_with_record-Allocated :
      (o : Option ℕ)
      → gl + us + gu ≤ (arena_at s t).page_count
      → FirstFound is_unused s.ranges 0 o
      → Allocated s t us gl gu owns (alloc_with_record s t us gl gu (gl + us + gu) owns o)
  unfolding alloc_with_record is_unused
  alloc_with_record-Allocated none small all =
      inr (inr (refl, inl (λ j h. ground (arith, all j (rw v.record_count h)))))
  alloc_with_record-Allocated (some idx) small (k, h, here, unused, first) =
      let same : idx ≡ k = omega arith in
      rw same (
        alloc_in_hole-Allocated k (omega (arith, v.record_count)) (ground (arith, unused))
          (λ j below. ground (arith, first j below)) _ small
          (first_hole-LeastHole (arena_at s t).page_states (gl + us + gu)
            ((arena_at s t).page_count + 1 - (gl + us + gu)) 0))

-- The request once its arguments are accepted.
sized_request :
    (s : Kva) (t us gl gu : ℕ) (owns : Bool)
    → IsKva s
    → t < 3
    → 0 < us
    → us < 2 ^ 64
    → gl < 2 ^ 64
    → gu < 2 ^ 64
    → Allocated s t us gl gu owns (
        total_pages_of us gl gu >>= λ total.
        require (not (total == 0) && leb total (arena_at s t).page_count) ec_out_of_resource
        >> alloc_with_record s t us gl gu total owns (first_unused s))
unfolding total_pages_of
sized_request s t us gl gu owns v ht pos wu wl wg = elim (Bool-cases (leb gl (2 ^ 64 - 1 - us))) [
  | inr e ↦ rw e (too_big (ground (arith, v.reach t ht)))
  | inl e ↦ rw e (elim (Bool-cases (leb gu (2 ^ 64 - 1 - (gl + us)))) [
    | inr e ↦ rw e (too_big (ground (arith, v.reach t ht)))
    | inl e ↦
        rw e
          (elim (Bool-cases
            (not (gl + us + gu == 0) && leb (gl + us + gu) (arena_at s t).page_count)) [
              | inr e ↦ rw e (too_big (ground arith))
              | inl e ↦ rw e (
                  alloc_with_record-Allocated s t us gl gu owns v ht pos (first_unused s)
                    (ground arith) (find_record-FirstFound is_unused s.ranges 0))
            ])
  ])
]
  where
    too_big :
        (arena_at s t).page_count < gl + us + gu
        → Allocated s t us gl gu owns (err ec_out_of_resource)
    too_big big = inr (inr (refl, inr (inl (λ b fits all. absurd (omega arith)))))

-- On every branch, for page counts that are words: a request that is granted takes the first record
-- not in use and the lowest run of free pages long enough for the usable pages and the guards,
-- marks it as lower guards, usable pages and upper guards and no page else, numbers the range with
-- the next generation and keeps the invariant; one that is refused leaves the state, with
-- EC_INVALID_STATE before the initialisation, EC_ILLEGAL_ARGUMENT for no page or no arena, and
-- EC_OUT_OF_RESOURCE only where records, pages or generations are short.
pub alloc_range-Allocated :
    (s : Kva) (t us gl gu : ℕ) (owns : Bool)
    → IsKva s
    → us < 2 ^ 64
    → gl < 2 ^ 64
    → gu < 2 ^ 64
    → Allocated s t us gl gu owns (alloc_range s t us gl gu owns)
unfolding alloc_range
alloc_range-Allocated s t us gl gu owns v wu wl wg = elim (Bool-cases s.initialized) [
  | inr e ↦ simp e (inl (refl, refl))
  | inl e ↦ simp e (elim (Bool-cases (us == 0)) [
    | inl z ↦ rw z (inr (inl (refl, inl (ground arith))))
    | inr z ↦ rw z (elim (Bool-cases (ltb t 3)) [
      | inr h ↦ rw h (inr (inl (refl, inr (ground arith))))
      | inl h ↦ rw h (sized_request s t us gl gu owns v (ground arith) (ground arith) wu wl wg)
    ])
  ])
]
