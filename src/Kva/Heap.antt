-- ===== src/Kva/Heap.antt =====
-- KeHeapAllocPages: the range, the mapping of its pages, and what is left when it fails.
use himu_os.Prelude.{
  ℕ, ◌+◌, ◌^◌, ◌≤◌, ◌<◌, ◌≡◌, ◌≢◌, ◌⊎◌, inl, inr, refl, sym, subst, ◌∙◌, ap, true, false, ◌==◌,
  Bool-cases, Option, none, some, Result, ok, err, Status, ec_success, ec_invalid_state,
  ec_illegal_argument, arith,
}
use himu_os.Kva.State.{Range, Kva, arena_at, record_at, page_state, page_address}
use himu_os.Kva.Machine.{Machine, succeeded, IsUnmapped}
use himu_os.Kva.Range.{alloc_range}
use himu_os.Kva.Release.{retire_record}
use himu_os.Kva.Mapping.{
  Outcome, ended, halted, default_page_attrs, map_owned_pages, heap_mapped, heap_allocated,
  heap_alloc_pages,
}
use himu_os.Kva.Invariant.{IsKva, run-cases}
use himu_os.Kva.Alloc.{Granted, Allocated, alloc_range-Allocated}
use himu_os.Kva.Freed.{Vacated, retire_record-Vacated}
use himu_os.Kva.RoundTrip.{accepted, restored, retire_record-initialized}
use himu_os.Kva.Backing.{IsKept, IsBacking, page_of}
use himu_os.Kva.Mapped.{IsMapping, map_owned_pages-IsMapping}
use himu_os.Kva.Clear.{FreeUnmapped, page_lem, IsUnmapped-before, backed_still, free_still}

-- The ranges in use, the arenas' places and the initialisation are as before.
abbrev pub Unchanged : Kva → Kva → Type 0
Unchanged s s' =
    ((i : ℕ) → (record_at s' i).in_use ≡ true → record_at s' i ≡ record_at s i)
    × ((i : ℕ) → (record_at s i).in_use ≡ true → record_at s' i ≡ record_at s i)
    × ((t : ℕ) → (arena_at s' t).base_address ≡ (arena_at s t).base_address)
    × ((t : ℕ) → (arena_at s' t).page_count ≡ (arena_at s t).page_count)
    × (s'.initialized ≡ s.initialized)

-- What a heap allocation does.
abbrev pub IsHeapAlloc :
    {M : Type 0}
    → Machine M
    → (M → ℕ → Type 0)
    → Kva
    → M
    → ℕ
    → Outcome ((Kva × M) × Option ℕ)
    → Type 0
IsHeapAlloc os backed s m count (halted e) = ⊥
IsHeapAlloc os backed s m count (ended st ((s', m'), some a)) =
    (st ≡ ec_success)
    × ((range : Range) × Granted s 2 count 0 0 true s' range × (a ≡ range.usable_base))
    × ((k : ℕ) → k < count → backed m' (page_of a k))
    × FreeUnmapped os s' m'
    × ((va : ℕ) → backed m va → backed m' va)
IsHeapAlloc os backed s m count (ended st ((s', m'), none)) =
    (succeeded st ≡ false)
    × IsKva s'
    × ((u p : ℕ) → page_state s' u p ≡ page_state s u p)
    × Unchanged s s'
    × FreeUnmapped os s' m'
    × ((va : ℕ) → backed m va → backed m' va)

module _ {M : Type 0} (os : Machine M) (backed : M → ℕ → Type 0) (laws : IsBacking os backed)
    (s : Kva) (m : M) (count : ℕ) (v : IsKva s) (clear : FreeUnmapped os s m) where
  module _ (s' : Kva) (range : Range) (g : Granted s 2 count 0 0 true s' range) where
    abbrev page : ℕ → ℕ
    page k = page_of range.usable_base k

    abbrev Outside : M → Type 0
    Outside m' = (va : ℕ) → ((k : ℕ) → k < count → page k ≢ va) → IsKept os backed m m' va

    backed-IsHeapAlloc :
        (m' : M)
        → ((k : ℕ) → k < count → backed m' (page k))
        → Outside m'
        → IsHeapAlloc os backed s m count (ended ec_success ((s', m'), some range.usable_base))
    backed-IsHeapAlloc m' all outside = (
      refl,
      (range, g, refl),
      all,
      free_still os backed laws s m count v clear s' range g s' m' (g.8.bases 2) (g.8.counts 2)
          outside where_free,
      backed_still os backed laws s m count v clear s' range g m' outside,
    )
      where
        where_free :
            (p : ℕ)
            → p < (arena_at s 2).page_count
            → ◌≡◌ {A = ℕ} (page_state s' 2 p) 0
            → ((p < g.1) ⊎ (g.1 + count ≤ p)) × (◌≡◌ {A = ℕ} (page_state s 2 p) 0)
              ⊎ IsUnmapped os m' (page_address (arena_at s 2) p)
        where_free p within free = elim (run-cases g.1 count p) [
          | inl (k, h, here) ↦
              let taken : page_state s' 2 p ≡ 1 =
                subst (λ x. page_state s' 2 x ≡ 1) (omega (arith, here)) (g.16.1 k h) in
              absurd (omega (arith, taken, free))
          | inr out ↦ inl (out, sym (g.8.outside 2 p (inr (omega (arith, out)))) ∙ free)
        ]

    -- The record that the range had is not in use before or after.
    lost-Unchanged : Vacated s' g.0 (retire_record s' g.0) → Unchanged s (retire_record s' g.0)
    lost-Unchanged vacated =
        let z = retire_record s' g.0 in
        let old : (i : ℕ) → i ≢ g.0 → record_at z i ≡ record_at s i =
          λ i ne. vacated.1.others i ne ∙ g.9.others i ne in
        let blank : (record_at z g.0).in_use ≡ false = ap (λ q. q.in_use) vacated.1.written in
        (
          (λ i on.
              old i (λ e. absurd (cc (blank, subst (λ j. (record_at z j).in_use ≡ true) e on)))),
          (λ i on. old i (λ e. absurd (cc (g.3, subst (λ j. (record_at s j).in_use ≡ true) e on)))),
          (λ t. vacated.0.bases t ∙ g.8.bases t),
          (λ t. vacated.0.counts t ∙ g.8.counts t),
          retire_record-initialized s' g.0 ∙ g.15,
        )

    lost-IsHeapAlloc :
        (st : Status) (m' : M)
        → succeeded st ≡ false
        → ((k : ℕ) → k < count → IsUnmapped os m' (page k))
        → Outside m'
        → IsHeapAlloc os backed s m count (ended st ((retire_record s' g.0, m'), none))
    lost-IsHeapAlloc st m' lost gone outside =
        let z = retire_record s' g.0 in
        let used : (record_at s' g.0).in_use ≡ true =
          subst (λ q. q.in_use ≡ true) (sym g.9.written) refl in
        let arena : (record_at s' g.0).arena ≡ 2 = ap (λ q. q.arena) g.9.written in
        let vacated = retire_record-Vacated s' g.11 g.0 g.2 used in
        let same = restored os s s' m 2 count 0 0 true range v g (omega arith) z vacated in
        (
          lost,
          vacated.2,
          same,
          lost-Unchanged vacated,
          free_still os backed laws s m count v clear s' range g z m'
              (vacated.0.bases 2 ∙ g.8.bases 2) (vacated.0.counts 2 ∙ g.8.counts 2) outside
              (λ p within free. elim (run-cases g.1 count p) [
                | inl (k, h, here) ↦ inr (
                    subst (IsUnmapped os m')
                      (page_lem os backed laws s m count v clear s' range g k h
                        ∙ ap (page_address (arena_at s 2)) (sym here))
                      (gone k h))
                | inr out ↦ inl (out, sym (same 2 p) ∙ free)
              ]),
          backed_still os backed laws s m count v clear s' range g m' outside,
        )

    mapped-IsHeapAlloc :
        (r : Outcome (Kva × M))
        → (on : s'.initialized ≡ true) → IsMapping os backed laws s s' count range v g on m r
        → IsHeapAlloc os backed s m count (heap_mapped os range r)
    unfolding heap_mapped succeeded
    mapped-IsHeapAlloc (halted e) on h = absurd h
    mapped-IsHeapAlloc (ended st (z, m')) on (inl (won, same, all, outside)) =
        rw (won, same) (backed-IsHeapAlloc m' all outside)
    mapped-IsHeapAlloc (ended st (z, m')) on (inr (lost, same, gone, outside)) =
        rw (lost, same) (lost-IsHeapAlloc st m' lost gone outside)

  refused-IsHeapAlloc :
      (e : Status) → succeeded e ≡ false → IsHeapAlloc os backed s m count (ended e ((s, m), none))
  refused-IsHeapAlloc e lost = (
    lost,
    v,
    (λ u p. refl),
    ((λ i on. refl), (λ i on. refl), (λ t. refl), (λ t. refl), refl),
    clear,
    λ va b. b,
  )

  Allocated-IsHeapAlloc :
      (r : Result (Kva × Range))
      → alloc_range s 2 count 0 0 true ≡ r
      → Allocated s 2 count 0 0 true r
      → IsHeapAlloc os backed s m count (heap_allocated os s m r)
  unfolding heap_allocated
  Allocated-IsHeapAlloc (err e) run (inl (same, off)) =
      refused-IsHeapAlloc e (subst (λ x. succeeded x ≡ false) (sym same) (unfold succeeded in refl))
  Allocated-IsHeapAlloc (err e) run (inr (inl (same, bad))) =
      refused-IsHeapAlloc e (subst (λ x. succeeded x ≡ false) (sym same) (unfold succeeded in refl))
  Allocated-IsHeapAlloc (err e) run (inr (inr (same, short))) =
      refused-IsHeapAlloc e (subst (λ x. succeeded x ≡ false) (sym same) (unfold succeeded in refl))
  Allocated-IsHeapAlloc (ok (s', range)) run g =
      let on : s'.initialized ≡ true = g.15 ∙ accepted s 2 count 0 0 true run in
      mapped-IsHeapAlloc s' range g (map_owned_pages os s' m range default_page_attrs) on (
        map_owned_pages-IsMapping os backed laws s s' count range v g on m
          (IsUnmapped-before os backed laws s m count v clear s' range g))

  -- A heap allocation on every branch, where the invariant holds and no free page of the heap is
  -- mapped, for page counts that are words: it hands out the base of a
  -- range of the heap with every page backed; or it fails, and the invariant holds, every page has
  -- the state it had and no free page of the heap is mapped. No page that was backed is lost, and
  -- the kernel does not halt.
  pub heap_alloc_pages-IsHeapAlloc :
      count < 2 ^ 64 → IsHeapAlloc os backed s m count (heap_alloc_pages os s m count)
  unfolding heap_alloc_pages heap_allocated
  heap_alloc_pages-IsHeapAlloc word = elim (Bool-cases s.initialized) [
    | inr e ↦
        let runs : heap_alloc_pages os s m count ≡ ended ec_invalid_state ((s, m), none) =
          simp e refl in
        subst (IsHeapAlloc os backed s m count) (sym runs)
          (refused-IsHeapAlloc ec_invalid_state (unfold succeeded in refl))
    | inl e ↦ elim (Bool-cases (count == 0)) [
      | inl z ↦
          let runs : heap_alloc_pages os s m count ≡ ended ec_illegal_argument ((s, m), none) =
            simp (e, z) refl in
          subst (IsHeapAlloc os backed s m count) (sym runs)
            (refused-IsHeapAlloc ec_illegal_argument (unfold succeeded in refl))
      | inr z ↦
          let runs : heap_alloc_pages os s m count
              ≡ heap_allocated os s m (alloc_range s 2 count 0 0 true) =
            simp (e, z) refl in
          subst (IsHeapAlloc os backed s m count) (sym runs) (
            Allocated-IsHeapAlloc (alloc_range s 2 count 0 0 true) refl
              (alloc_range-Allocated s 2 count 0 0 true v word (omega arith) (omega arith)))
    ]
  ]
