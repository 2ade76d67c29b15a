-- ===== src/Kva/HeapGrown.antt =====
-- The heap after an allocation: the invariant holds, and one more range starts, or none.
use himu_os.Prelude.{
  ℕ, ◌+◌, ◌*◌, ◌≤◌, ◌<◌, ◌≡◌, ◌≢◌, ◌⊎◌, inl, inr, refl, sym, subst, ◌∙◌, ap, true, ◌==◌, Bool-cases,
  arith,
}
use himu_os.Kva.State.{
  RangeRecord, Range, Kva, arena_at, record_at, page_state, usable_base, fill_range,
}
use himu_os.Kva.Machine.{Machine}
use himu_os.Kva.Invariant.{IsKva, span-live}
use himu_os.Kva.Alloc.{Granted}
use himu_os.Kva.Backing.{page_of}
use himu_os.Kva.Mapped.{usable_lem}
use himu_os.Kva.Clear.{FreeUnmapped}
use himu_os.Kva.Heap.{Unchanged}
use himu_os.Kva.HeapState.{IsFull, IsHeap, IsBase, usable_span, usable_value}

pub usable_base-same :
    (s s' : Kva) (r : RangeRecord)
    → (arena_at s' 2).base_address ≡ (arena_at s 2).base_address
    → usable_base (arena_at s' 2) r ≡ usable_base (arena_at s 2) r
usable_base-same s s' r same = ap (λ b. page_of b (r.base_page_index + r.guard_lower_pages)) same

pub IsFull-kept :
    {M : Type 0} (backed : M → ℕ → Type 0) (s s' : Kva) (m m' : M) (r : RangeRecord)
    → (arena_at s' 2).base_address ≡ (arena_at s 2).base_address
    → ((k : ℕ)
        → k < r.usable_pages
        → backed m (page_of (usable_base (arena_at s 2) r) k)
        → backed m' (page_of (usable_base (arena_at s 2) r) k))
    → IsFull backed s m r
    → IsFull backed s' m' r
IsFull-kept backed s s' m m' r same keep (owns, guards, total, all) = (
  owns,
  guards,
  total,
  λ k h.
      subst (λ b. backed m' (page_of b k)) (sym (usable_base-same s s' r same))
        (keep k h (all k h)),
)

module _ {M : Type 0} (os : Machine M) (backed : M → ℕ → Type 0) (s s' : Kva) (m m' : M)
    (h : IsHeap os backed s m) where
  -- The places of the arenas are kept.
  pub apart-kept :
      ((t : ℕ) → (arena_at s' t).base_address ≡ (arena_at s t).base_address)
      → ((t : ℕ) → (arena_at s' t).page_count ≡ (arena_at s t).page_count)
      → (t : ℕ) → t < 3
      → t ≢ 2
      → ((arena_at s' t).base_address + (arena_at s' t).page_count * 4096
          ≤ (arena_at s' 2).base_address)
        ⊎ ((arena_at s' 2).base_address + (arena_at s' 2).page_count * 4096
            ≤ (arena_at s' t).base_address)
  apart-kept bases counts t small other = elim (h.apart t small other) [
    | inl low ↦ inl (omega (arith, low, bases t, counts t, bases 2))
    | inr high ↦ inr (omega (arith, high, bases t, bases 2, counts 2))
  ]

  module _ (u : Unchanged s s') where
    pub unchanged-IsHeap :
        IsKva s'
        → FreeUnmapped os s' m'
        → ((va : ℕ) → backed m va → backed m' va)
        → IsHeap os backed s' m'
    unchanged-IsHeap valid clear keep = record {
      valid = valid;
      on = u.4 ∙ h.on;
      clear = clear;
      aligned = (omega (arith, h.aligned.0, u.2 2), omega (arith, h.aligned.1, u.2 2));
      apart = apart-kept u.2 u.3;
      full = λ i used heap.
          let same : record_at s' i ≡ record_at s i = u.0 i used in
          subst (IsFull backed s' m') (sym same) (
            IsFull-kept backed s s' m m' (record_at s i) (u.2 2) (λ k hk b. keep _ b)
              (h.full i (subst (λ r. r.in_use ≡ true) same used)
                (subst (λ r. r.arena ≡ 2) same heap)));
    }

    pub unchanged-IsBase : (a : ℕ) → (IsBase s a → IsBase s' a) × (IsBase s' a → IsBase s a)
    unchanged-IsBase a = (
      λ (i, inside, used, heap, at).
          let same = u.1 i used in
          (
            i,
            inside,
            subst (λ r. r.in_use ≡ true) (sym same) used,
            subst (λ r. r.arena ≡ 2) (sym same) heap,
            usable_base-same s s' (record_at s' i) (u.2 2)
                ∙ ap (usable_base (arena_at s 2)) same
                ∙ at,
          ),
      λ (i, inside, used, heap, at).
          let same = u.0 i used in
          (
            i,
            inside,
            subst (λ r. r.in_use ≡ true) same used,
            subst (λ r. r.arena ≡ 2) same heap,
            ap (usable_base (arena_at s 2)) (sym same)
                ∙ sym (usable_base-same s s' (record_at s' i) (u.2 2))
                ∙ at,
          ),
    )

  module _ (count : ℕ) (range : Range) (g : Granted s 2 count 0 0 true s' range) where
    -- The range is in use, of the heap, and starts at the address handed out.
    new_at : usable_base (arena_at s' 2) (record_at s' g.0) ≡ range.usable_base
    unfolding fill_range
    new_at =
        usable_base-same s s' (record_at s' g.0) (g.8.bases 2) ∙ sym (ap (λ q. q.usable_base) g.10)

    pub granted-IsHeap :
        FreeUnmapped os s' m'
        → ((k : ℕ) → k < count → backed m' (page_of range.usable_base k))
        → ((va : ℕ) → backed m va → backed m' va)
        → IsHeap os backed s' m'
    granted-IsHeap clear all keep = record {
      valid = g.11;
      on = g.15 ∙ h.on;
      clear = clear;
      aligned = (omega (arith, h.aligned.0, g.8.bases 2), omega (arith, h.aligned.1, g.8.bases 2));
      apart = apart-kept g.8.bases g.8.counts;
      full = full;
    }
      where
        full :
            (i : ℕ)
            → (record_at s' i).in_use ≡ true
            → (record_at s' i).arena ≡ 2
            → IsFull backed s' m' (record_at s' i)
        full i used heap = elim (Bool-cases (i == g.0)) [
          | inl e ↦
              let here : g.0 ≡ i = ground arith in
              let pages : (record_at s' g.0).usable_pages ≡ count =
                ap (λ q. q.usable_pages) g.9.written in
              subst (λ j. IsFull backed s' m' (record_at s' j)) here
                (
                  ap (λ q. q.owns_physical_backing) g.9.written,
                  ap (λ q. q.guard_lower_pages) g.9.written,
                  omega (arith, pages, ap (λ q. q.total_pages) g.9.written),
                  λ k hk.
                      subst (λ b. backed m' (page_of b k)) (sym new_at)
                        (all k (omega (arith, hk, pages))),
                )
          | inr e ↦
              let same = g.9.others i (ground arith) in
              subst (IsFull backed s' m') (sym same) (
                IsFull-kept backed s s' m m' (record_at s i) (g.8.bases 2) (λ k hk b. keep _ b)
                  (h.full i (subst (λ r. r.in_use ≡ true) same used)
                    (subst (λ r. r.arena ≡ 2) same heap)))
        ]

    pub granted-new : IsBase s' range.usable_base
    granted-new = (
      g.0,
      g.2,
      subst (λ r. r.in_use ≡ true) (sym g.9.written) refl,
      ap (λ q. q.arena) g.9.written,
      new_at,
    )

    pub granted-IsBase : (a : ℕ) → IsBase s a → IsBase s' a
    granted-IsBase a (i, inside, used, heap, at) =
        let other : i ≢ g.0 =
          λ e. absurd (cc (g.3, subst (λ j. (record_at s j).in_use ≡ true) e used)) in
        let same = g.9.others i other in
        (
          i,
          inside,
          subst (λ r. r.in_use ≡ true) (sym same) used,
          subst (λ r. r.arena ≡ 2) (sym same) heap,
          usable_base-same s s' (record_at s' i) (g.8.bases 2)
              ∙ ap (usable_base (arena_at s 2)) same
              ∙ at,
        )

    pub granted-old : (a : ℕ) → IsBase s' a → (range.usable_base ≡ a) ⊎ IsBase s a
    granted-old a (i, inside, used, heap, at) = elim (Bool-cases (i == g.0)) [
      | inl e ↦
          let here : g.0 ≡ i = ground arith in
          inl (
            sym new_at
            ∙ subst (λ j. usable_base (arena_at s' 2) (record_at s' j) ≡ a) (sym here) at)
      | inr e ↦
          let same = g.9.others i (ground arith) in
          inr (
            i,
            inside,
            subst (λ r. r.in_use ≡ true) same used,
            subst (λ r. r.arena ≡ 2) same heap,
            ap (usable_base (arena_at s 2)) (sym same)
                ∙ sym (usable_base-same s s' (record_at s' i) (g.8.bases 2))
                ∙ at,
          )
    ]

    -- The address was not a base before: its page was free.
    pub granted-fresh : 0 < count → ¬ IsBase s range.usable_base
    granted-fresh some_pages (i, inside, used, heap, at) =
        let r = record_at s i in
        let p = r.base_page_index + r.guard_lower_pages in
        let value : usable_base (arena_at s 2) r ≡ (arena_at s 2).base_address + p * 4096 =
          subst (λ t. usable_base (arena_at s t) r ≡ (arena_at s t).base_address + p * 4096) heap
            (usable_value os backed s m h i used) in
        let span = usable_span os backed s m h i used in
        let free : ◌≡◌ {A = ℕ} (page_state s 2 (g.1 + 0)) 0 = g.6 0 (omega arith) in
        let here : p ≡ g.1 + 0 =
          omega
            (arith, at, value, usable_lem s s' count range g, g.5, h.valid.reach 2 (omega arith)) in
        let live = span-live s h.valid i 2 p used (heap, span.1, span.2) in
        let now : page_state s 2 p ≡ page_state s 2 (g.1 + 0) = ap (page_state s 2) here in
        absurd (omega (arith, live, free, now))
