-- ===== src/Pool/HeapPages.antt =====
-- The pages of a pool come from the page-backed heap: KeHeapAllocPages(1) and KeHeapFreePages of
-- kernel/ke/mm/kva.c keep the laws that kernel/ke/mm/pool.c relies on.
use himu_os.Prelude.{
  ℕ, ◌-◌, ◌<◌, ◌≡◌, ◌≢◌, ◌⊎◌, inl, inr, refl, sym, subst, true, ◌==◌, if◌then◌else◌, Bool-cases,
  Option, none, some, Result, ok, err, Status, ec_success, ec_invalid_state, arith,
}
use himu_os.Kva.State.{Range, Kva}
use himu_os.Kva.Machine.{Machine}
use himu_os.Kva.Release.{released}
use himu_os.Kva.Mapping.{Outcome, ended, halted, heap_alloc_pages, heap_free_pages}
use himu_os.Kva.Alloc.{Granted}
use himu_os.Kva.Backing.{IsBacking, page_of}
use himu_os.Kva.Mapped.{usable_lem}
use himu_os.Kva.Heap.{IsHeapAlloc, heap_alloc_pages-IsHeapAlloc}
use himu_os.Kva.HeapState.{
  IsHeap, IsBase, base_count, base_count-some, base_count-none, IsBase-cases, base_count-same,
}
use himu_os.Kva.HeapGrown.{
  unchanged-IsHeap, unchanged-IsBase, granted-IsHeap, granted-new, granted-IsBase, granted-old,
  granted-fresh,
}
use himu_os.Kva.HeapFreed.{heap_free_pages-Frees}
use himu_os.Pool.Machine.{Pages, IsGiven, IsPages}

-- The allocator and the machine, with the invariant of the heap.
pub record HeapState {M : Type 0} (os : Machine M) (backed : M → ℕ → Type 0) : Type 0 where
  pub kva : Kva
  pub machine : M
  pub valid : IsHeap os backed kva machine

module _ {M : Type 0} (os : Machine M) (backed : M → ℕ → Type 0) where
  -- How often an address is the base of a range in use.
  abbrev pub held_pages : HeapState os backed → ℕ → ℕ
  held_pages st a = base_count st.kva a

  -- The state as the code left it, for an allocation and its outcome.
  abbrev pub IsAllocOf : Outcome ((Kva × M) × Option ℕ) → Result ℕ × HeapState os backed → Type 0
  IsAllocOf (ended e ((s, m), some a)) (ok b, st) = (a ≡ b) × (s ≡ st.kva) × (m ≡ st.machine)
  IsAllocOf (ended e ((s, m), none)) (err e', st) = (e ≡ e') × (s ≡ st.kva) × (m ≡ st.machine)
  IsAllocOf (ended e ((s, m), some a)) (err e', st) = ⊥
  IsAllocOf (ended e ((s, m), none)) (ok b, st) = ⊥
  IsAllocOf (halted e) r = ⊥

  module _ (laws : IsBacking os backed) where
    abbrev alloc_from :
        (st : HeapState os backed) (r : Outcome ((Kva × M) × Option ℕ))
        → IsHeapAlloc os backed st.kva st.machine 1 r
        → Result ℕ × HeapState os backed
    alloc_from st (halted e) h = absurd h
    alloc_from st (ended e ((s, m), none)) (lost, kva, states, same, clear, keep) = (
      err e,
      record {
        kva = s;
        machine = m;
        valid = unchanged-IsHeap os backed st.kva s st.machine m st.valid same kva clear keep;
      },
    )
    alloc_from st (ended e ((s, m), some a)) (won, (range, g, at), all, clear, keep) = (
      ok a,
      record {
        kva = s;
        machine = m;
        valid =
            granted-IsHeap os backed st.kva s st.machine m st.valid 1 range g clear
              (subst (λ x. (k : ℕ) → k < 1 → backed m (page_of x k)) at all) keep;
      },
    )

    abbrev heap_alloc : HeapState os backed → Result ℕ × HeapState os backed
    heap_alloc st = alloc_from st (heap_alloc_pages os st.kva st.machine 1) (
        heap_alloc_pages-IsHeapAlloc os backed laws st.kva st.machine 1 st.valid.valid
          st.valid.clear (omega arith))

    -- An address that is no base is no page of a pool.
    abbrev free_from :
        (st : HeapState os backed) (b : ℕ)
        → (IsBase st.kva b ⊎ ¬ IsBase st.kva b)
        → Status × HeapState os backed
    free_from st b (inl base) =
        let (z, m', run, valid, _, _) =
          heap_free_pages-Frees os backed laws st.kva st.machine st.valid b base in
        (ec_success, record { kva = z; machine = m'; valid = valid })
    free_from st b (inr other) = (ec_invalid_state, st)

    abbrev pub heap_pages : Pages (HeapState os backed)
    heap_pages = record {
      alloc_page = heap_alloc;
      free_page = λ st b. free_from st b (IsBase-cases os backed st.kva st.machine st.valid b);
    }

    -- What the laws say of an allocation.
    abbrev IsLawful : HeapState os backed → Result ℕ × HeapState os backed → Type 0
    IsLawful st (ok b, st') = IsGiven held_pages st b st'
    IsLawful st (err e, st') = (a : ℕ) → held_pages st' a ≡ held_pages st a

    Granted-IsGiven :
        (st st' : HeapState os backed) (range : Range)
        → Granted st.kva 2 1 0 0 true st'.kva range
        → IsGiven held_pages st range.usable_base st'
    Granted-IsGiven st st' range g =
        let v = st.valid in
        let s = st.kva in
        let m = st.machine in
        let b = range.usable_base in
        let start = usable_lem s st'.kva 1 range g in
        let reach = v.valid.reach 2 (omega arith) in
        (
          omega (arith, start, reach, g.5, v.aligned.0),
          omega (arith, start, reach, g.5, v.aligned.1),
          omega (arith, start, reach, g.5),
          base_count-none os backed s m v b
              (granted-fresh os backed s st'.kva m st'.machine v 1 range g (omega arith)),
          λ a. elim (Bool-cases (b == a)) [
            | inl e ↦
                let same : b ≡ a = ground arith in
                rw e (
                  base_count-some os backed st'.kva st'.machine st'.valid a (
                    subst (IsBase st'.kva) same
                      (granted-new os backed s st'.kva m st'.machine v 1 range g)))
            | inr e ↦ rw e (
                base_count-same os backed s st'.kva m st'.machine v st'.valid a
                  (granted-IsBase os backed s st'.kva m st'.machine v 1 range g a)
                  (λ base. elim (granted-old os backed s st'.kva m st'.machine v 1 range g a base) [
                    | inl same ↦ absurd (ground (arith, e, same))
                    | inr old ↦ old
                  ]))
          ],
        )

    alloc_from-IsLawful :
        (st : HeapState os backed) (r : Outcome ((Kva × M) × Option ℕ))
        (h : IsHeapAlloc os backed st.kva st.machine 1 r)
        → IsLawful st (alloc_from st r h) × IsAllocOf r (alloc_from st r h)
    alloc_from-IsLawful st (halted e) h = absurd h
    alloc_from-IsLawful st (ended e ((s, m), none)) (lost, kva, states, same, clear, keep) =
        let after =
          (alloc_from st (ended e ((s, m), none)) (lost, kva, states, same, clear, keep)).1 in
        (
          (λ a.
              let bases = unchanged-IsBase os backed st.kva s st.machine m st.valid same a in
              base_count-same os backed st.kva s st.machine m st.valid after.valid a bases.0
                bases.1),
          (refl, refl, refl),
        )
    alloc_from-IsLawful st (ended e ((s, m), some a)) (won, (range, g, at), all, clear, keep) =
        let after =
          (alloc_from st (ended e ((s, m), some a)) (won, (range, g, at), all, clear, keep)).1 in
        (
          subst (λ x. IsGiven held_pages st x after) (sym at) (Granted-IsGiven st after range g),
          (refl, refl, refl),
        )

    heap_alloc-IsLawful :
        (st : HeapState os backed)
        → IsLawful st (heap_alloc st)
          × IsAllocOf (heap_alloc_pages os st.kva st.machine 1) (heap_alloc st)
    heap_alloc-IsLawful st = alloc_from-IsLawful st (heap_alloc_pages os st.kva st.machine 1) _

    -- What the laws say of a page that goes back, and that the code gives it back.
    abbrev pub IsFreeOf : HeapState os backed → ℕ → Status × HeapState os backed → Type 0
    IsFreeOf st b r =
        (st' : HeapState os backed) × (r ≡ (ec_success, st'))
        × (heap_free_pages os st.kva st.machine b ≡ released (st'.kva, st'.machine))
        × ((a : ℕ) → held_pages st' a ≡ (if b == a then held_pages st a - 1 else held_pages st a))

    free_from-IsFreeOf :
        (st : HeapState os backed) (b : ℕ)
        → 0 < held_pages st b
        → (c : IsBase st.kva b ⊎ ¬ IsBase st.kva b) → IsFreeOf st b (free_from st b c)
    free_from-IsFreeOf st b has (inr other) =
        absurd (omega (arith, has, base_count-none os backed st.kva st.machine st.valid b other))
    free_from-IsFreeOf st b has (inl base) =
        let v = st.valid in
        let (z, m', run, valid, to, from) =
          heap_free_pages-Frees os backed laws st.kva st.machine v b base in
        (
          (free_from st b (inl base)).1,
          refl,
          run,
          λ a. elim (Bool-cases (b == a)) [
            | inl e ↦
                let same : b ≡ a = ground arith in
                let one =
                  base_count-some os backed st.kva st.machine v a
                    (subst (IsBase st.kva) same base) in
                let none_left =
                  base_count-none os backed z m' valid a (λ still. (from a still).0 same) in
                rw e (omega (arith, one, none_left))
            | inr e ↦
                let other : b ≢ a = ground arith in
                rw e (
                  base_count-same os backed st.kva z st.machine m' v valid a (to a other)
                    (λ still. (from a still).1))
          ],
        )

    -- With a machine that keeps its laws, the page-backed heap keeps the laws of a pool's pages. Each
    -- allocation leaves the state and the result of KeHeapAllocPages(1), and each page that is handed
    -- out goes back as KeHeapFreePages gives it back, which succeeds.
    pub heap_pages-IsPages :
        IsPages heap_pages held_pages
        × ((st : HeapState os backed)
            → IsAllocOf (heap_alloc_pages os st.kva st.machine 1) (heap_pages.alloc_page st))
        × ((st : HeapState os backed) (b : ℕ)
            → 0 < held_pages st b
            → IsFreeOf st b (heap_pages.free_page st b))
    heap_pages-IsPages = (
      record {
        gives = λ st st' b run. subst (IsLawful st) run (heap_alloc-IsLawful st).0;
        fails = λ st st' e run. subst (IsLawful st) run (heap_alloc-IsLawful st).0;
        takes = λ st b has. let (st', run, code, counts) = freed st b has in (st', run, counts);
      },
      (λ st. (heap_alloc-IsLawful st).1),
      freed,
    )
      where
        freed :
            (st : HeapState os backed) (b : ℕ)
            → 0 < held_pages st b
            → IsFreeOf st b (heap_pages.free_page st b)
        freed st b has =
            free_from-IsFreeOf st b has (IsBase-cases os backed st.kva st.machine st.valid b)
