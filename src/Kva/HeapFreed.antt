-- ===== src/Kva/HeapFreed.antt =====
-- KeHeapFreePages of a range of the heap: it succeeds, and the invariant holds without the range.
use himu_os.Prelude.{
  ℕ, ◌+◌, ◌*◌, ◌%◌, ◌^◌, ◌≤◌, ◌<◌, ◌≡◌, ◌≢◌, ◌⊎◌, inl, inr, refl, sym, subst, ◌∙◌, ap, true, false,
  ◌==◌, ltb, arith,
}
use himu_os.Kva.State.{RangeRecord, Kva, arena_at, record_at, page_state, page_address, usable_base}
use himu_os.Kva.Machine.{Machine, IsUnmapped}
use himu_os.Kva.Release.{
  released, retire_record, teardown, release_record, release_found, release_range,
}
use himu_os.Kva.Mapping.{heap_free_pages}
use himu_os.Kva.Invariant.{run-cases}
use himu_os.Kva.Freed.{Vacated, retire_record-Vacated}
use himu_os.Kva.RoundTrip.{retire_record-initialized}
use himu_os.Kva.Backing.{IsBacking, page_of, Cleared, teardown-Cleared}
use himu_os.Kva.Clear.{FreeUnmapped}
use himu_os.Kva.HeapState.{IsFull, IsHeap, IsBase, IsBase-found, base_unique, usable_value}
use himu_os.Kva.HeapGrown.{usable_base-same, IsFull-kept, apart-kept}

module _ {M : Type 0} (os : Machine M) (backed : M → ℕ → Type 0) (laws : IsBacking os backed)
    (s : Kva) (m : M) (h : IsHeap os backed s m) where
  -- The address of a page of a range of the heap.
  page_value :
      (i k : ℕ)
      → (record_at s i).in_use ≡ true
      → (record_at s i).arena ≡ 2
      → k < (record_at s i).usable_pages
      → page_of (usable_base (arena_at s 2) (record_at s i)) k
        ≡ (arena_at s 2).base_address + ((record_at s i).base_page_index + k) * 4096
  page_value i k used heap hk =
      let r = record_at s i in
      let p = r.base_page_index + r.guard_lower_pages in
      let value : usable_base (arena_at s 2) r ≡ (arena_at s 2).base_address + p * 4096 =
        subst (λ t. usable_base (arena_at s t) r ≡ (arena_at s t).base_address + p * 4096) heap
          (usable_value os backed s m h i used) in
      let (owns, guards, total, all) = h.full i used heap in
      let fits : r.base_page_index + r.total_pages ≤ (arena_at s 2).page_count =
        subst (λ t. r.base_page_index + r.total_pages ≤ (arena_at s t).page_count) heap
          (h.valid.held i used).1 in
      omega (arith, value, guards, total, fits, h.valid.reach 2 (omega arith))

  module _ (a : ℕ) (b : IsBase s a) where
    abbrev r : RangeRecord
    r = record_at s b.0

    abbrev s' : Kva
    s' = retire_record s b.0

    vacated : Vacated s b.0 s'
    vacated = retire_record-Vacated s h.valid b.0 b.1 b.2

    fits : r.base_page_index + r.total_pages ≤ (arena_at s 2).page_count
    fits =
        subst (λ t. r.base_page_index + r.total_pages ≤ (arena_at s t).page_count) (b.3)
          (h.valid.held b.0 (b.2)).1

    room : a + r.usable_pages * 4096 < 2 ^ 64
    room =
        let some_pages = (h.valid.held b.0 (b.2)).3 in
        let value = page_value b.0 0 (b.2) (b.3) some_pages in
        let same : page_of a 0 ≡ page_of (usable_base (arena_at s 2) r) 0 =
          ap (λ x. page_of x 0) (sym (b.4)) in
        omega
          (arith, value, fits, (h.full b.0 (b.2) (b.3)).2, same, h.valid.reach 2 (omega arith), b.4)

    torn_down :
        Cleared os backed laws a r.usable_pages 0 m (teardown os true a r.usable_pages 0 false m)
    torn_down =
        teardown-Cleared os backed laws a r.usable_pages 0 false m (omega (arith, room)) (λ k hk.
          inl (
            subst (λ x. backed m (page_of a x)) (omega arith)
              (subst (λ x. backed m (page_of x k)) (b.4) ((h.full b.0 (b.2) (b.3)).3 k hk))))

    runs : heap_free_pages os s m a ≡ released (s', torn_down.0)
    unfolding heap_free_pages release_range release_found release_record
    runs =
        let some_pages = (h.valid.held b.0 (b.2)).3 in
        let value = page_value b.0 0 (b.2) (b.3) some_pages in
        let same : page_of a 0 ≡ page_of (usable_base (arena_at s 2) r) 0 =
          ap (λ x. page_of x 0) (sym (b.4)) in
        let even : (a % 4096 == 0) ≡ true = ground (
          arith,
          value,
          same,
          room,
          h.aligned.0,
          fits,
          (h.full b.0 (b.2) (b.3)).2,
          h.valid.reach 2 (omega arith),
        ) in
        let heap : ltb r.arena 3 ≡ true = ground (arith, b.3) in
        let tear : teardown os r.owns_physical_backing (usable_base (arena_at s r.arena) r)
              r.usable_pages 0 false m
            ≡ released (torn_down.0) =
          ap (λ o. teardown os o (usable_base (arena_at s r.arena) r) r.usable_pages 0 false m)
            ((h.full b.0 (b.2) (b.3)).0)
          ∙ ap (λ t. teardown os true (usable_base (arena_at s t) r) r.usable_pages 0 false m) (b.3)
          ∙ ap (λ x. teardown os true x r.usable_pages 0 false m) (b.4)
          ∙ torn_down.1 in
        simp (h.on, even, IsBase-found os backed s m h a b, heap, tear) refl

    -- A page outside the range has another address.
    page_apart :
        (p : ℕ)
        → p < (arena_at s 2).page_count
        → (p < r.base_page_index) ⊎ (r.base_page_index + r.total_pages ≤ p)
        → (k : ℕ) → k < r.usable_pages
        → page_of a (0 + k) ≢ page_address (arena_at s 2) p
    page_apart p within out k hk same =
        let value = page_value b.0 k (b.2) (b.3) hk in
        let here : page_of a k ≡ page_of (usable_base (arena_at s 2) r) k =
          ap (λ x. page_of x k) (sym (b.4)) in
        let start : page_of a (0 + k) ≡ page_of a k = ap (page_of a) (omega arith) in
        absurd (
          omega (
            arith,
            value,
            here,
            same,
            start,
            out,
            fits,
            (h.full b.0 (b.2) (b.3)).2,
            h.valid.reach 2 (omega arith),
          ))

    freed_clear : FreeUnmapped os s' torn_down.0
    freed_clear p inside free =
        let base = vacated.0.bases 2 in
        let within : p < (arena_at s 2).page_count = omega (arith, vacated.0.counts 2) in
        subst (λ x. IsUnmapped os torn_down.0 (page_of x p)) (sym base)
          (elim (run-cases r.base_page_index r.total_pages p) [
            | inl (k, hk, here) ↦
                let less : k < r.usable_pages = omega (arith, (h.full b.0 (b.2) (b.3)).2) in
                let value = page_value b.0 k (b.2) (b.3) less in
                let address : page_of a (0 + k) ≡ page_address (arena_at s 2) p =
                  ap (page_of a) (omega arith)
                  ∙ ap (λ x. page_of x k) (sym (b.4))
                  ∙ omega (arith, value, here, within, h.valid.reach 2 (omega arith)) in
                subst (IsUnmapped os torn_down.0) address (torn_down.2 k less)
            | inr out ↦
                let was : ◌≡◌ {A = ℕ} (page_state s 2 p) 0 =
                  sym (vacated.0.outside 2 p (inr out)) ∙ free in
                (torn_down.3 (page_address (arena_at s 2) p) (page_apart p within out)).1
                  (h.clear p within was)
          ])

    kept_record : (i : ℕ) → i ≢ b.0 → record_at s' i ≡ record_at s i
    kept_record i ne = vacated.1.others i ne

    still_used : (i : ℕ) → (record_at s' i).in_use ≡ true → i ≢ b.0
    still_used i used e = absurd (
        cc (
          ap (λ q. q.in_use) vacated.1.written,
          subst (λ j. (record_at s' j).in_use ≡ true) e used,
        ))

    -- The pages of another range are not touched.
    other_backed :
        (i : ℕ)
        → i ≢ b.0
        → (record_at s i).in_use ≡ true
        → (record_at s i).arena ≡ 2
        → (k : ℕ) → k < (record_at s i).usable_pages
        → backed m (page_of (usable_base (arena_at s 2) (record_at s i)) k)
        → backed torn_down.0 (page_of (usable_base (arena_at s 2) (record_at s i)) k)
    other_backed i ne used heap k hk =
        (torn_down.3 (page_of (usable_base (arena_at s 2) (record_at s i)) k) (λ j hj same.
          let ri = record_at s i in
          let value = page_value i k used heap hk in
          let start : page_of a (0 + j) ≡ page_of a j = ap (page_of a) (omega arith) in
          let here : page_of a j ≡ page_of (usable_base (arena_at s 2) r) j =
            ap (λ x. page_of x j) (sym (b.4)) in
          let value' = page_value b.0 j (b.2) (b.3) hj in
          let one : ri.base_page_index + k ≡ r.base_page_index + j =
            omega (arith, value, value', here, start, same) in
          let total = (h.full i used heap).2 in
          let total' = (h.full b.0 (b.2) (b.3)).2 in
          ne (
            h.valid.apart i b.0 2 (ri.base_page_index + k) used (b.2)
              (heap, omega arith, omega (arith, total, hk))
              (b.3, omega (arith, one), omega (arith, one, total', hj))))).0

    freed-IsHeap : IsHeap os backed s' torn_down.0
    freed-IsHeap = record {
      valid = vacated.2;
      on = retire_record-initialized s b.0 ∙ h.on;
      clear = freed_clear;
      aligned = (
        omega (arith, h.aligned.0, vacated.0.bases 2),
        omega (arith, h.aligned.1, vacated.0.bases 2),
      );
      apart = apart-kept os backed s s' m torn_down.0 h vacated.0.bases vacated.0.counts;
      full = λ i used heap.
          let ne = still_used i used in
          let same = kept_record i ne in
          let used' = subst (λ q. q.in_use ≡ true) same used in
          let heap' = subst (λ q. q.arena ≡ 2) same heap in
          subst (IsFull backed s' torn_down.0) (sym same) (
            IsFull-kept backed s s' m torn_down.0 (record_at s i) (vacated.0.bases 2)
              (other_backed i ne used' heap') (h.full i used' heap'));
    }

    freed-IsBase : (c : ℕ) → a ≢ c → IsBase s c → IsBase s' c
    freed-IsBase c other (i, inside, used, heap, at) =
        let ne : i ≢ b.0 = λ e.
          other (sym (b.4) ∙ subst (λ j. usable_base (arena_at s 2) (record_at s j) ≡ c) e at) in
        let same = kept_record i ne in
        (
          i,
          inside,
          subst (λ q. q.in_use ≡ true) (sym same) used,
          subst (λ q. q.arena ≡ 2) (sym same) heap,
          usable_base-same s s' (record_at s' i) (vacated.0.bases 2)
              ∙ ap (usable_base (arena_at s 2)) same
              ∙ at,
        )

    freed-old : (c : ℕ) → IsBase s' c → (a ≢ c) × IsBase s c
    freed-old c (i, inside, used, heap, at) =
        let ne = still_used i used in
        let same = kept_record i ne in
        let used' : (record_at s i).in_use ≡ true = subst (λ q. q.in_use ≡ true) same used in
        let heap' : (record_at s i).arena ≡ 2 = subst (λ q. q.arena ≡ 2) same heap in
        let at' : usable_base (arena_at s 2) (record_at s i) ≡ c =
          ap (usable_base (arena_at s 2)) (sym same)
          ∙ sym (usable_base-same s s' (record_at s' i) (vacated.0.bases 2))
          ∙ at in
        (
          (λ e. ne (
              base_unique os backed s m h a b.0 i (b.2) (b.3) (b.4) used'
                (ap (λ t. usable_base (arena_at s t) (record_at s i)) heap' ∙ at' ∙ sym e))),
          (i, inside, used', heap', at'),
        )

  -- Freeing a base of the heap succeeds, keeps the invariant, and that base goes and no other.
  pub heap_free_pages-Frees :
      (a : ℕ)
      → IsBase s a
      → (z : Kva) × (m' : M) × (heap_free_pages os s m a ≡ released (z, m'))
        × IsHeap os backed z m'
        × ((c : ℕ) → a ≢ c → IsBase s c → IsBase z c)
        × ((c : ℕ) → IsBase z c → (a ≢ c) × IsBase s c)
  heap_free_pages-Frees a b =
      (s' a b, (torn_down a b).0, runs a b, freed-IsHeap a b, freed-IsBase a b, freed-old a b)
