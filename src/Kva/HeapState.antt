-- ===== src/Kva/HeapState.antt =====
-- The heap between its operations: what is in use is backed, and what is free is not mapped.
use himu_os.Prelude.{
  ℕ, ◌+◌, ◌*◌, ◌%◌, ◌≤◌, ◌<◌, ◌≡◌, ◌≢◌, ◌⊎◌, inl, inr, refl, sym, subst, ◌∙◌, ap, true, ◌==◌,
  Bool-cases, Option, none, some, if◌then◌else◌, arith,
}
use mathlib.Core.Option.{some-injective}
use himu_os.Kva.State.{RangeRecord, Kva, arena_at, record_at, usable_base}
use himu_os.Kva.Machine.{Machine}
use himu_os.Kva.Range.{has_usable_base, find_record_by_usable_base}
use himu_os.Kva.Invariant.{IsKva, InSpan}
use himu_os.Kva.Found.{FirstFound, find_record-FirstFound, find_record-only}
use himu_os.Kva.Backing.{page_of}
use himu_os.Kva.Clear.{FreeUnmapped}

-- A record of the heap has no guards and owns its pages, which are all backed.
abbrev pub IsFull : {M : Type 0} → (M → ℕ → Type 0) → Kva → M → RangeRecord → Type 0
IsFull backed s m r =
    (r.owns_physical_backing ≡ true)
    × (◌≡◌ {A = ℕ} r.guard_lower_pages 0)
    × (r.total_pages ≡ r.usable_pages)
    × ((k : ℕ) → k < r.usable_pages → backed m (page_of (usable_base (arena_at s 2) r) k))

pub record IsHeap {M : Type 0} (os : Machine M) (backed : M → ℕ → Type 0) (s : Kva) (m : M)
    : Type 0 where
  pub valid : IsKva s
  pub on : s.initialized ≡ true
  pub clear : FreeUnmapped os s m
  pub aligned : ((arena_at s 2).base_address % 4096 ≡ 0) × (0 < (arena_at s 2).base_address)
  pub apart :
      (t : ℕ)
      → t < 3
      → t ≢ 2
      → ((arena_at s t).base_address + (arena_at s t).page_count * 4096
          ≤ (arena_at s 2).base_address)
        ⊎ ((arena_at s 2).base_address + (arena_at s 2).page_count * 4096
            ≤ (arena_at s t).base_address)
  pub full :
      (i : ℕ)
      → (record_at s i).in_use ≡ true
      → (record_at s i).arena ≡ 2
      → IsFull backed s m (record_at s i)

-- A range of the heap in use starts at the address.
abbrev pub IsBase : Kva → ℕ → Type 0
IsBase s a =
    (i : ℕ) × (i < 512)
    × ((record_at s i).in_use ≡ true)
    × ((record_at s i).arena ≡ 2)
    × (usable_base (arena_at s 2) (record_at s i) ≡ a)

module _ {M : Type 0} (os : Machine M) (backed : M → ℕ → Type 0) (s : Kva) (m : M)
    (h : IsHeap os backed s m) where
  -- The first page of a range that is in use is its own.
  pub usable_span :
      (i : ℕ)
      → (record_at s i).in_use ≡ true
      → InSpan
          (record_at s i)
          (record_at s i).arena
          ((record_at s i).base_page_index + (record_at s i).guard_lower_pages)
  usable_span i used =
      let (arena, fits, total, some_pages, generation, states) = h.valid.held i used in
      (refl, omega arith, omega (arith, total, some_pages))

  pub usable_value :
      (i : ℕ)
      → (record_at s i).in_use ≡ true
      → usable_base (arena_at s (record_at s i).arena) (record_at s i)
        ≡ (arena_at s (record_at s i).arena).base_address
          + ((record_at s i).base_page_index + (record_at s i).guard_lower_pages) * 4096
  usable_value i used =
      let (arena, fits, total, some_pages, generation, states) = h.valid.held i used in
      omega (arith, fits, total, some_pages, h.valid.reach (record_at s i).arena arena)

  -- Only one range in use starts at an address of the heap.
  pub base_unique :
      (a i j : ℕ)
      → (record_at s i).in_use ≡ true
      → (record_at s i).arena ≡ 2
      → usable_base (arena_at s 2) (record_at s i) ≡ a
      → (record_at s j).in_use ≡ true
      → usable_base (arena_at s (record_at s j).arena) (record_at s j) ≡ a
      → j ≡ i
  base_unique a i j used heap at used' at' =
      let ri = record_at s i in
      let rj = record_at s j in
      let value : a
          ≡ (arena_at s 2).base_address + (ri.base_page_index + ri.guard_lower_pages) * 4096 =
        sym at
        ∙ subst
            (λ t.
              usable_base (arena_at s t) ri
              ≡ (arena_at s t).base_address + (ri.base_page_index + ri.guard_lower_pages) * 4096)
            heap (usable_value i used) in
      let value' = sym at' ∙ usable_value j used' in
      let span = usable_span i used in
      let span' = usable_span j used' in
      let fits : ri.base_page_index + ri.total_pages ≤ (arena_at s 2).page_count =
        subst (λ t. ri.base_page_index + ri.total_pages ≤ (arena_at s t).page_count) heap
          (h.valid.held i used).1 in
      let (arena', fits', _, _, _, _) = h.valid.held j used' in
      elim (Bool-cases (rj.arena == 2)) [
        | inl e ↦
            let heap' : rj.arena ≡ 2 = ground arith in
            let base : (arena_at s rj.arena).base_address ≡ (arena_at s 2).base_address =
              ap (λ t. (arena_at s t).base_address) heap' in
            h.valid.apart j i 2 (ri.base_page_index + ri.guard_lower_pages) used' used
              (
                heap',
                omega (arith, value, value', base, span'.1),
                omega (arith, value, value', base, span'.2),
              )
              (heap, span.1, span.2)
        | inr e ↦ absurd (elim (h.apart rj.arena arena' (ground arith)) [
          | inl low ↦ omega (arith, low, value, value', span'.2, fits')
          | inr high ↦ omega (arith, high, value, value', span.2, fits)
        ])
      ]

  -- The lookup finds it.
  pub IsBase-found : (a : ℕ) (b : IsBase s a) → find_record_by_usable_base s a ≡ some b.0
  unfolding find_record_by_usable_base has_usable_base
  IsBase-found a (i, inside, used, heap, at) =
      let same : usable_base (arena_at s (record_at s i).arena) (record_at s i) ≡ a =
        ap (λ t. usable_base (arena_at s t) (record_at s i)) heap ∙ at in
      find_record-only (has_usable_base s a) s.ranges i (omega (arith, h.valid.record_count))
        (ground (arith, used, heap, same))
        (λ j hj pass. base_unique a i j used heap at (ground (arith, pass)) (ground (arith, pass)))

  pub found-IsBase :
      (a i : ℕ) → find_record_by_usable_base s a ≡ some i → (record_at s i).arena ≡ 2 → IsBase s a
  unfolding find_record_by_usable_base has_usable_base
  found-IsBase a i found heap =
      let (k, hk, here, pass, first) =
        subst (FirstFound (has_usable_base s a) s.ranges 0) found
          (find_record-FirstFound (has_usable_base s a) s.ranges 0) in
      let same : i ≡ k = omega arith in
      let test : has_usable_base s a (record_at s i) ≡ true =
        subst (λ x. has_usable_base s a (record_at s x) ≡ true) (sym same) pass in
      let at : usable_base (arena_at s (record_at s i).arena) (record_at s i) ≡ a =
        ground (arith, test) in
      (
        i,
        omega (arith, hk, h.valid.record_count),
        ground (arith, test),
        heap,
        sym (ap (λ t. usable_base (arena_at s t) (record_at s i)) heap) ∙ at,
      )

-- How often a page is the base of a range of the heap.
abbrev pub held_at : Kva → Option ℕ → ℕ
held_at s none = 0
held_at s (some i) = if (record_at s i).arena == 2 then 1 else 0

abbrev pub base_count : Kva → ℕ → ℕ
base_count s a = held_at s (find_record_by_usable_base s a)

module _ {M : Type 0} (os : Machine M) (backed : M → ℕ → Type 0) (s : Kva) (m : M)
    (h : IsHeap os backed s m) where
  pub base_count-some : (a : ℕ) → IsBase s a → base_count s a ≡ 1
  base_count-some a b =
      let (i, inside, used, heap, at) = b in
      let here : ((record_at s i).arena == 2) ≡ true = ground arith in
      ap (held_at s) (IsBase-found os backed s m h a b) ∙ rw here refl

  pub base_count-none : (a : ℕ) → ¬ IsBase s a → base_count s a ≡ 0
  base_count-none a lost = by (find_record_by_usable_base s a) refl
    where
      by : (o : Option ℕ) → find_record_by_usable_base s a ≡ o → held_at s o ≡ 0
      by none e = refl
      by (some i) e = elim (Bool-cases ((record_at s i).arena == 2)) [
        | inl q ↦ absurd (lost (found-IsBase os backed s m h a i e (ground arith)))
        | inr q ↦ rw q refl
      ]

  pub IsBase-cases : (a : ℕ) → IsBase s a ⊎ ¬ IsBase s a
  IsBase-cases a = by (find_record_by_usable_base s a) refl
    where
      by : (o : Option ℕ) → find_record_by_usable_base s a ≡ o → IsBase s a ⊎ ¬ IsBase s a
      by none e = inr (λ b. absurd (cc (e, IsBase-found os backed s m h a b)))
      by (some i) e = elim (Bool-cases ((record_at s i).arena == 2)) [
        | inl q ↦ inl (found-IsBase os backed s m h a i e (ground arith))
        | inr q ↦ inr (λ b.
            let same : i ≡ b.0 = some-injective _ _ (sym e ∙ IsBase-found os backed s m h a b) in
            let other : (record_at s b.0).arena ≢ 2 =
              subst (λ j. (record_at s j).arena ≢ 2) same (ground arith) in
            other b.3)
      ]

-- The counts where the bases are the same, one more, or one less.
module _ {M : Type 0} (os : Machine M) (backed : M → ℕ → Type 0) (s s' : Kva) (m m' : M)
    (h : IsHeap os backed s m) (h' : IsHeap os backed s' m') where
  pub base_count-same :
      (a : ℕ)
      → (IsBase s a → IsBase s' a)
      → (IsBase s' a → IsBase s a)
      → base_count s' a ≡ base_count s a
  base_count-same a to from = elim (IsBase-cases os backed s m h a) [
    | inl b ↦
        base_count-some os backed s' m' h' a (to b) ∙ sym (base_count-some os backed s m h a b)
    | inr n ↦
        base_count-none os backed s' m' h' a (λ b. n (from b))
        ∙ sym (base_count-none os backed s m h a n)
  ]
