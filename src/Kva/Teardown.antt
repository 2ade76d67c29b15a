-- ===== src/Kva/Teardown.antt =====
-- The teardown loop of a release: what a finished one leaves mapped.
use himu_os.Prelude.{
  ℕ, zero, suc, ◌+◌, ◌<◌, ◌≡◌, ◌⊎◌, inl, inr, refl, subst, ◌∙◌, Bool, true, false, ◌==◌, Bool-cases,
  Result, ok, err, Result-cases, add64, mul64, arith,
}
use himu_os.Kva.Machine.{Mapping, Machine, IsUnmapped, IsMachine}
use himu_os.Kva.Release.{
  Teardown, released, refused, panicked, after_free, after_unmap, teardown_page, teardown,
}

-- An address that a finished teardown leaves unmapped.
abbrev pub IsGone : {M : Type 0} → Machine M → ℕ → Teardown M → Type 0
IsGone os va (released m) = IsUnmapped os m va
IsGone os va (refused e) = Unit {0}
IsGone os va (panicked e) = Unit {0}

module _ {M : Type 0} (os : Machine M) (laws : IsMachine os) where
  IsUnmapped-same :
      (m m' : M) (va : ℕ)
      → os.query_page m' va ≡ os.query_page m va
      → IsUnmapped os m va
      → IsUnmapped os m' va
  IsUnmapped-same m m' va same (mapping, e, absent) = (mapping, same ∙ e, absent)

  IsUnmapped-unmap :
      (m m' : M) (va other : ℕ)
      → os.unmap_page m va ≡ ok m'
      → IsUnmapped os m other
      → IsUnmapped os m' other
  IsUnmapped-unmap m m' va other e u = elim (Bool-cases (va == other)) [
    | inl q ↦
        let same : va ≡ other = ground arith in
        subst (IsUnmapped os m') same (laws.unmap_self m m' va e)
    | inr q ↦ IsUnmapped-same m m' other (laws.unmap_other m m' va other e (ground arith)) u
  ]

  -- The steps of a page keep what the rest of the loop keeps.
  module _ (va : ℕ) (next : M → Teardown M)
      (keeps : (m : M) → IsUnmapped os m va → IsGone os va (next m)) where
    after_free-keeps :
        (m : M) (physical : ℕ)
        → IsUnmapped os m va
        → IsGone os va (after_free os (os.free_page m physical) next)
    unfolding after_free
    after_free-keeps m physical u = elim (Result-cases (os.free_page m physical)) [
      | inr (e, q) ↦ rw q tt
      | inl (m', q) ↦
          rw q (keeps m' (IsUnmapped-same m m' va (laws.free_query m m' physical va q) u))
    ]

    -- An unmapping leaves the address unmapped where it was, and where it is the page unmapped.
    after_unmap-keeps :
        (m : M) (page physical : ℕ) (owns : Bool)
        → IsUnmapped os m va ⊎ (page ≡ va)
        → IsGone os va (after_unmap os owns physical (os.unmap_page m page) next)
    unfolding after_unmap
    after_unmap-keeps m page physical owns u = elim (Result-cases (os.unmap_page m page)) [
      | inr (e, q) ↦ rw q tt
      | inl (m', q) ↦
          let done : IsUnmapped os m' va = elim u [
            | inl before ↦ IsUnmapped-unmap m m' page va q before
            | inr same ↦ subst (IsUnmapped os m') same (laws.unmap_self m m' page q)
          ] in
          elim (Bool-cases owns) [
            | inl o ↦ rw (q, o) (after_free-keeps m' physical done)
            | inr o ↦ rw (q, o) (keeps m' done)
          ]
    ]

  module _ (va : ℕ) (owns : Bool) (next : Bool → M → Teardown M)
      (keeps : (b : Bool) (m : M) → IsUnmapped os m va → IsGone os va (next b m)) where
    teardown_page-keeps :
        (started : Bool) (page : ℕ) (m : M)
        → IsUnmapped os m va ⊎ (page ≡ va)
        → IsGone os va (teardown_page os owns started page m (os.query_page m page) next)
    unfolding teardown_page
    teardown_page-keeps started page m u = elim (Result-cases (os.query_page m page)) [
      | inr (e, q) ↦ elim (Bool-cases started) [ inl b ↦ rw (q, b) tt | inr b ↦ rw (q, b) tt ]
      | inl (mapping, q) ↦ elim (Bool-cases mapping.present) [
        | inr absent ↦
            let out : IsUnmapped os m va = elim u [
              | inl before ↦ before
              | inr same ↦ subst (IsUnmapped os m) same (mapping, q, absent)
            ] in
            rw (q, absent) (keeps started m out)
        | inl present ↦ elim (Bool-cases (mapping.level == 1)) [
          | inr l ↦ elim (Bool-cases started) [
            | inl b ↦ rw (q, present, l, b) tt
            | inr b ↦ rw (q, present, l, b) tt
          ]
          | inl l ↦
              rw (q, present, l)
                (after_unmap-keeps va (next true) (keeps true) m page mapping.physical_base owns u)
        ]
      ]
    ]

  -- What holds of every way the loop may go on holds of the step.
  module _ (va : ℕ) (owns : Bool) (next : Bool → M → Teardown M)
      (always : (b : Bool) (m : M) → IsGone os va (next b m)) where
    after_free-always : (r : Result M) → IsGone os va (after_free os r (next true))
    unfolding after_free
    after_free-always (err e) = tt
    after_free-always (ok m) = always true m

    after_unmap-always :
        (physical : ℕ) (r : Result M) → IsGone os va (after_unmap os owns physical r (next true))
    unfolding after_unmap
    after_unmap-always physical (err e) = tt
    after_unmap-always physical (ok m) = elim (Bool-cases owns) [
      | inl o ↦ rw o (after_free-always (os.free_page m physical))
      | inr o ↦ rw o (always true m)
    ]

    teardown_page-always :
        (started : Bool) (page : ℕ) (m : M) (r : Result Mapping)
        → IsGone os va (teardown_page os owns started page m r next)
    unfolding teardown_page
    teardown_page-always true page m (err e) = tt
    teardown_page-always false page m (err e) = tt
    teardown_page-always started page m (ok mapping) = elim (Bool-cases mapping.present) [
      | inr absent ↦ simp absent (always started m)
      | inl present ↦ elim (Bool-cases (mapping.level == 1)) [
        | inl l ↦
            simp (present, l) (after_unmap-always mapping.physical_base (os.unmap_page m page))
        | inr l ↦ elim (Bool-cases started) [
          | inl b ↦ simp (present, l, b) tt
          | inr b ↦ simp (present, l, b) tt
        ]
      ]
    ]

  -- A page unmapped before the loop stays so.
  teardown-keeps :
      (va : ℕ) (owns : Bool) (base left page : ℕ) (started : Bool) (m : M)
      → IsUnmapped os m va
      → IsGone os va (teardown os owns base left page started m)
  unfolding teardown
  teardown-keeps va owns base zero page started m u = u
  teardown-keeps va owns base (suc left) page started m u =
      teardown_page-keeps va owns (teardown os owns base left (suc page))
        (λ b m' u'. teardown-keeps va owns base left (suc page) b m' u') started _ m (inl u)

  -- Every page of the loop is unmapped at its end.
  pub teardown-IsGone :
      (owns : Bool) (base left page : ℕ) (started : Bool) (m : M) (k : ℕ)
      → k < left
      → IsGone os (add64 base (mul64 (page + k) 4096)) (teardown os owns base left page started m)
  unfolding teardown
  teardown-IsGone owns base zero page started m k h = absurd (omega arith)
  teardown-IsGone owns base (suc left) page started m zero h =
      let here : page + 0 ≡ page = omega arith in
      rw here (
        teardown_page-keeps (add64 base (mul64 page 4096)) owns
          (teardown os owns base left (suc page))
          (λ b m' u'.
            teardown-keeps (add64 base (mul64 page 4096)) owns base left (suc page) b m' u')
          started _ m (inr refl))
  teardown-IsGone owns base (suc left) page started m (suc k) h =
      let shift : page + suc k ≡ suc page + k = omega arith in
      rw shift (
        teardown_page-always (add64 base (mul64 (suc page + k) 4096)) owns
          (teardown os owns base left (suc page))
          (λ b m'. teardown-IsGone owns base left (suc page) b m' k (omega arith)) started
          (add64 base (mul64 page 4096)) m _)
