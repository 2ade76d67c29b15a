-- ===== src/Kva/Occupy.antt =====
-- The invariant is kept where a record is put in use on pages that were free.
use himu_os.Prelude.{
  ℕ, ◌+◌, ◌-◌, ◌≤◌, ◌<◌, ◌≡◌, ◌≢◌, ◌⊎◌, inl, inr, refl, sym, subst, ◌∙◌, true, false, ◌==◌,
  Bool-cases, arith,
}
use himu_os.Kva.State.{RangeRecord, Kva, record_at, page_state}
use himu_os.Kva.Arena.{layout_state}
use himu_os.Kva.Invariant.{
  Holds, InSpan, IsOwned, IsKva, Paints, Records, span-live, run-cases, other-Holds, keep-IsKva,
  kept, kept-InSpan,
}

module _ (s s' : Kva) (idx : ℕ) (r : RangeRecord) (v : IsKva s) (w : Records s s' idx r)
    (at : idx < 512) where
  -- A record is put in use on pages that were free.
  module _
      (p : Paints s s' r.arena r.base_page_index r.total_pages
        (layout_state r.guard_lower_pages r.usable_pages))
      (on : r.in_use ≡ true) (new : Holds s' r)
      (free : (k : ℕ)
        → k < r.total_pages
        → ◌≡◌ {A = ℕ} (page_state s r.arena (r.base_page_index + k)) 0) where
    -- No record in use covers a page of the new one.
    taken-apart :
        (i page : ℕ)
        → (record_at s i).in_use ≡ true
        → InSpan (record_at s i) r.arena page
        → InSpan r r.arena page
        → ⊥
    taken-apart i page used span (_, rlo, rhi) =
        let there : r.base_page_index + (page - r.base_page_index) ≡ page = omega arith in
        let gone : ◌≡◌ {A = ℕ} (page_state s r.arena page) 0 =
          subst (λ x. ◌≡◌ {A = ℕ} (page_state s r.arena x) 0) there
            (free (page - r.base_page_index) (omega arith)) in
        omega (arith, gone, span-live s v i r.arena page used span)

    taken-held : (i : ℕ) → (record_at s' i).in_use ≡ true → Holds s' (record_at s' i)
    taken-held i used = elim (Bool-cases (i == idx)) [
      | inl e ↦
          let same : i ≡ idx = ground arith in
          subst (λ j. Holds s' (record_at s' j)) (sym same) (subst (Holds s') (sym w.written) new)
      | inr e ↦
          let ne : i ≢ idx = ground arith in
          subst (Holds s') (sym (w.others i ne)) (
            other-Holds s s' r.arena r.base_page_index r.total_pages
              (layout_state r.guard_lower_pages r.usable_pages) idx r v p w new.0 at (record_at s i)
              (v.held i (kept s s' idx r v w at i ne used))
              (λ k h same.
                elim (run-cases r.base_page_index r.total_pages
                  ((record_at s i).base_page_index + k)) [
                    | inr out ↦ out
                    | inl (j, hj, e) ↦ absurd (
                        taken-apart i ((record_at s i).base_page_index + k)
                          (kept s s' idx r v w at i ne used) (same, omega arith, omega arith)
                          (refl, omega arith, omega arith))
                  ]))
    ]

    -- Both spans of a page are the same record's: of two, at most one is the new one.
    taken-IsApart :
        (i j u page : ℕ)
        → (record_at s' i).in_use ≡ true
        → (record_at s' j).in_use ≡ true
        → InSpan (record_at s' i) u page
        → InSpan (record_at s' j) u page
        → i ≡ j
    taken-IsApart i j u page ui uj si sj = elim (Bool-cases (i == idx)) [
      | inl ei ↦
          let same_i : i ≡ idx = ground arith in
          elim (Bool-cases (j == idx)) [
            | inl ej ↦ ground arith
            | inr ej ↦ absurd (clash j u page (ground arith) uj sj (new_span i u page same_i si))
          ]
      | inr ei ↦ elim (Bool-cases (j == idx)) [
        | inl ej ↦
            absurd (clash i u page (ground arith) ui si (new_span j u page (ground arith) sj))
        | inr ej ↦
            let ni : i ≢ idx = ground arith in
            let nj : j ≢ idx = ground arith in
            v.apart i j u page (kept s s' idx r v w at i ni ui) (kept s s' idx r v w at j nj uj)
              (kept-InSpan s s' idx r v w at i u page ni si)
              (kept-InSpan s s' idx r v w at j u page nj sj)
      ]
    ]
      where
        new_span : (i u page : ℕ) → i ≡ idx → InSpan (record_at s' i) u page → InSpan r u page
        new_span i u page e span =
            subst (λ q. InSpan q u page) w.written
              (subst (λ j. InSpan (record_at s' j) u page) e span)

        clash :
            (i u page : ℕ)
            → i ≢ idx
            → (record_at s' i).in_use ≡ true
            → InSpan (record_at s' i) u page
            → InSpan r u page
            → ⊥
        clash i u page ne used span (same, lo, hi) =
            taken-apart i page (kept s s' idx r v w at i ne used)
              (subst (λ x. InSpan (record_at s i) x page) (sym same)
                (kept-InSpan s s' idx r v w at i u page ne span))
              (refl, lo, hi)

    taken-IsOwned : (record_at s idx).in_use ≡ false → (u page : ℕ) → u < 3 → IsOwned s' u page
    taken-IsOwned unused u page hu = elim (Bool-cases (u == r.arena)) [
      | inr e ↦ old (inl (ground arith)) (v.owned u page hu)
      | inl e ↦ elim (run-cases r.base_page_index r.total_pages page) [
        | inr out ↦ old (inr out) (v.owned u page hu)
        | inl (k, hk, here) ↦ inr (
            inr (
              idx,
              at,
              subst (λ q. q.in_use ≡ true) (sym w.written) on,
              subst (λ q. InSpan q u page) (sym w.written) (ground arith, omega arith, omega arith),
            ))
      ]
    ]
      where
        old :
            (u ≢ r.arena)
              ⊎ ((page < r.base_page_index) ⊎ (r.base_page_index + r.total_pages ≤ page))
            → IsOwned s u page
            → IsOwned s' u page
        old out (inl e) = inl (p.outside u page out ∙ e)
        old out (inr (inl e)) = inr (inl (p.outside u page out ∙ e))
        old out (inr (inr (i, hi, used, span))) =
            let ne : i ≢ idx = λ same. cc (used, unused, same) in
            inr (
              inr (
                i,
                hi,
                subst (λ q. q.in_use ≡ true) (sym (w.others i ne)) used,
                subst (λ q. InSpan q u page) (sym (w.others i ne)) span,
              ))

    pub taken-IsKva : (record_at s idx).in_use ≡ false → r.record_id ≡ idx + 1 → IsKva s'
    taken-IsKva unused number =
        keep-IsKva s s' r.arena r.base_page_index r.total_pages
          (layout_state r.guard_lower_pages r.usable_pages) idx r v p w new.0 at taken-held
          taken-IsApart (taken-IsOwned unused) number
