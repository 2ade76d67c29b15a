-- ===== src/Kva/Vacate.antt =====
-- The invariant is kept where the pages of a record are given up and the record is cleared.
use himu_os.Prelude.{
  ℕ, ◌+◌, ◌≤◌, ◌<◌, ◌≡◌, ◌≢◌, ◌⊎◌, inl, inr, refl, sym, subst, ◌∙◌, true, false, ◌==◌, Bool-cases,
  arith,
}
use himu_os.Kva.State.{Kva, record_at, blank_record}
use himu_os.Kva.Invariant.{
  Holds, InSpan, IsOwned, IsKva, Paints, Records, run-cases, other-Holds, keep-IsKva, kept,
  kept-InSpan,
}

module _ (s s' : Kva) (idx state : ℕ) (v : IsKva s) (used : (record_at s idx).in_use ≡ true)
    (w : Records s s' idx (blank_record (idx + 1))) (at : idx < 512)
    (p : Paints s s'
      (record_at s idx).arena
      (record_at s idx).base_page_index
      (record_at s idx).total_pages
      (λ k. state))
    (dead : (◌≡◌ {A = ℕ} state 0) ⊎ (◌≡◌ {A = ℕ} state 3)) where
  -- The record written is not in use any more.
  not_idx : (i : ℕ) → (record_at s' i).in_use ≡ true → i ≢ idx
  not_idx i on same =
      let off : (record_at s' i).in_use ≡ false =
        subst (λ j. (record_at s' j).in_use ≡ false) (sym same)
          (subst (λ q. q.in_use ≡ false) (sym w.written) refl) in
      cc (on, off)

  old : (i : ℕ) → (record_at s' i).in_use ≡ true → (record_at s i).in_use ≡ true
  old i on = kept s s' idx (blank_record (idx + 1)) v w at i (not_idx i on) on

  old-InSpan :
      (i u page : ℕ)
      → (record_at s' i).in_use ≡ true
      → InSpan (record_at s' i) u page
      → InSpan (record_at s i) u page
  old-InSpan i u page on =
      kept-InSpan s s' idx (blank_record (idx + 1)) v w at i u page (not_idx i on)

  given-held : (i : ℕ) → (record_at s' i).in_use ≡ true → Holds s' (record_at s' i)
  given-held i on = subst (Holds s') (sym (w.others i (not_idx i on))) (
      other-Holds s s' (record_at s idx).arena (record_at s idx).base_page_index
        (record_at s idx).total_pages (λ k. state) idx (blank_record (idx + 1)) v p w
        (v.held idx used).0 at (record_at s i) (v.held i (old i on))
        (λ k h same.
          elim (run-cases (record_at s idx).base_page_index (record_at s idx).total_pages
            ((record_at s i).base_page_index + k)) [
              | inr out ↦ out
              | inl (j, hj, e) ↦ absurd (
                  not_idx i on (
                    v.apart i idx (record_at s idx).arena ((record_at s i).base_page_index + k)
                      (old i on) used (same, omega arith, omega arith)
                      (refl, omega arith, omega arith)))
            ]))

  given-IsOwned : (u page : ℕ) → u < 3 → IsOwned s' u page
  given-IsOwned u page hu = elim (Bool-cases (u == (record_at s idx).arena)) [
    | inr e ↦ outside (inl (ground arith)) (v.owned u page hu)
    | inl e ↦
        elim (run-cases (record_at s idx).base_page_index (record_at s idx).total_pages page) [
          | inr out ↦ outside (inr out) (v.owned u page hu)
          | inl (k, hk, here) ↦
              let same : u ≡ (record_at s idx).arena = ground arith in
              rw (same, here) (dead_page k hk dead)
        ]
  ]
    where
      dead_page :
          (k : ℕ)
          → k < (record_at s idx).total_pages
          → (◌≡◌ {A = ℕ} state 0) ⊎ (◌≡◌ {A = ℕ} state 3)
          → IsOwned s' (record_at s idx).arena ((record_at s idx).base_page_index + k)
      dead_page k hk (inl e) = inl (p.inside k hk ∙ e)
      dead_page k hk (inr e) = inr (inl (p.inside k hk ∙ e))

      outside :
          (u ≢ (record_at s idx).arena)
            ⊎ ((page < (record_at s idx).base_page_index)
                ⊎ ((record_at s idx).base_page_index + (record_at s idx).total_pages ≤ page))
          → IsOwned s u page
          → IsOwned s' u page
      outside out (inl e) = inl (p.outside u page out ∙ e)
      outside out (inr (inl e)) = inr (inl (p.outside u page out ∙ e))
      outside out (inr (inr (i, hi, on, span))) = elim (Bool-cases (i == idx)) [
        | inl e ↦
            let same : i ≡ idx = ground arith in
            let here : InSpan (record_at s idx) u page =
              subst (λ j. InSpan (record_at s j) u page) same span in
            absurd (ground (arith, out, here))
        | inr e ↦
            let ne : i ≢ idx = ground arith in
            inr (
              inr (
                i,
                hi,
                subst (λ q. q.in_use ≡ true) (sym (w.others i ne)) on,
                subst (λ q. InSpan q u page) (sym (w.others i ne)) span,
              ))
      ]

  pub given-IsKva : IsKva s'
  given-IsKva =
      keep-IsKva s s' (record_at s idx).arena (record_at s idx).base_page_index
        (record_at s idx).total_pages (λ k. state) idx (blank_record (idx + 1)) v p w
        (v.held idx used).0 at given-held
        (λ i j u page oi oj si sj.
          v.apart i j u page (old i oi) (old j oj) (old-InSpan i u page oi si)
            (old-InSpan j u page oj sj))
        given-IsOwned refl
