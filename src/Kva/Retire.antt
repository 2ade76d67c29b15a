-- ===== src/Kva/Retire.antt =====
-- The invariant is kept where a free page is retired.
use himu_os.Prelude.{
  ℕ, ◌+◌, ◌≤◌, ◌<◌, ◌≡◌, ◌≢◌, ◌⊎◌, inl, inr, refl, sym, subst, ap, ◌∙◌, true, ◌==◌, Bool-cases,
  length, arith,
}
use himu_os.Kva.State.{Kva, record_at, page_state}
use himu_os.Kva.Invariant.{
  Holds, InSpan, IsOwned, IsKva, Paints, Records, span-live, run-cases, other-Holds, keep-IsKva,
}

module _ (s s' : Kva) (t page : ℕ) (v : IsKva s) (inside : t < 3)
    (free : ◌≡◌ {A = ℕ} (page_state s t page) 0) (p : Paints s s' t page 1 (λ k. 3))
    (same : s'.ranges ≡ s.ranges) where
  -- The records are those of before.
  record-same : (i : ℕ) → record_at s' i ≡ record_at s i
  record-same i = rw same refl

  used-before : (i : ℕ) → (record_at s' i).in_use ≡ true → (record_at s i).in_use ≡ true
  used-before i on = subst (λ q. q.in_use ≡ true) (record-same i) on

  span-before : (i u q : ℕ) → InSpan (record_at s' i) u q → InSpan (record_at s i) u q
  span-before i u q span = subst (λ r. InSpan r u q) (record-same i) span

  all-Records : Records s s' 0 (record_at s 0)
  all-Records = record {
    written = record-same 0;
    others = λ i ne. record-same i;
    number = ap length same;
  }

  still-held : (i : ℕ) → (record_at s' i).in_use ≡ true → Holds s' (record_at s' i)
  still-held i on = subst (Holds s') (sym (record-same i)) (
      other-Holds s s' t page 1 (λ k. 3) 0 (record_at s 0) v p all-Records inside (omega arith)
        (record_at s i) (v.held i (used-before i on))
        (λ k h arena. elim (run-cases page 1 ((record_at s i).base_page_index + k)) [
          | inr out ↦ out
          | inl (j, hj, e) ↦
              let here : (record_at s i).base_page_index + k ≡ page = omega arith in
              let live =
                span-live s v i t ((record_at s i).base_page_index + k) (used-before i on)
                  (arena, omega arith, omega arith) in
              absurd (
                omega (
                  arith,
                  free,
                  subst
                      (λ x. (◌≡◌ {A = ℕ} (page_state s t x) 1) ⊎ (◌≡◌ {A = ℕ} (page_state s t x) 2))
                      here live,
                ))
        ]))

  still-IsOwned : (u q : ℕ) → u < 3 → IsOwned s' u q
  still-IsOwned u q hu = elim (Bool-cases (u == t)) [
    | inr e ↦ outside (inl (ground arith)) (v.owned u q hu)
    | inl e ↦ elim (run-cases page 1 q) [
      | inr out ↦ outside (inr out) (v.owned u q hu)
      | inl (k, hk, here) ↦
          let arena : u ≡ t = ground arith in rw (arena, here) (inr (inl (p.inside k hk)))
    ]
  ]
    where
      outside : (u ≢ t) ⊎ ((q < page) ⊎ (page + 1 ≤ q)) → IsOwned s u q → IsOwned s' u q
      outside out (inl e) = inl (p.outside u q out ∙ e)
      outside out (inr (inl e)) = inr (inl (p.outside u q out ∙ e))
      outside out (inr (inr (i, hi, on, span))) = inr (
          inr (
            i,
            hi,
            subst (λ r. r.in_use ≡ true) (sym (record-same i)) on,
            subst (λ r. InSpan r u q) (sym (record-same i)) span,
          ))

  pub retired-IsKva : IsKva s'
  retired-IsKva =
      keep-IsKva s s' t page 1 (λ k. 3) 0 (record_at s 0) v p all-Records inside (omega arith)
        still-held
        (λ i j u q oi oj si sj.
          v.apart i j u q (used-before i oi) (used-before j oj) (span-before i u q si)
            (span-before j u q sj))
        still-IsOwned (v.numbered 0 (omega arith))
