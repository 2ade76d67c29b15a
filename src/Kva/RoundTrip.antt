-- ===== src/Kva/RoundTrip.antt =====
-- Allocating a range and releasing it by its handle.
use himu_os.Prelude.{
  ℕ, zero, suc, ◌+◌, ◌^◌, ◌<◌, ◌≡◌, ◌≢◌, inl, inr, refl, sym, subst, ap, ◌∙◌, Bool, true, false,
  ◌==◌, ltb, Bool-cases, none, some, Option-cases, ok, add64, mul64, arith, ec_invalid_state,
}
use himu_os.Kva.State.{
  Arena, RangeRecord, Range, Kva, arena_at, record_at, page_state, fill_range, usable_base,
}
use himu_os.Kva.Range.{alloc_range, find_record_by_id}
use himu_os.Kva.Machine.{Machine, IsUnmapped}
use himu_os.Kva.Release.{
  released, refused, then_released, teardown_page, teardown, released_page_state, retire_record,
  release_record, release_found, release_range_handle,
}
use himu_os.Kva.Invariant.{IsKva, run-cases}
use himu_os.Kva.Alloc.{Granted, Allocated, alloc_range-Allocated}
use himu_os.Kva.Named.{find_record_by_id-fill_range, find_record_by_id_sound}
use himu_os.Kva.Freed.{Vacated, retire_record-Vacated}

module _ {M : Type 0} (os : Machine M) where
  -- A teardown that finds nothing mapped does nothing.
  teardown-idle :
      (owns : Bool) (base left page : ℕ) (m : M)
      → ((k : ℕ) → k < left → IsUnmapped os m (add64 base (mul64 (page + k) 4096)))
      → teardown os owns base left page false m ≡ released m
  unfolding teardown teardown_page
  teardown-idle owns base zero page m absent = refl
  teardown-idle owns base (suc left) page m absent =
      let here : page + 0 ≡ page = omega arith in
      let (mapping, q, out) =
        subst (λ x. IsUnmapped os m (add64 base (mul64 x 4096))) here (absent 0 (omega arith)) in
      rw (q, out)
        (teardown-idle owns base left (suc page) m (λ k h.
          subst (λ x. IsUnmapped os m (add64 base (mul64 x 4096))) (omega arith)
            (absent (suc k) (omega arith))))

pub accepted :
    (s : Kva) (t us gl gu : ℕ) (owns : Bool) {r : Kva × Range}
    → alloc_range s t us gl gu owns ≡ ok r
    → s.initialized ≡ true
unfolding alloc_range
accepted s t us gl gu owns e = ground (arith, e)

fill_range-base :
    (a b : Arena) (r : RangeRecord)
    → a.base_address ≡ b.base_address
    → fill_range a r ≡ fill_range b r
unfolding fill_range
fill_range-base a b r e = rw e refl

-- A handle names nothing where the record of its number is not in use.
pub find_record_by_id-unused :
    (s : Kva) (range : Range) (idx : ℕ)
    → IsKva s
    → range.record_id ≡ idx + 1
    → (record_at s idx).in_use ≡ false
    → find_record_by_id s range ≡ none
unfolding fill_range
find_record_by_id-unused s range idx v number unused =
    elim (Option-cases (find_record_by_id s range)) [
      | inl e ↦ e
      | inr (i, e) ↦
          let named = find_record_by_id_sound s v range i e in
          let same : (record_at s i).record_id ≡ range.record_id = ap (λ q. q.record_id) named.2 in
          let here : i ≡ idx = omega (arith, v.numbered i named.0) in
          absurd (cc (unused, subst (λ j. (record_at s j).in_use ≡ true) here named.1))
    ]

lost-refused :
    {M : Type 0} (os : Machine M) (s : Kva) (m : M) (range : Range)
    → s.initialized ≡ true
    → find_record_by_id s range ≡ none
    → release_range_handle os s m range ≡ refused ec_invalid_state
unfolding release_range_handle release_found
lost-refused os s m range on lost = simp (on, lost) refl

pub retire_record-initialized :
    (s : Kva) (idx : ℕ) → (retire_record s idx).initialized ≡ s.initialized
unfolding retire_record
retire_record-initialized s idx = refl

module _ {M : Type 0} (os : Machine M) (s s' : Kva) (m : M) (t us gl gu : ℕ) (owns : Bool)
    (range : Range) (v : IsKva s) (g : Granted s t us gl gu owns s' range)
    (not_fixmap : t ≢ 1) where
  -- The handle finds the record that the allocation wrote.
  pub granted-named : (s'.initialized ≡ true) → find_record_by_id s' range ≡ some g.0
  granted-named on =
      let v' : IsKva s' = g.11 in
      let w = g.9 in
      let used : (record_at s' g.0).in_use ≡ true =
        subst (λ q. q.in_use ≡ true) (sym w.written) refl in
      let arena : (record_at s' g.0).arena ≡ t = ap (λ q. q.arena) w.written in
      let base : (arena_at s t).base_address ≡ (arena_at s' (record_at s' g.0).arena).base_address =
        sym (ap (λ u. (arena_at s' u).base_address) arena ∙ g.8.bases t) in
      let filled : range ≡ fill_range (arena_at s' (record_at s' g.0).arena) (record_at s' g.0) =
        g.10
        ∙ fill_range-base (arena_at s t) (arena_at s' (record_at s' g.0).arena) (record_at s' g.0)
            base in
      subst (λ q. find_record_by_id s' q ≡ some g.0) (sym filled)
        (find_record_by_id-fill_range s' v' g.0 g.2 used)

  -- Its pages go back to free.
  freed-state : released_page_state s' (record_at s' g.0) ≡ 0
  unfolding released_page_state
  freed-state =
      let arena : (record_at s' g.0).arena ≡ t = ap (λ q. q.arena) g.9.written in
      let other : ((record_at s' g.0).arena == 1) ≡ false = ground arith in rw other refl

  pub restored :
      (s'' : Kva) → Vacated s' g.0 s'' → (u page : ℕ) → page_state s'' u page ≡ page_state s u page
  restored s'' (p, w, v'') u page =
      let r = record_at s' g.0 in
      let arena : r.arena ≡ t = ap (λ q. q.arena) g.9.written in
      let base : r.base_page_index ≡ g.1 = ap (λ q. q.base_page_index) g.9.written in
      let total : r.total_pages ≡ gl + us + gu = ap (λ q. q.total_pages) g.9.written in
      elim (Bool-cases (u == t)) [
        | inr e ↦
            p.outside u page (inl (ground (arith, arena))) ∙ g.8.outside u page (inl (ground arith))
        | inl e ↦ elim (run-cases g.1 (gl + us + gu) page) [
          | inr out ↦
              p.outside u page (inr (omega (arith, base, total))) ∙ g.8.outside u page (inr out)
          | inl (k, hk, here) ↦
              let same : u ≡ t = ground arith in
              rw (same, here)
                (subst (λ x. page_state s'' x (g.1 + k) ≡ page_state s t (g.1 + k)) arena
                  (subst (λ b. page_state s'' r.arena (b + k) ≡ page_state s t (g.1 + k)) base
                    (p.inside k (omega (arith, total)) ∙ freed-state ∙ sym (g.6 k hk))))
        ]
      ]

  -- The release by the handle is the teardown of the range and the writes behind it.
  pub release-torn_down :
      s'.initialized ≡ true
      → release_range_handle os s' m range
        ≡ then_released
            (λ m'. (retire_record s' g.0, m'))
            (teardown os owns range.usable_base us 0 false m)
  unfolding release_range_handle release_found release_record fill_range
  release-torn_down on =
      let r = record_at s' g.0 in
      let arena : r.arena ≡ t = ap (λ q. q.arena) g.9.written in
      let named = find_record_by_id_sound s' g.11 range g.0 (granted-named on) in
      let inside : ltb r.arena 3 ≡ true = ground (arith, (g.11.held g.0 named.1).0) in
      let pages : r.usable_pages ≡ us = ap (λ q. q.usable_pages) g.9.written in
      let backing : r.owns_physical_backing ≡ owns =
        ap (λ q. q.owns_physical_backing) g.9.written in
      let usable : usable_base (arena_at s' r.arena) r ≡ range.usable_base =
        ap (λ q. q.usable_base) named.2 in
      simp (on, granted-named on, inside)
        (ap
            (λ o.
              then_released (λ m'. (retire_record s' g.0, m'))
                (teardown os o (usable_base (arena_at s' r.arena) r) r.usable_pages 0 false m))
            backing
          ∙ ap
              (λ b.
                then_released (λ m'. (retire_record s' g.0, m'))
                  (teardown os owns b r.usable_pages 0 false m))
              usable
          ∙ ap
              (λ n.
                then_released (λ m'. (retire_record s' g.0, m'))
                  (teardown os owns range.usable_base n 0 false m))
              pages)

  release-granted :
      s'.initialized ≡ true
      → ((k : ℕ) → k < us → IsUnmapped os m (add64 range.usable_base (mul64 k 4096)))
      → release_range_handle os s' m range ≡ released (retire_record s' g.0, m)
  release-granted on absent =
      release-torn_down on
      ∙ ap (then_released (λ m'. (retire_record s' g.0, m'))) (
          teardown-idle os owns range.usable_base us 0 m (λ k h.
            subst (λ x. IsUnmapped os m (add64 range.usable_base (mul64 x 4096))) (omega arith)
              (absent k h)))

  given_back :
      s'.initialized ≡ true
      → ((k : ℕ) → k < us → IsUnmapped os m (add64 range.usable_base (mul64 k 4096)))
      → (s'' : Kva) × (release_range_handle os s' m range ≡ released (s'', m))
        × ((u page : ℕ) → page_state s'' u page ≡ page_state s u page)
        × IsKva s''
        × (release_range_handle os s'' m range ≡ refused ec_invalid_state)
  unfolding fill_range
  given_back on absent =
      let named = find_record_by_id_sound s' g.11 range g.0 (granted-named on) in
      let gone = retire_record-Vacated s' g.11 g.0 g.2 named.1 in
      let number : range.record_id ≡ g.0 + 1 =
        sym (ap (λ q. q.record_id) named.2) ∙ g.11.numbered g.0 g.2 in
      let lost : find_record_by_id (retire_record s' g.0) range ≡ none =
        find_record_by_id-unused (retire_record s' g.0) range g.0 gone.2 number
          (ap (λ q. q.in_use) gone.1.written) in
      (
        retire_record s' g.0,
        release-granted on absent,
        restored (retire_record s' g.0) gone,
        gone.2,
        lost-refused os (retire_record s' g.0) m range (retire_record-initialized s' g.0 ∙ on) lost,
      )

-- A range of the stack or heap arena that was allocated and not mapped is released by its handle:
-- the page tables and the page allocator are not touched, every page has the state it had before
-- the allocation, the invariant holds, and the same handle is refused from then on with
-- EC_INVALID_STATE.
pub release_range_handle-alloc_range :
    {M : Type 0} (os : Machine M) (s s' : Kva) (m : M) (t us gl gu : ℕ) (owns : Bool)
    (range : Range)
    → IsKva s
    → us < 2 ^ 64
    → gl < 2 ^ 64
    → gu < 2 ^ 64
    → t ≢ 1
    → alloc_range s t us gl gu owns ≡ ok (s', range)
    → ((k : ℕ) → k < us → IsUnmapped os m (add64 range.usable_base (mul64 k 4096)))
    → (s'' : Kva) × (release_range_handle os s' m range ≡ released (s'', m))
      × ((u page : ℕ) → page_state s'' u page ≡ page_state s u page)
      × IsKva s''
      × (release_range_handle os s'' m range ≡ refused ec_invalid_state)
release_range_handle-alloc_range os s s' m t us gl gu owns range v wu wl wg other e absent =
    let g : Granted s t us gl gu owns s' range =
      subst (Allocated s t us gl gu owns) e (alloc_range-Allocated s t us gl gu owns v wu wl wg) in
    given_back os s s' m t us gl gu owns range v g other (g.15 ∙ accepted s t us gl gu owns e)
      absent
