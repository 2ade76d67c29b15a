-- ===== src/Kva/Found.antt =====
-- What the scan of the range records finds, and what the writes of an operation do to a state.
use himu_os.Prelude.{
  ℕ, zero, suc, ◌+◌, ◌≤◌, ◌<◌, ◌≡◌, ◌≢◌, ◌⊎◌, inl, inr, refl, sym, subst, ap, ◌∙◌, Bool, true,
  false, ◌==◌, Bool-cases, Option, none, some, List, [], ◌∷◌, length, get_or, set, length-set,
  get_or-set_self, get_or-set_ne, arith,
}
use himu_os.Kva.State.{Arena, RangeRecord, Kva, no_arena, arena_at, page_state, blank_record}
use himu_os.Kva.Arena.{mark_pages}
use himu_os.Kva.Range.{find_record}
use himu_os.Kva.Marks.{length-mark_pages, mark_pages-other, mark_pages-inside}
use himu_os.Kva.Invariant.{Paints, Records}

-- The scan finds the first record that passes.
abbrev pub FirstFound : (RangeRecord → Bool) → List RangeRecord → ℕ → Option ℕ → Type 0
FirstFound test rs idx none = (j : ℕ) → j < length rs → test (get_or rs j (blank_record 0)) ≡ false
FirstFound test rs idx (some found) =
    (k : ℕ) × (k < length rs)
    × (found ≡ idx + k)
    × (test (get_or rs k (blank_record 0)) ≡ true)
    × ((j : ℕ) → j < k → test (get_or rs j (blank_record 0)) ≡ false)

module _ (test : RangeRecord → Bool) where
  pub find_record-FirstFound :
      (rs : List RangeRecord) (idx : ℕ) → FirstFound test rs idx (find_record test rs idx)
  unfolding find_record
  find_record-FirstFound [] idx = λ j h. absurd (omega arith)
  find_record-FirstFound (r ∷ rs) idx = elim (Bool-cases (test r)) [
    | inl e ↦ rw e (0, omega arith, omega arith, e, λ j h. absurd (omega arith))
    | inr e ↦ rw e (later (find_record test rs (suc idx)) (find_record-FirstFound rs (suc idx)) e)
  ]
    where
      later :
          (o : Option ℕ)
          → FirstFound test rs (suc idx) o
          → test r ≡ false
          → FirstFound test (r ∷ rs) idx o
      later none all fails = before
        where
          before : (j : ℕ) → j < suc (length rs) → test (get_or (r ∷ rs) j (blank_record 0)) ≡ false
          before zero h = fails
          before (suc j) h = all j (omega arith)
      later (some found) (k, hk, at, passes, first) fails =
          (suc k, omega arith, omega arith, passes, before)
        where
          before : (j : ℕ) → j < suc k → test (get_or (r ∷ rs) j (blank_record 0)) ≡ false
          before zero h = fails
          before (suc j) h = first j (omega arith)

-- A record that passes alone is the one found.
pub find_record-only :
    (test : RangeRecord → Bool) (rs : List RangeRecord) (k : ℕ)
    → k < length rs
    → test (get_or rs k (blank_record 0)) ≡ true
    → ((j : ℕ) → j < length rs → test (get_or rs j (blank_record 0)) ≡ true → j ≡ k)
    → find_record test rs 0 ≡ some k
find_record-only test rs k h passes only =
    found (find_record test rs 0) (find_record-FirstFound test rs 0)
  where
    found : (o : Option ℕ) → FirstFound test rs 0 o → o ≡ some k
    found none all = absurd (cc (all k h, passes))
    found (some i) (j, hj, at, pass, first) = ap some (omega (arith, only j hj pass))

module _ (s s' : Kva) (t base count : ℕ) (state_of : ℕ → ℕ) (inside : t < length s.arenas)
    (fits : base + count ≤ length (arena_at s t).page_states)
    (e : s'.arenas
      ≡ set s.arenas t (record (arena_at s t) {
        page_states = mark_pages state_of base count (arena_at s t).page_states;
      })) where
  abbrev painted : Arena
  painted = record (arena_at s t) {
    page_states = mark_pages state_of base count (arena_at s t).page_states;
  }

  here : arena_at s' t ≡ painted
  here = rw e (get_or-set_self s.arenas t painted no_arena inside)

  there : (u : ℕ) → u ≢ t → arena_at s' u ≡ arena_at s u
  there u ne = rw e (get_or-set_ne s.arenas t u painted no_arena (λ q. ne (sym q)))

  alike :
      {A : Type 0} (f : Arena → A)
      → f painted ≡ f (arena_at s t)
      → (u : ℕ) → f (arena_at s' u) ≡ f (arena_at s u)
  alike f same u = elim (Bool-cases (u == t)) [
    | inl q ↦
        let at : u ≡ t = ground arith in
        subst (λ x. f (arena_at s' x) ≡ f (arena_at s x)) (sym at) (ap f here ∙ same)
    | inr q ↦ ap f (there u (ground arith))
  ]

  pub mark_pages-Paints : Paints s s' t base count state_of
  mark_pages-Paints = record {
    inside = λ k h.
        ap (λ a. get_or a.page_states (base + k) 0) here
        ∙ mark_pages-inside state_of base (arena_at s t).page_states count k h fits;
    outside = outside;
    arenas = ap length e ∙ length-set s.arenas t painted;
    sizes =
        alike (λ a. length a.page_states)
          (length-mark_pages state_of base count (arena_at s t).page_states);
    counts = alike (λ a. a.page_count) refl;
    bases = alike (λ a. a.base_address) refl;
    bytes = alike (λ a. a.size_bytes) refl;
  }
    where
      outside :
          (u page : ℕ)
          → (u ≢ t) ⊎ ((page < base) ⊎ (base + count ≤ page))
          → page_state s' u page ≡ page_state s u page
      outside u page (inl ne) = ap (λ a. get_or a.page_states page 0) (there u ne)
      outside u page (inr out) = elim (Bool-cases (u == t)) [
        | inl q ↦
            let at : u ≡ t = ground arith in
            subst (λ x. page_state s' x page ≡ page_state s x page) (sym at)
              (ap (λ a. get_or a.page_states page 0) here
                ∙ mark_pages-other state_of base (arena_at s t).page_states count page out)
        | inr q ↦ ap (λ a. get_or a.page_states page 0) (there u (ground arith))
      ]

pub set-Records :
    (s s' : Kva) (idx : ℕ) (r : RangeRecord)
    → idx < length s.ranges
    → s'.ranges ≡ set s.ranges idx r
    → Records s s' idx r
set-Records s s' idx r h e = record {
  written = rw e (get_or-set_self s.ranges idx r (blank_record 0) h);
  others = λ i ne. rw e (get_or-set_ne s.ranges idx i r (blank_record 0) (λ q. ne (sym q)));
  number = ap length e ∙ length-set s.ranges idx r;
}
