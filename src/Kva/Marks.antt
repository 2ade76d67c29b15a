-- ===== src/Kva/Marks.antt =====
-- What the scans and the marking loops of an arena do.
use himu_os.Prelude.{
  ℕ, zero, suc, ◌+◌, ◌≤◌, ◌<◌, ◌≡◌, ◌⊎◌, inl, inr, refl, subst, ◌∙◌, true, Option, none, some, List,
  ◌==◌, Bool-cases, length, get_or, length-set, get_or-set_self, get_or-set_ne, arith,
}
use himu_os.Kva.Arena.{is_available, first_hole, mark_pages}

-- The pages from `base` on, `count` of them, are free.
abbrev pub AllFree : List ℕ → ℕ → ℕ → Type 0
AllFree states base count = (k : ℕ) → k < count → ◌≡◌ {A = ℕ} (get_or states (base + k) 0) 0

pub is_available_sound :
    (states : List ℕ) (base count : ℕ)
    → is_available states base count ≡ true
    → AllFree states base count
unfolding is_available
is_available_sound states base zero e k h = absurd (omega arith)
is_available_sound states base (suc count) e zero h = ground arith
is_available_sound states base (suc count) e (suc k) h =
    let rest : is_available states (suc base) count ≡ true = ground arith in
    let shift : base + suc k ≡ suc base + k = omega arith in
    rw shift (is_available_sound states (suc base) count rest k (omega arith))

pub is_available_complete :
    (states : List ℕ) (base count : ℕ)
    → AllFree states base count
    → is_available states base count ≡ true
unfolding is_available
is_available_complete states base zero all = refl
is_available_complete states base (suc count) all =
    let here : base ≡ base + 0 = omega arith in
    let first : get_or states base 0 ≡ 0 = rw here (all 0 (omega arith)) in
    let rest : is_available states (suc base) count ≡ true =
      is_available_complete states (suc base) count (λ k h.
        let shift : suc base + k ≡ base + suc k = omega arith in
        rw shift (all (suc k) (omega arith))) in
    ground arith

-- The least base page from `base` on, among `left`, whose `total` pages are free.
abbrev pub LeastHole : List ℕ → ℕ → ℕ → ℕ → Option ℕ → Type 0
LeastHole states total base left none =
    (b : ℕ) → base ≤ b → b < base + left → ¬ AllFree states b total
LeastHole states total base left (some hole) =
    (base ≤ hole)
    × (hole < base + left)
    × AllFree states hole total
    × ((b : ℕ) → base ≤ b → b < hole → ¬ AllFree states b total)

pub length-mark_pages :
    (state_of : ℕ → ℕ) (base count : ℕ) (states : List ℕ)
    → length (mark_pages state_of base count states) ≡ length states
unfolding mark_pages
length-mark_pages state_of base zero states = refl
length-mark_pages state_of base (suc count) states =
    length-set (mark_pages state_of base count states) (base + count) (state_of count)
    ∙ length-mark_pages state_of base count states

module _ (state_of : ℕ → ℕ) (base : ℕ) (states : List ℕ) where
  -- Outside the run nothing changes.
  pub mark_pages-other :
      (count page : ℕ)
      → (page < base) ⊎ (base + count ≤ page)
      → get_or (mark_pages state_of base count states) page 0 ≡ get_or states page 0
  unfolding mark_pages
  mark_pages-other zero page out = refl
  mark_pages-other (suc count) page out =
      get_or-set_ne (mark_pages state_of base count states) (base + count) page (state_of count) 0
        (ground arith)
      ∙ mark_pages-other count page (ground arith)

  -- Inside it the page at an offset has the offset's state.
  pub mark_pages-inside :
      (count k : ℕ)
      → k < count
      → base + count ≤ length states
      → get_or (mark_pages state_of base count states) (base + k) 0 ≡ state_of k
  unfolding mark_pages
  mark_pages-inside zero k h fits = absurd (omega arith)
  mark_pages-inside (suc count) k h fits = elim (Bool-cases (k == count)) [
    | inl e ↦
        let same : k ≡ count = ground arith in
        rw same (
          get_or-set_self (mark_pages state_of base count states) (base + count) (state_of count) 0
            (rw (length-mark_pages state_of base count states) (omega arith)))
    | inr e ↦
        get_or-set_ne (mark_pages state_of base count states) (base + count) (base + k)
          (state_of count) 0 (ground arith)
        ∙ mark_pages-inside count k (ground arith) (omega arith)
  ]

module _ (states : List ℕ) (total : ℕ) where
  pub first_hole-LeastHole :
      (left base : ℕ) → LeastHole states total base left (first_hole states total base left)
  unfolding first_hole
  first_hole-LeastHole zero base = λ b lo hi all. absurd (omega arith)
  first_hole-LeastHole (suc left) base = elim (Bool-cases (is_available states base total)) [
    | inl e ↦ rw e (
      omega arith,
      omega arith,
      is_available_sound states base total e,
      λ b lo hi all. absurd (omega arith),
    )
    | inr e ↦ rw e (
        later (first_hole states total (suc base) left) (first_hole-LeastHole left (suc base))
          (λ all. cc (e, is_available_complete states base total all)))
  ]
    where
      later :
          (r : Option ℕ)
          → LeastHole states total (suc base) left r
          → ¬ AllFree states base total
          → LeastHole states total base (suc left) r
      later none h busy = λ b lo hi all. elim (Bool-cases (b == base)) [
        | inl e ↦ busy (subst (λ x. AllFree states x total) (ground arith) all)
        | inr e ↦ h b (ground arith) (ground arith) all
      ]
      later (some hole) (lo, hi, all, least) busy = (
        omega arith,
        omega arith,
        all,
        λ b blo bhi ball. elim (Bool-cases (b == base)) [
          | inl e ↦ busy (subst (λ x. AllFree states x total) (ground arith) ball)
          | inr e ↦ least b (ground arith) bhi ball
        ],
      )
