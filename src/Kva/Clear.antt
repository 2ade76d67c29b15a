-- ===== src/Kva/Clear.antt =====
-- Free pages of the heap are not mapped: what that says of a range that is allocated and of a machine
-- that changed nothing outside the range.
use himu_os.Prelude.{
  ℕ, zero, suc, ◌+◌, ◌≤◌, ◌<◌, ◌≡◌, ◌≢◌, ◌⊎◌, inl, inr, sym, subst, true, ◌==◌, Bool-cases, arith,
}
use himu_os.Kva.State.{Range, Kva, arena_at, page_state, page_address}
use himu_os.Kva.Machine.{Machine, IsUnmapped}
use himu_os.Kva.Invariant.{IsKva}
use himu_os.Kva.Alloc.{Granted}
use himu_os.Kva.Backing.{IsKept, IsBacking, page_of}
use himu_os.Kva.Mapped.{usable_lem}

-- No free page of the heap is mapped.
abbrev pub FreeUnmapped : {M : Type 0} → Machine M → Kva → M → Type 0
FreeUnmapped os s m =
    (p : ℕ)
    → p < (arena_at s 2).page_count
    → ◌≡◌ {A = ℕ} (page_state s 2 p) 0
    → IsUnmapped os m (page_address (arena_at s 2) p)

-- A value of a function below a bound, or none.
search_below : (f : ℕ → ℕ) (n y : ℕ) → ((k : ℕ) × (k < n) × (f k ≡ y)) ⊎ ((k : ℕ) → k < n → f k ≢ y)
search_below f zero y = inr (λ k h. absurd (omega arith))
search_below f (suc n) y = elim (search_below f n y) [
  | inl (k, h, e) ↦ inl (k, omega arith, e)
  | inr off ↦ elim (Bool-cases (f n == y)) [
    | inl e ↦ inl (n, omega arith, ground arith)
    | inr e ↦ inr (λ k h. elim (Bool-cases (k == n)) [
      | inl same ↦ let here : n ≡ k = ground arith in subst (λ x. f x ≢ y) here (ground arith)
      | inr other ↦ off k (ground arith)
    ])
  ]
]

module _ {M : Type 0} (os : Machine M) (backed : M → ℕ → Type 0) (laws : IsBacking os backed)
    (s : Kva) (m : M) (count : ℕ) (v : IsKva s) (clear : FreeUnmapped os s m) where
  never_both : (va : ℕ) → backed m va → IsUnmapped os m va → ⊥
  never_both va b (mapping, q, absent) =
      let (mapping', _, _, q', present, _, _, _, _, _) = laws.takes m va b in
      cc (q, q', present, absent)

  module _ (s' : Kva) (range : Range) (g : Granted s 2 count 0 0 true s' range) where
    abbrev page : ℕ → ℕ
    page k = page_of range.usable_base k

    pub page_lem : (k : ℕ) → k < count → page k ≡ page_address (arena_at s 2) (g.1 + k)
    page_lem k h = omega (arith, usable_lem s s' count range g, g.5, v.reach 2 (omega arith))

    -- The pages of the range were free, and so unmapped.
    pub IsUnmapped-before : (k : ℕ) → k < count → IsUnmapped os m (page k)
    IsUnmapped-before k h =
        subst (IsUnmapped os m) (sym (page_lem k h))
          (clear (g.1 + k) (omega (arith, g.5)) (g.6 k (omega arith)))

    -- A page of the heap outside the range has another address.
    pub page_outside :
        (p : ℕ)
        → p < (arena_at s 2).page_count
        → (p < g.1) ⊎ (g.1 + count ≤ p)
        → (k : ℕ) → k < count
        → page k ≢ page_address (arena_at s 2) p
    page_outside p inside out k h same =
        absurd (omega (arith, page_lem k h, g.5, v.reach 2 (omega arith)))

    abbrev Outside : M → Type 0
    Outside m' = (va : ℕ) → ((k : ℕ) → k < count → page k ≢ va) → IsKept os backed m m' va

    pub backed_still : (m' : M) → Outside m' → (va : ℕ) → backed m va → backed m' va
    backed_still m' outside va b = elim (search_below page count va) [
      | inl (k, h, e) ↦ absurd (never_both va b (subst (IsUnmapped os m) e (IsUnmapped-before k h)))
      | inr out ↦ (outside va out).0 b
    ]

    -- A page that is free in a state with the same addresses.
    pub free_still :
        (z : Kva) (m' : M)
        → ((arena_at z 2).base_address ≡ (arena_at s 2).base_address)
        → ((arena_at z 2).page_count ≡ (arena_at s 2).page_count)
        → Outside m'
        → ((p : ℕ)
            → p < (arena_at s 2).page_count
            → ◌≡◌ {A = ℕ} (page_state z 2 p) 0
            → ((p < g.1) ⊎ (g.1 + count ≤ p)) × (◌≡◌ {A = ℕ} (page_state s 2 p) 0)
              ⊎ IsUnmapped os m' (page_address (arena_at s 2) p))
        → FreeUnmapped os z m'
    free_still z m' base pages outside where_free p inside free =
        let within : p < (arena_at s 2).page_count = omega (arith, pages) in
        subst (λ b. IsUnmapped os m' (page_of b p)) (sym base)
          (elim (where_free p within free) [
            | inr u ↦ u
            | inl (out, was) ↦
                (outside (page_address (arena_at s 2) p) (page_outside p within out)).1
                  (clear p within was)
          ])
