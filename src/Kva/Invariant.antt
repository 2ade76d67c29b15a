-- ===== src/Kva/Invariant.antt =====
-- What always holds of the allocator between its operations.
use himu_os.Prelude.{
  ℕ, ◌+◌, ◌-◌, ◌*◌, ◌^◌, ◌≤◌, ◌<◌, ◌≡◌, ◌≢◌, ◌⊎◌, inl, inr, sym, ap, subst, ◌∙◌, true, ◌==◌, leb,
  Bool-cases, length, arith,
}
use himu_os.Kva.State.{RangeRecord, Kva, arena_at, record_at, page_state}
use himu_os.Kva.Arena.{layout_state}

-- A record in use lies in its arena, has its generation, and its pages have the states of its layout.
abbrev pub Holds : Kva → RangeRecord → Type 0
Holds s r =
    (r.arena < 3)
    × (r.base_page_index + r.total_pages ≤ (arena_at s r.arena).page_count)
    × (r.total_pages ≡ r.guard_lower_pages + r.usable_pages + r.guard_upper_pages)
    × (0 < r.usable_pages)
    × (0 < r.generation)
    × ((k : ℕ)
        → k < r.total_pages
        → page_state s r.arena (r.base_page_index + k)
          ≡ layout_state r.guard_lower_pages r.usable_pages k)

abbrev pub InSpan : RangeRecord → ℕ → ℕ → Type 0
InSpan r t page =
    (r.arena ≡ t) × (r.base_page_index ≤ page) × (page < r.base_page_index + r.total_pages)

-- A page that is neither free nor retired is of a record in use.
abbrev pub IsOwned : Kva → ℕ → ℕ → Type 0
IsOwned s t page =
    (◌≡◌ {A = ℕ} (page_state s t page) 0)
    ⊎ ((◌≡◌ {A = ℕ} (page_state s t page) 3)
        ⊎ ((i : ℕ) × (i < 512) × ((record_at s i).in_use ≡ true) × InSpan (record_at s i) t page))

pub record IsKva (s : Kva) : Type 0 where
  pub arena_count : length s.arenas ≡ 3
  pub record_count : length s.ranges ≡ 512
  pub sized : (t : ℕ) → t < 3 → length (arena_at s t).page_states ≡ (arena_at s t).page_count
  pub reach :
      (t : ℕ) → t < 3 → (arena_at s t).base_address + (arena_at s t).page_count * 4096 < 2 ^ 64
  pub size : (t : ℕ) → t < 3 → (arena_at s t).size_bytes ≡ (arena_at s t).page_count * 4096
  pub held : (i : ℕ) → (record_at s i).in_use ≡ true → Holds s (record_at s i)
  pub apart :
      (i j t page : ℕ)
      → (record_at s i).in_use ≡ true
      → (record_at s j).in_use ≡ true
      → InSpan (record_at s i) t page
      → InSpan (record_at s j) t page
      → i ≡ j
  pub owned : (t page : ℕ) → t < 3 → IsOwned s t page
  pub numbered : (i : ℕ) → i < 512 → (record_at s i).record_id ≡ i + 1

-- `s'` is `s` with the states of `count` pages of arena `t` written.
pub record Paints (s s' : Kva) (t base count : ℕ) (state_of : ℕ → ℕ) : Type 0 where
  pub inside : (k : ℕ) → k < count → page_state s' t (base + k) ≡ state_of k
  pub outside :
      (u page : ℕ)
      → (u ≢ t) ⊎ ((page < base) ⊎ (base + count ≤ page))
      → page_state s' u page ≡ page_state s u page
  pub arenas : length s'.arenas ≡ length s.arenas
  pub sizes : (u : ℕ) → length (arena_at s' u).page_states ≡ length (arena_at s u).page_states
  pub counts : (u : ℕ) → (arena_at s' u).page_count ≡ (arena_at s u).page_count
  pub bases : (u : ℕ) → (arena_at s' u).base_address ≡ (arena_at s u).base_address
  pub bytes : (u : ℕ) → (arena_at s' u).size_bytes ≡ (arena_at s u).size_bytes

-- `s'` is `s` with record `idx` written.
pub record Records (s s' : Kva) (idx : ℕ) (r : RangeRecord) : Type 0 where
  pub written : record_at s' idx ≡ r
  pub others : (i : ℕ) → i ≢ idx → record_at s' i ≡ record_at s i
  pub number : length s'.ranges ≡ length s.ranges

layout-live : (gl us k : ℕ) → (layout_state gl us k ≡ 1) ⊎ (layout_state gl us k ≡ 2)
unfolding layout_state
layout-live gl us k = ground arith

module _ (s s' : Kva) (t base count : ℕ) (state_of : ℕ → ℕ) (idx : ℕ) (r : RangeRecord)
    (v : IsKva s) (p : Paints s s' t base count state_of) (w : Records s s' idx r) (inside : t < 3)
    (at : idx < 512) where
  -- A record whose pages are not written still holds.
  pub other-Holds :
      (q : RangeRecord)
      → Holds s q
      → ((k : ℕ)
          → k < q.total_pages
          → q.arena ≡ t
          → (q.base_page_index + k < base) ⊎ (base + count ≤ q.base_page_index + k))
      → Holds s' q
  other-Holds q (lo, fits, total, pos, gen, pages) off = (
    lo,
    rw (p.counts q.arena) fits,
    total,
    pos,
    gen,
    λ k h. elim (Bool-cases (q.arena == t)) [
      | inl e ↦ p.outside q.arena (q.base_page_index + k) (inr (off k h (ground arith))) ∙ pages k h
      | inr e ↦ p.outside q.arena (q.base_page_index + k) (inl (ground arith)) ∙ pages k h
    ],
  )

  -- The parts of the invariant on which the records do not bear.
  pub keep-IsKva :
      ((i : ℕ) → (record_at s' i).in_use ≡ true → Holds s' (record_at s' i))
      → ((i j u page : ℕ)
          → (record_at s' i).in_use ≡ true
          → (record_at s' j).in_use ≡ true
          → InSpan (record_at s' i) u page
          → InSpan (record_at s' j) u page
          → i ≡ j)
      → ((u page : ℕ) → u < 3 → IsOwned s' u page)
      → r.record_id ≡ idx + 1
      → IsKva s'
  keep-IsKva held apart owned number = record {
    arena_count = p.arenas ∙ v.arena_count;
    record_count = w.number ∙ v.record_count;
    sized = λ u h. p.sizes u ∙ v.sized u h ∙ sym (p.counts u);
    reach = λ u h. rw (p.counts u, p.bases u) (v.reach u h);
    size = λ u h. rw (p.counts u, p.bytes u) (v.size u h);
    held = held;
    apart = apart;
    owned = owned;
    numbered = numbered;
  }
    where
      numbered : (i : ℕ) → i < 512 → (record_at s' i).record_id ≡ i + 1
      numbered i h = elim (Bool-cases (i == idx)) [
        | inl e ↦
            let same : i ≡ idx = ground arith in
            subst (λ j. (record_at s' j).record_id ≡ j + 1) (sym same)
              (ap (λ q. q.record_id) w.written ∙ number)
        | inr e ↦ ap (λ q. q.record_id) (w.others i (ground arith)) ∙ v.numbered i h
      ]

-- The pages of a record in use are allocated or guards.
pub span-live :
    (s : Kva)
    → IsKva s
    → (i t page : ℕ) → (record_at s i).in_use ≡ true
    → InSpan (record_at s i) t page
    → (◌≡◌ {A = ℕ} (page_state s t page) 1) ⊎ (◌≡◌ {A = ℕ} (page_state s t page) 2)
span-live s v i t page used (same, lo, hi) =
    let q = record_at s i in
    let here : q.base_page_index + (page - q.base_page_index) ≡ page = omega arith in
    let live : page_state s t page
        ≡ layout_state q.guard_lower_pages q.usable_pages (page - q.base_page_index) =
      subst
        (λ x.
          page_state s t x
          ≡ layout_state q.guard_lower_pages q.usable_pages (page - q.base_page_index))
        here
        (subst
          (λ u.
            page_state s u (q.base_page_index + (page - q.base_page_index))
            ≡ layout_state q.guard_lower_pages q.usable_pages (page - q.base_page_index))
          same ((v.held i used).5 (page - q.base_page_index) (omega arith))) in
    omega (arith, live, layout-live q.guard_lower_pages q.usable_pages (page - q.base_page_index))

-- Whether a page is in a run, or how it is not.
pub run-cases :
    (base count page : ℕ)
    → ((k : ℕ) × (k < count) × (page ≡ base + k)) ⊎ ((page < base) ⊎ (base + count ≤ page))
run-cases base count page = elim (Bool-cases (leb base page)) [
  | inr e ↦ inr (ground arith)
  | inl lo ↦ elim (Bool-cases (leb (base + count) page)) [
    | inl e ↦ inr (ground arith)
    | inr hi ↦ inl (page - base, ground arith, ground arith)
  ]
]

module _ (s s' : Kva) (idx : ℕ) (r : RangeRecord) (v : IsKva s) (w : Records s s' idx r)
    (at : idx < 512) where
  -- A record that is not the one written, read in the new state.
  pub kept : (i : ℕ) → i ≢ idx → (record_at s' i).in_use ≡ true → (record_at s i).in_use ≡ true
  kept i ne on = subst (λ q. q.in_use ≡ true) (w.others i ne) on

  pub kept-InSpan :
      (i u page : ℕ) → i ≢ idx → InSpan (record_at s' i) u page → InSpan (record_at s i) u page
  kept-InSpan i u page ne span = subst (λ q. InSpan q u page) (w.others i ne) span
