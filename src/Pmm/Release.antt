-- ===== src/Pmm/Release.antt =====
-- `free_pages` and `reserve_pages` on every branch, and freeing what was allocated.
use himu_os.Prelude.{
  ℕ, ◌+◌, ◌-◌, ◌*◌, ◌/◌, ◌%◌, ◌^◌, ◌≤◌, ◌<◌, ◌≡◌, ◌⊎◌, inl, inr, refl, ◌==◌, leb, Bool-cases,
  Result, ok, err, ◌>>=◌, ◌>>◌, require, ec_illegal_argument, ec_invalid_state, add64, sub64, arith,
}
use himu_os.Pmm.Bitmap.{Context, check_range}
use himu_os.Pmm.Sink.{page_range, mark_free, mark_reserved, free_pages, reserve_pages}
use himu_os.Pmm.Pages.{check_range_sound, check_range_complete}
use himu_os.Pmm.Invariant.{
  IsValid, AllIn, Puts, mark_free-Puts, mark_reserved-Puts, mark_free-IsValid,
  mark_reserved-IsValid,
}

-- The request names `count` managed pages from index `start` on.
abbrev pub Names : Context → ℕ → ℕ → ℕ → Type 0
Names ctx base count start =
    (0 < count)
    × (base ≡ ctx.managed_base_phys + start * 4096)
    × (start + count ≤ ctx.total_managed_pages)

-- Moving a named run from state `a` to state `s`, or refusing and saying why.
abbrev pub Moves : Context → ℕ → ℕ → ℕ → ℕ → Result Context → Type 0
Moves ctx base count a s (ok ctx') =
    (start : ℕ) × Names ctx base count start
    × AllIn ctx start count a
    × Puts ctx start count s ctx'
    × IsValid ctx'
Moves ctx base count a s (err e) =
    ((e ≡ ec_illegal_argument) × ((start : ℕ) → ¬ Names ctx base count start))
    ⊎ ((start : ℕ) × (e ≡ ec_invalid_state)
        × Names ctx base count start
        × (AllIn ctx start count a → ⊥))

-- The guards, for counts up to all pages of the address space.
abbrev Ranged : Context → ℕ → ℕ → Result ℕ → Type 0
Ranged ctx base count (ok start) = Names ctx base count start
Ranged ctx base count (err e) =
    (e ≡ ec_illegal_argument) × ((start : ℕ) → ¬ Names ctx base count start)

module _ (ctx : Context) (base count : ℕ) (v : IsValid ctx) (word : base < 2 ^ 64)
    (size : count ≤ 2 ^ 52) where
  page_range-Ranged : Ranged ctx base count (page_range ctx base count)
  unfolding page_range
  page_range-Ranged = elim (Bool-cases (count == 0)) [
    | inl e ↦ rw (e, Ranged) (refl, λ start n. absurd (ground (arith, n.0)))
    | inr some_pages ↦
        rw (some_pages, Ranged)
          (elim (Bool-cases (base % 4096 == 0)) [
            | inr e ↦ rw (e, Ranged) (refl, λ start n. absurd (ground (arith, n.1, v.aligned)))
            | inl aligned ↦
                rw (aligned, Ranged)
                  (elim (Bool-cases (leb ctx.managed_base_phys base)) [
                    | inr e ↦ rw (e, Ranged) (refl, λ start n. absurd (ground (arith, n.1)))
                    | inl above ↦
                        rw (above, Ranged) (in_table (ground arith) (ground arith) (ground arith))
                  ])
          ])
  ]
    where
      in_table :
          0 < count
          → base % 4096 ≡ 0
          → ctx.managed_base_phys ≤ base
          → Ranged ctx base count (
              require
                (leb
                  (add64 (sub64 base ctx.managed_base_phys / 4096) count)
                  ctx.total_managed_pages)
                ec_illegal_argument
              >> ok (sub64 base ctx.managed_base_phys / 4096))
      in_table pos al ab =
          let index : sub64 base ctx.managed_base_phys / 4096
              ≡ (base - ctx.managed_base_phys) / 4096 =
            omega arith in
          rw (index, Ranged)
            (elim (Bool-cases
              (leb (add64 ((base - ctx.managed_base_phys) / 4096) count) ctx.total_managed_pages)) [
                | inl e ↦ rw (e, Ranged) (pos, omega (arith, v.aligned), ground arith)
                | inr e ↦ rw (e, Ranged) (refl, λ start n. absurd (ground (arith, n.1, n.2)))
              ])

  module _ (a s : ℕ) (mark : ℕ → Context)
      (marks : (start : ℕ)
        → start + count ≤ ctx.total_managed_pages
        → Puts ctx start count s (mark start))
      (keeps : (start : ℕ)
        → start + count ≤ ctx.total_managed_pages
        → AllIn ctx start count a
        → IsValid (mark start)) where
    move-Moves :
        (r : Result ℕ)
        → Ranged ctx base count r
        → Moves ctx base count a s (
            r >>= λ start.
            require (check_range ctx start count a) ec_invalid_state >> ok (mark start))
    move-Moves (err e) refused = inl refused
    move-Moves (ok start) named = elim (Bool-cases (check_range ctx start count a)) [
      | inl e ↦
          let all : AllIn ctx start count a =
            λ j lo hi. check_range_sound ctx start count a j e lo hi in
          rw (e, Moves) (start, named, all, marks start named.2, keeps start named.2 all)
      | inr e ↦
          rw (e, Moves)
            (inr (start, refl, named, λ all. cc (check_range_complete ctx start count a all)))
    ]

  -- `free_pages`, for counts up to 2 ^ 52 pages: a page-aligned run of managed pages that are all
  -- allocated becomes free, nothing else changes and the invariant is kept; a request that names no
  -- such run is EC_ILLEGAL_ARGUMENT, and one that names pages of which some are not allocated is
  -- EC_INVALID_STATE.
  pub free_pages-Moves : Moves ctx base count 1 0 (free_pages ctx base count)
  unfolding free_pages
  free_pages-Moves =
      move-Moves 1 0 (λ start. mark_free ctx start count)
        (λ start fits. mark_free-Puts ctx start count v fits)
        (λ start fits all. mark_free-IsValid ctx start count v fits all) (page_range ctx base count)
        page_range-Ranged

  -- `reserve_pages`, for counts up to 2 ^ 52 pages: the same, from free to reserved.
  reserve_pages-Moves : Moves ctx base count 0 2 (reserve_pages ctx base count)
  unfolding reserve_pages
  reserve_pages-Moves =
      move-Moves 0 2 (λ start. mark_reserved ctx start count)
        (λ start fits. mark_reserved-Puts ctx start count v fits)
        (λ start fits all. mark_reserved-IsValid ctx start count v fits all)
        (page_range ctx base count) page_range-Ranged

-- The overflow of the range guard: from any page but the first of the managed run, a count of
-- 2 ^ 64 less the page's index passes the guards of free and reserve, though the request reaches
-- far past the managed pages.
pub page_range_wraps :
    (ctx : Context) (start : ℕ)
    → IsValid ctx
    → 0 < start
    → start < ctx.total_managed_pages
    → (page_range ctx (ctx.managed_base_phys + start * 4096) (2 ^ 64 - start) ≡ ok start)
      × (ctx.total_managed_pages < start + (2 ^ 64 - start))
unfolding page_range
page_range_wraps ctx start v pos inside =
    (ground (arith, v.reach, v.aligned), omega (arith, v.reach))
