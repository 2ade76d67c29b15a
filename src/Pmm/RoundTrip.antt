-- ===== src/Pmm/RoundTrip.antt =====
-- Freeing what was allocated gives the old page table and counters back.
use himu_os.Prelude.{
  ℕ, zero, suc, ◌+◌, ◌*◌, ◌≤◌, ◌<◌, ◌≡◌, refl, sym, ◌∙◌, inl, inr, Option, Result, ok, err, subst,
  arith,
}
use himu_os.Pmm.Bitmap.{Context, get_state}
use himu_os.Pmm.Sink.{Constraints, free_pages, alloc_pages}
use himu_os.Pmm.Counts.{count_state}
use himu_os.Pmm.Invariant.{IsValid, AllIn, Puts}
use himu_os.Pmm.Alloc.{
  Words, FirstFitAlloc, alloc_pages-FirstFitAlloc, alloc_pages-accepted, max_page_index-le,
}
use himu_os.Pmm.Release.{Names, Moves, free_pages-Moves}

-- Two page tables agree, and so do their counters.
pub record SamePages (c d : Context) : Type 0 where
  pub states : (j : ℕ) → get_state c j ≡ get_state d j
  pub free : c.free_pages ≡ d.free_pages
  pub allocated : c.allocated_pages ≡ d.allocated_pages
  pub reserved : c.reserved_pages ≡ d.reserved_pages

count-states :
    (c d : Context) (s n : ℕ)
    → ((j : ℕ) → get_state c j ≡ get_state d j)
    → count_state c s n ≡ count_state d s n
unfolding count_state
count-states c d s zero same = refl
count-states c d s (suc n) same = ground (arith, same n, count-states c d s n same)

SamePages-of_states :
    (c d : Context)
    → IsValid c
    → IsValid d
    → c.total_managed_pages ≡ d.total_managed_pages
    → ((j : ℕ) → get_state c j ≡ get_state d j)
    → SamePages c d
SamePages-of_states c d v w total same =
    let counts = λ (s : ℕ).
      subst (λ n. count_state c s c.total_managed_pages ≡ count_state d s n) total
        (count-states c d s c.total_managed_pages same) in
    record {
      states = same;
      free = sym v.free ∙ counts 0 ∙ w.free;
      allocated = sym v.allocated ∙ counts 1 ∙ w.allocated;
      reserved = sym v.reserved ∙ counts 2 ∙ w.reserved;
    }

module _ (ctx ctx' : Context) (base count i : ℕ) (v : IsValid ctx) (v' : IsValid ctx')
    (at : base ≡ ctx.managed_base_phys + i * 4096) (was_free : AllIn ctx i count 0)
    (puts : Puts ctx i count 1 ctx') (inside : i + count ≤ ctx.total_managed_pages)
    (pos : 0 < count) where
  named : Names ctx' base count i
  named = (pos, omega (arith, puts.base), omega (arith, puts.total))

  now_allocated : AllIn ctx' i count 1
  now_allocated j lo hi = ground (arith, puts.states j)

  restored :
      (r : Result Context)
      → Moves ctx' base count 1 0 r
      → (ctx'' : Context) × (r ≡ ok ctx'') × SamePages ctx'' ctx
  restored (err e) (inl (why, none)) = absurd (none i named)
  restored (err e) (inr (start, why, (p, at', q), used)) =
      let same : start ≡ i = omega (arith, puts.base) in absurd (used (rw same now_allocated))
  restored (ok ctx'') (start, (p, at', q), all, back, v'') =
      let same : start ≡ i = omega (arith, puts.base) in
      (
        ctx'',
        refl,
        SamePages-of_states ctx'' ctx v'' v (back.total ∙ puts.total)
            (λ j. ground (arith, back.states j, puts.states j, was_free j)),
      )

-- Pages from `alloc_pages` can be freed, and after that the table and the counters are as before.
pub free_pages-alloc_pages :
    (ctx ctx' : Context) (base count : ℕ) (c : Option Constraints)
    → IsValid ctx
    → Words c
    → alloc_pages ctx count c ≡ ok (ctx', base)
    → (ctx'' : Context) × (free_pages ctx' base count ≡ ok ctx'') × SamePages ctx'' ctx
free_pages-alloc_pages ctx ctx' base count c v w done =
    let (pos, align, ea, max, em) = alloc_pages-accepted ctx count c done in
    let (i, at, (lo, fits, least), puts, v') =
      subst (FirstFitAlloc ctx count align max) done
        (alloc_pages-FirstFitAlloc ctx count c align max v w pos ea em) in
    let inside : i + count ≤ ctx.total_managed_pages =
      omega (arith, fits.below, max_page_index-le ctx c max em) in
    restored ctx ctx' base count i v v' at fits.all_free puts inside pos
      (free_pages ctx' base count)
      (free_pages-Moves ctx' base count v' (omega (arith, v.reach)) (omega (arith, v.reach)))
