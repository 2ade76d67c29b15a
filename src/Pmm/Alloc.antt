-- ===== src/Pmm/Alloc.antt =====
-- `alloc_pages` against its contract: first fit, on every branch.
use himu_os.Prelude.{
  ℕ, ◌+◌, ◌-◌, ◌*◌, ◌^◌, ◌≤◌, ◌<◌, ◌≡◌, ◌≢◌, inl, inr, refl, true, false, Option, none, some, ◌==◌,
  leb, Bool-cases, Result, ok, err, ◌>>=◌, ◌>>◌, require, ec_not_enough_memory, arith,
  bit_and-ne_zero, power_of_bit_and, bit_and-power, ==_iff, ◌↔◌, subst, Result-cases,
}
use himu_os.Pmm.Bitmap.{Context}
use himu_os.Pmm.Sink.{
  Constraints, is_power_of_two, align_pages, max_page_index, scan, allocate_at, alloc_pages,
}
use himu_os.Pmm.FirstFit.{FirstFit, scan-FirstFit}
use himu_os.Pmm.Invariant.{IsValid, Puts, mark_allocated-Puts, mark_allocated-IsValid}

-- The two constraints are 64-bit words.
abbrev pub Words : Option Constraints → Type 0
Words none = Unit {0}
Words (some c) = (c.max_phys_addr < 2 ^ 64) × (c.alignment_pages < 2 ^ 64)

-- A power of two of 64 bits is at most 2 ^ 63.
power-le : (a : ℕ) → 1 < a → a < 2 ^ 64 → is_power_of_two a ≡ true → a ≤ 2 ^ 63
unfolding is_power_of_two
power-le a h w p = elim (Bool-cases (leb a (2 ^ 63))) [
  | inl e ↦ ground arith
  | inr e ↦ absurd (
      bit_and-ne_zero 63 a (a - 1) (ground arith) (omega arith) (ground arith) (omega arith)
        (ground arith))
]

align_bounds :
    (c : Option Constraints) (align : ℕ)
    → Words c
    → align_pages c ≡ ok align
    → (0 < align) × (align ≤ 2 ^ 63)
unfolding align_pages
align_bounds none align w e = ground arith
align_bounds (some c) align w e = ground (arith, power-le c.alignment_pages)

pub max_page_index-le :
    (ctx : Context) (c : Option Constraints) (max : ℕ)
    → max_page_index ctx c ≡ ok max
    → max ≤ ctx.total_managed_pages
unfolding max_page_index
max_page_index-le ctx none max e = ground arith
max_page_index-le ctx (some c) max e = ground arith

-- What an allocation of `count` pages promises, at an alignment and a limit in pages.
abbrev pub FirstFitAlloc : Context → ℕ → ℕ → ℕ → Result (Context × ℕ) → Type 0
FirstFitAlloc ctx count align max (ok (ctx', base)) =
    (i : ℕ) × (base ≡ ctx.managed_base_phys + i * 4096)
    × FirstFit ctx count align max 0 (some i)
    × Puts ctx i count 1 ctx'
    × IsValid ctx'
FirstFitAlloc ctx count align max (err e) =
    (e ≡ ec_not_enough_memory) × FirstFit ctx count align max 0 none

module _ (ctx : Context) (count align max : ℕ) (v : IsValid ctx)
    (below : max ≤ ctx.total_managed_pages) (some_pages : 0 < count) where
  allocate_at-FirstFitAlloc :
      (r : Option ℕ)
      → FirstFit ctx count align max 0 r
      → FirstFitAlloc ctx count align max (allocate_at ctx count r)
  allocate_at-FirstFitAlloc none least = (refl, least)
  allocate_at-FirstFitAlloc (some i) (lo, fits, least) = (
    i,
    omega (arith, fits.below, v.reach),
    (lo, fits, least),
    mark_allocated-Puts ctx i count v (omega (arith, fits.below)),
    mark_allocated-IsValid ctx i count v (omega (arith, fits.below)) fits.all_free,
  )

-- On an accepted request, `alloc_pages` returns the lowest run of free pages that is aligned and
-- under the limit, marks exactly that run and keeps the invariant; it fails with
-- EC_NOT_ENOUGH_MEMORY, and only when there is no such run. `align` and `max` are what the
-- constraints come to.
pub alloc_pages-FirstFitAlloc :
    (ctx : Context) (count : ℕ) (c : Option Constraints) (align max : ℕ)
    → IsValid ctx
    → Words c
    → 0 < count
    → align_pages c ≡ ok align
    → max_page_index ctx c ≡ ok max
    → FirstFitAlloc ctx count align max (alloc_pages ctx count c)
unfolding alloc_pages
alloc_pages-FirstFitAlloc ctx count c align max v w pos ea em =
    let below = max_page_index-le ctx c max em in
    let bounds = align_bounds c align w ea in
    let positive : (count == 0) ≡ false = ground arith in
    rw (positive, ea, em)
      (elim (Bool-cases (leb count max)) [
        | inl e ↦ rw e (
            allocate_at-FirstFitAlloc ctx count align max v below pos _ (
              scan-FirstFit ctx count align max bounds.0 bounds.1 (omega (arith, v.reach))
                (ground arith) (max + 1) 0 (omega arith) (omega arith)))
        | inr e ↦ rw e (refl, λ k lo f. absurd (ground (arith, f.below)))
      ])

-- The alignment test is what its comment says: it accepts the powers of two.
is_power_of_two_iff : (a : ℕ) → 0 < a → (is_power_of_two a ≡ true) ↔ ((k : ℕ) × (a ≡ 2 ^ k))
unfolding is_power_of_two
is_power_of_two_iff a pos = (
  λ h. power_of_bit_and a pos ((==_iff _ _).0 h),
  λ p. let e = p.1 in rw e ((==_iff _ _).1 (bit_and-power p.0)),
)

max_page_index-limit :
    (ctx : Context) (c : Constraints) (max : ℕ)
    → IsValid ctx
    → c.max_phys_addr < 2 ^ 64
    → c.max_phys_addr ≢ 0
    → max_page_index ctx (some c) ≡ ok max
    → ctx.managed_base_phys + max * 4096 ≤ c.max_phys_addr + 1
unfolding max_page_index
max_page_index-limit ctx c max v w set e = ground (arith, v.reach)

-- A request that is granted passed the guards.
pub alloc_pages-accepted :
    (ctx : Context) (count : ℕ) (c : Option Constraints) {r : Context × ℕ}
    → alloc_pages ctx count c ≡ ok r
    → (0 < count)
      × (align : ℕ) × (align_pages c ≡ ok align)
      × (max : ℕ) × (max_page_index ctx c ≡ ok max)
unfolding alloc_pages
alloc_pages-accepted ctx count c done = elim (Result-cases (align_pages c)) [
  | inr (e, p) ↦ absurd (ground arith)
  | inl (align, p) ↦ elim (Result-cases (max_page_index ctx c)) [
    | inr (e, q) ↦ absurd (ground arith)
    | inl (max, q) ↦ (ground arith, align, p, max, q)
  ]
]

-- A run that `alloc_pages` grants under an address limit ends at or below the limit.
alloc_pages-limit :
    (ctx : Context) (count : ℕ) (c : Constraints) (ctx' : Context) (base : ℕ)
    → IsValid ctx
    → Words (some c)
    → c.max_phys_addr ≢ 0
    → alloc_pages ctx count (some c) ≡ ok (ctx', base)
    → base + count * 4096 ≤ c.max_phys_addr + 1
alloc_pages-limit ctx count c ctx' base v w set done =
    let (pos, align, ea, max, em) = alloc_pages-accepted ctx count (some c) done in
    let (i, at, (lo, fits, least), puts, valid) =
      subst (FirstFitAlloc ctx count align max) done
        (alloc_pages-FirstFitAlloc ctx count (some c) align max v w pos ea em) in
    omega (arith, at, fits.below, max_page_index-limit ctx c max v w.0 set em)

-- An address limit of 2 ^ 64 - 1 over memory that begins at address 0 wraps to no pages at all:
-- every allocation of at least one page is refused, whatever is free.
pub alloc_pages-limit_wraps :
    (ctx : Context) (count : ℕ) (c : Constraints) (align : ℕ)
    → ctx.managed_base_phys ≡ 0
    → c.max_phys_addr ≡ 2 ^ 64 - 1
    → 0 < count
    → align_pages (some c) ≡ ok align
    → alloc_pages ctx count (some c) ≡ err ec_not_enough_memory
unfolding alloc_pages max_page_index
alloc_pages-limit_wraps ctx count c align zero_base top pos ea =
    let positive : (count == 0) ≡ false = ground arith in
    rw (positive, ea) (no_pages (max_page_index ctx (some c)) none_left)
  where
    none_left : max_page_index ctx (some c) ≡ ok 0
    none_left = ground arith

    no_pages :
        (r : Result ℕ)
        → r ≡ ok 0
        → (r >>= λ max.
            require (leb count max) ec_not_enough_memory
            >> allocate_at ctx count (scan (max + 1) ctx count align max 0))
          ≡ err ec_not_enough_memory
    no_pages r e = let over : leb count 0 ≡ false = ground arith in rw (e, over) refl
