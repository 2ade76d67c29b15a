-- ===== src/Kva/TornDown.antt =====
-- The teardown loop of a release: which pages a finished one has unmapped and given back.
use himu_os.Prelude.{
  ℕ, zero, suc, ◌≡◌, inl, inr, Bool, true, false, ◌==◌, Bool-cases, Result-cases, ok, add64, mul64,
  arith,
}
use himu_os.Kva.Machine.{Mapping, Machine}
use himu_os.Kva.Release.{
  Teardown, released, refused, panicked, after_free, after_unmap, teardown_page, teardown,
}

-- The pages of a range from `page` on, one after the other: a page that is not present is passed over;
-- one that is present, in a table of level 1, is unmapped, and the physical page behind it is given
-- back to the page allocator where the range owns its backing, and only there.
pub data TearsDown {M : Type 0} (os : Machine M) (owns : Bool) (base : ℕ)
    : ℕ → ℕ → M → M → Type 0 where
  ends : (page : ℕ) (m : M) → TearsDown os owns base 0 page m m
  passes :
      (left page : ℕ) (m m' : M) (mapping : Mapping)
      → os.query_page m (add64 base (mul64 page 4096)) ≡ ok mapping
      → mapping.present ≡ false
      → TearsDown os owns base left (suc page) m m'
      → TearsDown os owns base (suc left) page m m'
  unmaps :
      (left page : ℕ) (m m1 m' : M) (mapping : Mapping)
      → os.query_page m (add64 base (mul64 page 4096)) ≡ ok mapping
      → mapping.present ≡ true
      → mapping.level ≡ 1
      → os.unmap_page m (add64 base (mul64 page 4096)) ≡ ok m1
      → owns ≡ false
      → TearsDown os owns base left (suc page) m1 m'
      → TearsDown os owns base (suc left) page m m'
  gives_back :
      (left page : ℕ) (m m1 m2 m' : M) (mapping : Mapping)
      → os.query_page m (add64 base (mul64 page 4096)) ≡ ok mapping
      → mapping.present ≡ true
      → mapping.level ≡ 1
      → os.unmap_page m (add64 base (mul64 page 4096)) ≡ ok m1
      → owns ≡ true
      → os.free_page m1 mapping.physical_base ≡ ok m2
      → TearsDown os owns base left (suc page) m2 m'
      → TearsDown os owns base (suc left) page m m'

-- Of a teardown that is done.
abbrev pub WhenDone : {M : Type 0} → (M → Type 0) → Teardown M → Type 0
WhenDone P (released m) = P m
WhenDone P (refused e) = Unit {0}
WhenDone P (panicked e) = Unit {0}

when_done :
    {M : Type 0} (P Q : M → Type 0)
    → ((m : M) → P m → Q m)
    → (r : Teardown M) → WhenDone P r
    → WhenDone Q r
when_done P Q f (released m) p = f m p
when_done P Q f (refused e) p = tt
when_done P Q f (panicked e) p = tt

module _ {M : Type 0} (os : Machine M) (owns : Bool) (base : ℕ) where
  -- A page that was unmapped is given back or not, with the rest of the loop as `next`.
  after_unmap-WhenDone :
      (P : M → Type 0) (next : M → Teardown M) (physical : ℕ) (m1 : M)
      → (owns ≡ false → WhenDone P (next m1))
      → ((m2 : M) → owns ≡ true → os.free_page m1 physical ≡ ok m2 → WhenDone P (next m2))
      → WhenDone P (after_unmap os owns physical (ok m1) next)
  unfolding after_unmap after_free
  after_unmap-WhenDone P next physical m1 kept given = elim (Bool-cases owns) [
    | inr o ↦ rw o (kept o)
    | inl o ↦ elim (Result-cases (os.free_page m1 physical)) [
      | inr (e, f) ↦ rw (o, f) tt
      | inl (m2, f) ↦ rw (o, f) (given m2 o f)
    ]
  ]

  pub teardown-TearsDown :
      (left page : ℕ) (started : Bool) (m : M)
      → WhenDone (TearsDown os owns base left page m) (teardown os owns base left page started m)
  unfolding teardown teardown_page after_unmap
  teardown-TearsDown zero page started m = ends page m
  teardown-TearsDown (suc left) page started m =
      let va = add64 base (mul64 page 4096) in
      elim (Result-cases (os.query_page m va)) [
        | inr (e, q) ↦ elim (Bool-cases started) [ inl b ↦ rw (q, b) tt | inr b ↦ rw (q, b) tt ]
        | inl (mapping, q) ↦ elim (Bool-cases mapping.present) [
          | inr absent ↦
              rw (q, absent)
                (when_done _ (TearsDown os owns base (suc left) page m)
                  (λ m'. passes left page m m' mapping q absent)
                  (teardown os owns base left (suc page) started m)
                  (teardown-TearsDown left (suc page) started m))
          | inl present ↦ elim (Bool-cases (mapping.level == 1)) [
            | inr l ↦ elim (Bool-cases started) [
              | inl b ↦ rw (q, present, l, b) tt
              | inr b ↦ rw (q, present, l, b) tt
            ]
            | inl l ↦ elim (Result-cases (os.unmap_page m va)) [
              | inr (e, u) ↦ rw (q, present, l, u) tt
              | inl (m1, u) ↦
                  let whole = TearsDown os owns base (suc left) page m in
                  let next = teardown os owns base left (suc page) true in
                  let one : mapping.level ≡ 1 = ground (arith, l) in
                  rw (q, present, l, u)
                    (after_unmap-WhenDone whole next mapping.physical_base m1
                      (λ o.
                        when_done _ whole (λ m'. unmaps left page m m1 m' mapping q present one u o)
                          (next m1) (teardown-TearsDown left (suc page) true m1))
                      (λ m2 o f.
                        when_done _ whole
                          (λ m'. gives_back left page m m1 m2 m' mapping q present one u o f)
                          (next m2) (teardown-TearsDown left (suc page) true m2)))
            ]
          ]
        ]
      ]
