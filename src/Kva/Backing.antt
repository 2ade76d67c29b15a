-- ===== src/Kva/Backing.antt =====
-- What the page tables and the page allocator promise on pages mapped to a page of their own, and
-- the teardown of such pages.
use himu_os.Prelude.{
  ℕ, zero, suc, ◌+◌, ◌*◌, ◌^◌, ◌<◌, ◌≡◌, ◌≢◌, ◌⊎◌, inl, inr, refl, sym, subst, Bool, true, false,
  ◌==◌, ok, err, Status, add64, mul64, arith,
}
use himu_os.Kva.Machine.{Mapping, Machine, succeeded, IsUnmapped}
use himu_os.Kva.Release.{Teardown, released, after_free, after_unmap, teardown_page, teardown}
use himu_os.Kva.Mapping.{dropped}

-- An address that was unmapped or backed is so still.
abbrev pub IsKept : {M : Type 0} → Machine M → (M → ℕ → Type 0) → M → M → ℕ → Type 0
IsKept os backed m m' va = (backed m va → backed m' va) × (IsUnmapped os m va → IsUnmapped os m' va)

-- `backed m va`: `va` is mapped to a page that was allocated for it.
pub record IsBacking {M : Type 0} (os : Machine M) (backed : M → ℕ → Type 0) : Type 0 where
  pub alloc_fails : (m : M) (e : Status) → os.alloc_page m ≡ err e → succeeded e ≡ false
  pub maps :
      (m m1 m2 : M) (va pa attributes : ℕ) (st : Status)
      → IsUnmapped os m va
      → os.alloc_page m ≡ ok (m1, pa)
      → os.map_page m1 va pa attributes ≡ (m2, st)
      → succeeded st ≡ true
      → backed m2 va × ((other : ℕ) → va ≢ other → IsKept os backed m m2 other)
  pub map_fails :
      (m m1 m2 : M) (va pa attributes : ℕ) (st : Status)
      → IsUnmapped os m va
      → os.alloc_page m ≡ ok (m1, pa)
      → os.map_page m1 va pa attributes ≡ (m2, st)
      → succeeded st ≡ false
      → (other : ℕ) → IsKept os backed m (dropped os m2 (os.free_page m2 pa)) other
  pub takes :
      (m : M) (va : ℕ)
      → backed m va
      → (mapping : Mapping) × (m1 : M) × (m2 : M) × (os.query_page m va ≡ ok mapping)
        × (mapping.present ≡ true)
        × ((mapping.level == 1) ≡ true)
        × (os.unmap_page m va ≡ ok m1)
        × (os.free_page m1 mapping.physical_base ≡ ok m2)
        × IsUnmapped os m2 va
        × ((other : ℕ) → va ≢ other → IsKept os backed m m2 other)

abbrev pub page_of : ℕ → ℕ → ℕ
page_of base k = add64 base (mul64 k 4096)

module _ {M : Type 0} (os : Machine M) (backed : M → ℕ → Type 0) (laws : IsBacking os backed) where
  abbrev pub Kept : M → M → ℕ → Type 0
  Kept = IsKept os backed

  abbrev pub IsEither : M → ℕ → Type 0
  IsEither m va = backed m va ⊎ IsUnmapped os m va

  pub IsEither-Kept : (m m' : M) (va : ℕ) → Kept m m' va → IsEither m va → IsEither m' va
  IsEither-Kept m m' va kept (inl b) = inl (kept.0 b)
  IsEither-Kept m m' va kept (inr u) = inr (kept.1 u)

  pub Kept-trans : (m m' m'' : M) (va : ℕ) → Kept m m' va → Kept m' m'' va → Kept m m'' va
  Kept-trans m m' m'' va one two = (λ b. two.0 (one.0 b), λ u. two.1 (one.1 u))

  -- A finished teardown of the pages from `page` on.
  abbrev pub Cleared : ℕ → ℕ → ℕ → M → Teardown M → Type 0
  Cleared base left page m r =
      (m' : M) × (r ≡ released m')
      × ((k : ℕ) → k < left → IsUnmapped os m' (page_of base (page + k)))
      × ((va : ℕ) → ((k : ℕ) → k < left → page_of base (page + k) ≢ va) → Kept m m' va)

  -- Pages in front of the end of the address space differ.
  pub pages_differ :
      (base j k : ℕ) → j < k → base + k * 4096 < 2 ^ 64 → page_of base j ≢ page_of base k
  pages_differ base j k less room same = absurd (omega arith)

  -- A page that is unmapped in front of a finished teardown is part of it.
  one_more :
      (base left page : ℕ) (m m' : M) (r : Teardown M)
      → IsUnmapped os m' (page_of base page)
      → base + (page + suc left) * 4096 < 2 ^ 64
      → ((other : ℕ) → page_of base page ≢ other → Kept m m' other)
      → Cleared base left (suc page) m' r
      → Cleared base (suc left) page m r
  one_more base left page m m' r gone room kept (m'', run, cleared, rest) = (
    m'',
    run,
    each,
    λ va out.
        let here : page_of base page ≢ va =
          subst (λ x. page_of base x ≢ va) (omega arith) (out 0 (omega arith)) in
        Kept-trans m m' m'' va (kept va here) (
          rest va
            (λ k h. subst (λ x. page_of base x ≢ va) (omega arith) (out (suc k) (omega arith)))),
  )
    where
      each : (k : ℕ) → k < suc left → IsUnmapped os m'' (page_of base (page + k))
      each zero h =
          let first : page ≡ page + 0 = omega arith in
          subst (λ x. IsUnmapped os m'' (page_of base x)) first
            ((rest (page_of base page) (λ k h' same.
                pages_differ base page (suc page + k) (omega arith) (omega (arith, room, h'))
                  (sym same))).1
              gone)
      each (suc k) h =
          subst (λ x. IsUnmapped os m'' (page_of base x)) (omega arith) (cleared k (omega arith))

  later-IsEither :
      (base left page : ℕ) (m m' : M)
      → base + (page + suc left) * 4096 < 2 ^ 64
      → ((other : ℕ) → page_of base page ≢ other → Kept m m' other)
      → ((k : ℕ) → k < suc left → IsEither m (page_of base (page + k)))
      → (k : ℕ) → k < left
      → IsEither m' (page_of base (suc page + k))
  later-IsEither base left page m m' room kept either k h =
      IsEither-Kept m m' (page_of base (suc page + k))
        (kept (page_of base (suc page + k))
          (pages_differ base page (suc page + k) (omega arith) (omega (arith, room, h))))
        (subst (λ x. IsEither m (page_of base x)) (omega arith) (either (suc k) (omega arith)))

  -- A range whose pages are backed or unmapped is torn down to the end.
  pub teardown-Cleared :
      (base left page : ℕ) (started : Bool) (m : M)
      → base + (page + left) * 4096 < 2 ^ 64
      → ((k : ℕ) → k < left → IsEither m (page_of base (page + k)))
      → Cleared base left page m (teardown os true base left page started m)
  unfolding teardown teardown_page after_unmap after_free
  teardown-Cleared base zero page started m room either =
      (m, refl, (λ k h. absurd (omega arith)), λ va out. (λ b. b, λ u. u))
  teardown-Cleared base (suc left) page started m room either =
      elim (subst (λ x. IsEither m (page_of base x)) first (either 0 (omega arith))) [
        | inr u ↦
            let (mapping, q, absent) = u in
            let same : (other : ℕ) → page_of base page ≢ other → Kept m m other =
              λ other ne. (λ b. b, λ z. z) in
            rw (q, absent)
              (one_more base left page m m _ u room same (
                teardown-Cleared base left (suc page) started m (omega (arith, room))
                  (later-IsEither base left page m m room same either)))
        | inl b ↦
            let (mapping, m1, m2, q, present, level, unmapped, freed, gone, kept) =
              laws.takes m (page_of base page) b in
            rw (q, present, level, unmapped, freed)
              (one_more base left page m m2 _ gone room kept (
                teardown-Cleared base left (suc page) true m2 (omega (arith, room))
                  (later-IsEither base left page m m2 room kept either)))
      ]
    where
      first : page + 0 ≡ page
      first = omega arith
