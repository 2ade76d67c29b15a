-- ===== src/Kva/Mapped.antt =====
-- Mapping the pages of a range that was just allocated: every page is backed, or the range is gone.
use himu_os.Prelude.{
  ℕ, zero, suc, ◌+◌, ◌-◌, ◌*◌, ◌^◌, ◌≤◌, ◌<◌, ◌≡◌, ◌≢◌, ◌⊎◌, inl, inr, refl, sym, subst, ◌∙◌, ap,
  true, false, ◌==◌, leb, Bool-cases, ok, Result-cases, Status, ec_success, arith,
}
use himu_os.Kva.State.{Range, Kva, arena_at, record_at, fill_range, page_address}
use himu_os.Kva.Machine.{Machine, succeeded, IsUnmapped}
use himu_os.Kva.Release.{then_released, released, retire_record, release_range_handle}
use himu_os.Kva.Mapping.{
  Outcome, ended, halted, default_page_attrs, dropped, map_at, map_page, rolled_back, rollback,
  after_map, after_alloc, map_pages, map_owned_at, map_owned_pages,
}
use himu_os.Kva.Invariant.{IsKva}
use himu_os.Kva.Alloc.{Granted}
use himu_os.Kva.RoundTrip.{granted-named, release-torn_down}
use himu_os.Kva.Backing.{
  IsKept, IsBacking, page_of, IsEither-Kept, Kept-trans, pages_differ, teardown-Cleared,
}

-- The range starts at its first page of the heap.
pub usable_lem :
    (s s' : Kva) (count : ℕ) (range : Range) (g : Granted s 2 count 0 0 true s' range)
    → range.usable_base ≡ page_address (arena_at s 2) (g.1 + 0)
unfolding fill_range
usable_lem s s' count range g =
    ap (λ q. q.usable_base) g.10
    ∙ ap (λ q. page_address (arena_at s 2) (q.base_page_index + q.guard_lower_pages)) g.9.written

module _ {M : Type 0} (os : Machine M) (backed : M → ℕ → Type 0) (laws : IsBacking os backed)
    (s s' : Kva) (count : ℕ) (range : Range) (v : IsKva s) (g : Granted s 2 count 0 0 true s' range)
    (on : s'.initialized ≡ true) where
  abbrev page : ℕ → ℕ
  page k = page_of range.usable_base k

  abbrev Outside : M → M → Type 0
  Outside m m' = (va : ℕ) → ((k : ℕ) → k < count → page k ≢ va) → IsKept os backed m m' va

  -- How the mapping of the pages ends.
  abbrev pub IsMapping : M → Outcome (Kva × M) → Type 0
  IsMapping m (halted e) = ⊥
  IsMapping m (ended st (z, m')) =
      ((st ≡ ec_success) × (z ≡ s') × ((k : ℕ) → k < count → backed m' (page k)) × Outside m m')
      ⊎ ((succeeded st ≡ false)
          × (z ≡ retire_record s' g.0)
          × ((k : ℕ) → k < count → IsUnmapped os m' (page k))
          × Outside m m')

  -- The pages lie in front of the end of the address space.
  room : range.usable_base + count * 4096 < 2 ^ 64
  room = omega (arith, usable_lem s s' count range g, g.5, v.reach 2 (omega arith))

  rollback-IsMapping :
      (m0 m : M) (st : Status)
      → succeeded st ≡ false
      → ((k : ℕ) → k < count → backed m (page k) ⊎ IsUnmapped os m (page k))
      → Outside m0 m
      → IsMapping m0 (rollback os s' range st m)
  unfolding rollback rolled_back
  rollback-IsMapping m0 m st lost either outside =
      let (m', run, gone, kept) =
        teardown-Cleared os backed laws range.usable_base count 0 false m (omega (arith, room))
          (λ k h.
            subst (λ x. backed m (page x) ⊎ IsUnmapped os m (page x)) (omega arith) (either k h)) in
      let runs : release_range_handle os s' m range ≡ released (retire_record s' g.0, m') =
        release-torn_down os s s' m 2 count 0 0 true range v g (omega arith) on
        ∙ ap (then_released (λ z. (retire_record s' g.0, z))) run in
      rw runs (
        inr (
          lost,
          refl,
          (λ k h. subst (λ x. IsUnmapped os m' (page x)) (omega arith) (gone k h)),
          λ va out.
              Kept-trans os backed laws m0 m m' va (outside va out)
                (kept va (λ k h. subst (λ x. page x ≢ va) (omega arith) (out k h))),
        ))

  map_page_runs :
      (m : M) (k pa attributes : ℕ)
      → k < count
      → map_page os s' m range k pa attributes ≡ os.map_page m (page k) pa attributes
  unfolding map_page map_at
  map_page_runs m k pa attributes h =
      let named = granted-named os s s' m 2 count 0 0 true range v g (omega arith) on in
      let pages : (record_at s' g.0).usable_pages ≡ count = ap (λ q. q.usable_pages) g.9.written in
      let inside : leb (record_at s' g.0).usable_pages k ≡ false = ground (arith, pages) in
      simp (on, named, inside) refl

  -- The loop in front of page `done`.
  record IsMidway (m0 m : M) (done left : ℕ) : Type 0 where
    total : done + left ≡ count
    before : (k : ℕ) → k < done → backed m (page k)
    behind : (k : ℕ) → k < left → IsUnmapped os m (page (done + k))
    outside : Outside m0 m

  midway-either :
      (m0 m : M) (done left : ℕ)
      → IsMidway m0 m done left
      → (k : ℕ) → k < count
      → backed m (page k) ⊎ IsUnmapped os m (page k)
  midway-either m0 m done left mid k h = elim (Bool-cases (leb done k)) [
    | inr e ↦ inl (mid.before k (ground arith))
    | inl e ↦
        let lo : done ≤ k = ground arith in
        let here : done + (k - done) ≡ k = omega arith in
        inr (
          subst (λ x. IsUnmapped os m (page x)) here
            (mid.behind (k - done) (omega (arith, mid.total))))
  ]

  next-IsMidway :
      (m0 m m' : M) (done left : ℕ)
      → IsMidway m0 m done (suc left)
      → backed m' (page done)
      → ((other : ℕ) → page done ≢ other → IsKept os backed m m' other)
      → IsMidway m0 m' (suc done) left
  next-IsMidway m0 m m' done left mid new kept = record {
    total = omega (arith, mid.total);
    before = λ k h. elim (Bool-cases (k == done)) [
      | inl e ↦ let same : done ≡ k = ground arith in subst (λ x. backed m' (page x)) same new
      | inr e ↦
          let less : k < done = ground arith in
          (kept (page k) (λ same.
              pages_differ os backed laws range.usable_base k done less
                (omega (arith, room, mid.total)) (sym same))).0
            (mid.before k less)
    ];
    behind = λ k h.
        (kept (page (suc done + k)) (
            pages_differ os backed laws range.usable_base done (suc done + k) (omega arith)
              (omega (arith, room, mid.total)))).1
          (subst (λ x. IsUnmapped os m (page x)) (omega arith) (mid.behind (suc k) (omega arith)));
    outside = λ va out.
        Kept-trans os backed laws m0 m m' va (mid.outside va out)
          (kept va (out done (omega (arith, mid.total))));
  }

  after_map-IsMapping :
      (m0 m m1 : M) (done left pa : ℕ) (next : M → Outcome (Kva × M))
      → IsMidway m0 m done (suc left)
      → os.alloc_page m ≡ ok (m1, pa)
      → ((m' : M) → IsMidway m0 m' (suc done) left → IsMapping m0 (next m'))
      → IsMapping m0
          (after_map os s' range pa (os.map_page m1 (page done) pa default_page_attrs) next)
  unfolding after_map
  after_map-IsMapping m0 m m1 done left pa next mid given more =
      by (os.map_page m1 (page done) pa default_page_attrs) refl
    where
      absent : IsUnmapped os m (page done)
      absent = subst (λ x. IsUnmapped os m (page x)) (omega arith) (mid.behind 0 (omega arith))

      by :
          (r : M × Status)
          → os.map_page m1 (page done) pa default_page_attrs ≡ r
          → IsMapping m0 (after_map os s' range pa r next)
      by (m2, st) run = elim (Bool-cases (succeeded st)) [
        | inl won ↦
            let (new, kept) =
              laws.maps m m1 m2 (page done) pa default_page_attrs st absent given run won in
            rw won (more m2 (next-IsMidway m0 m m2 done left mid new kept))
        | inr lost ↦
            let m3 = dropped os m2 (os.free_page m2 pa) in
            let kept =
              laws.map_fails m m1 m2 (page done) pa default_page_attrs st absent given run lost in
            rw lost (
              rollback-IsMapping m0 m3 st lost
                (λ k h.
                  IsEither-Kept os backed laws m m3 (page k) (kept (page k))
                    (midway-either m0 m done (suc left) mid k h))
                (λ va out. Kept-trans os backed laws m0 m m3 va (mid.outside va out) (kept va)))
      ]

  map_pages-IsMapping :
      (left done : ℕ) (m0 m : M)
      → IsMidway m0 m done left
      → IsMapping m0 (map_pages os s' range default_page_attrs left done m)
  unfolding map_pages after_alloc
  map_pages-IsMapping zero done m0 m mid =
      inl (refl, refl, (λ k h. mid.before k (omega (arith, mid.total))), mid.outside)
  map_pages-IsMapping (suc left) done m0 m mid = elim (Result-cases (os.alloc_page m)) [
    | inr (e, q) ↦ rw q (
        rollback-IsMapping m0 m e (laws.alloc_fails m e q) (midway-either m0 m done (suc left) mid)
          mid.outside)
    | inl ((m1, pa), q) ↦
        rw (q, map_page_runs m1 done pa default_page_attrs (omega (arith, mid.total)))
          (after_map-IsMapping m0 m m1 done left pa
            (map_pages os s' range default_page_attrs left (suc done)) mid q
            (λ m' mid'. map_pages-IsMapping left (suc done) m0 m' mid'))
  ]

  -- Where the pages of the range are unmapped, all are backed, or the range is released.
  pub map_owned_pages-IsMapping :
      (m : M)
      → ((k : ℕ) → k < count → IsUnmapped os m (page k))
      → IsMapping m (map_owned_pages os s' m range default_page_attrs)
  unfolding map_owned_pages map_owned_at
  map_owned_pages-IsMapping m absent =
      let named = granted-named os s s' m 2 count 0 0 true range v g (omega arith) on in
      let pages : (record_at s' g.0).usable_pages ≡ count = ap (λ q. q.usable_pages) g.9.written in
      let owns : (record_at s' g.0).owns_physical_backing ≡ true =
        ap (λ q. q.owns_physical_backing) g.9.written in
      let mid : IsMidway m m 0 count = record {
        total = omega arith;
        before = λ k h. absurd (omega arith);
        behind = λ k h. subst (λ x. IsUnmapped os m (page x)) (omega arith) (absent k h);
        outside = λ va out. (λ b. b, λ u. u);
      } in
      simp (on, named, owns, pages) (map_pages-IsMapping count 0 m m mid)
