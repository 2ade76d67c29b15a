-- ===== src/Pool/Shared.antt =====
-- Any interleaving of the critical sections of a pool that several threads share.
use himu_os.Prelude.{
  ℕ, suc, ◌+◌, ◌%◌, ◌^◌, ◌≤◌, ◌<◌, ◌≡◌, ◌≢◌, ◌⊎◌, inl, inr, refl, sym, ap, ◌∙◌, subst, true, List,
  [], ◌∷◌, Option, ◌==◌, ltb, count, if◌then◌else◌, Result, ok, ok-injective, err, Status,
  ec_success, Bool-cases, arith,
}
use himu_os.Pool.Layout.{slots_per_page_of, PreparedPage, lay_out}
use himu_os.Pool.Machine.{Pages, IsPages}
use himu_os.Pool.Operations.{
  dead, Pool, is_alive, Run, returns, panics, try_pop_node, free, note_failed_grow,
  prepare_one_page, publish_prepared_page_and_pop,
}
use himu_os.Pool.Start.{empty_pool, destroy}
use himu_os.Pool.Slots.{IsSlot, IsSlot-inside, IsSlot-apart}
use himu_os.Pool.Stock.{IsWithout}
use himu_os.Pool.World.{
  World, IsWorld, handed, pop-IsWorld, free-IsWorld, Prepares, prepare-Prepares,
}
use himu_os.Pool.Published.{Published, publish-Published, dead_world, destroy-IsWorld}

-- The pending pages without one.
abbrev pub IsTaken : List ℕ → ℕ → List ℕ → Type 0
IsTaken pending b pending' =
    (c : ℕ) → count c pending ≡ (if b == c then suc (count c pending') else count c pending')

far :
    (b b' a a' size : ℕ)
    → b ≢ b'
    → b % 4096 ≡ 0
    → b' % 4096 ≡ 0
    → (b + 8 ≤ a) × (a + size ≤ b + 4096)
    → (b' + 8 ≤ a') × (a' + size ≤ b' + 4096)
    → (a + size ≤ a') ⊎ (a' + size ≤ a)
far b b' a a' size ne e e' one two = elim (Bool-cases (ltb b b')) [
  | inl h ↦ let lt : b < b' = ground arith in inl (omega arith)
  | inr h ↦ let gt : b' < b = ground arith in inr (omega arith)
]

module _ {M : Type 0} (os : Pages M) (held : M → ℕ → ℕ) (size : ℕ) where
  -- One critical section of an allocation, a free or a destruction, or what others do with pages
  -- that are not the pool's. A thread frees what it was given, and prepares a page for slots of the
  -- size that it has read; by then the pool may be gone. A destruction and the release of its
  -- pages, which no list holds any more, are one step.
  pub data Step (w : World M) : World M → Type 0 where
    pops :
        (r : Option ℕ) (p' : Pool)
        → try_pop_node w.pool ≡ ok (r, p')
        → Step w (record w { pool = p'; live = handed r w.live })
    prepares :
        (page : PreparedPage) (m' : M)
        → prepare_one_page os w.machine size ≡ returns (ok page) m'
        → Step w (record w { pending = page.base_virt ∷ w.pending; machine = m' })
    fails :
        (e : Status) (m' : M)
        → prepare_one_page os w.machine size ≡ returns (err e) m'
        → Step w (record w { pool = note_failed_grow w.pool; machine = m' })
    publishes :
        (b : ℕ) (pending' : List ℕ) (r : Option ℕ) (p' : Pool) (m' : M)
        → IsTaken w.pending b pending'
        → w.pool.total_slots + slots_per_page_of size < 2 ^ 32
        → publish_prepared_page_and_pop os w.pool (lay_out b size) w.machine ≡ returns (r, p') m'
        → Step w (record { pool = p'; live = handed r w.live; pending = pending'; machine = m' })
    frees :
        (a : ℕ) (live' : List ℕ) (p' : Pool)
        → IsWithout w.live a live'
        → free w.pool a ≡ ok p'
        → Step w (record w { pool = p'; live = live' })
    destroys :
        (m' : M)
        → is_alive w.pool.magic ≡ true
        → w.live ≡ []
        → destroy os w.pool w.machine ≡ returns (ec_success, empty_pool dead 0 0) m'
        → Step w (dead_world w m')
    others :
        (m' : M)
        → ((b : ℕ) → count b w.pool.page_list + count b w.pending ≤ held m' b)
        → Step w (record w { machine = m' })

  pub data Steps (w : World M) : World M → Type 0 where
    done : Steps w w
    after : (w' w'' : World M) → Steps w w' → Step w' w'' → Steps w w''

  -- Every object handed out is handed out once, on a page that the machine has handed out: behind the
  -- page node, on 8 bytes, and apart from every other object.
  abbrev pub IsExclusive : World M → Type 0
  IsExclusive w =
      ((a : ℕ) → count a w.live ≤ 1)
      × ((a : ℕ)
          → 0 < count a w.live
          → (b : ℕ) × (0 < held w.machine b) × (b + 8 ≤ a) × (a + size ≤ b + 4096) × (a % 8 ≡ 0))
      × ((a a' : ℕ)
          → 0 < count a w.live
          → 0 < count a' w.live
          → (a ≡ a') ⊎ ((a + size ≤ a') ⊎ (a' + size ≤ a)))

  -- No critical section that is due fails an assertion.
  abbrev pub NoPanic : World M → Type 0
  NoPanic w =
      ((r : Option ℕ) × (p' : Pool) × (try_pop_node w.pool ≡ ok (r, p')))
      × ((r : Result PreparedPage) × (m' : M) × (prepare_one_page os w.machine size ≡ returns r m'))
      × ((b : ℕ) (pending' : List ℕ)
          → IsTaken w.pending b pending'
          → w.pool.total_slots + slots_per_page_of size < 2 ^ 32
          → (r : Option ℕ × Pool) × (m' : M) × (publish_prepared_page_and_pop os w.pool
                (lay_out b size) w.machine
              ≡ returns r m'))
      × ((a : ℕ) (live' : List ℕ)
          → IsWithout w.live a live'
          → (p' : Pool) × (free w.pool a ≡ ok p'))
      × (is_alive w.pool.magic ≡ true
          → w.live ≡ []
          → (m' : M) × (destroy os w.pool w.machine ≡ returns (ec_success, empty_pool dead 0 0) m'))

  IsWorld-IsExclusive : (w : World M) → IsWorld held size w → IsExclusive w
  IsWorld-IsExclusive w v = (once, placed, disjoint)
    where
      once : (a : ℕ) → count a w.live ≤ 1
      once a = omega (arith, v.stock.once a)

      placed :
          (a : ℕ)
          → 0 < count a w.live
          → (b : ℕ) × (0 < held w.machine b) × (b + 8 ≤ a) × (a + size ≤ b + 4096) × (a % 8 ≡ 0)
      placed a out =
          let (b, has, slot) = v.stock.placed a (omega arith) in
          let (low, high, eights) = IsSlot-inside size b a v.slot slot in
          (
            b,
            omega (arith, v.owned b, has),
            low,
            high,
            eights (omega (arith, v.stock.aligned b has)),
          )

      disjoint :
          (a a' : ℕ)
          → 0 < count a w.live
          → 0 < count a' w.live
          → (a ≡ a') ⊎ ((a + size ≤ a') ⊎ (a' + size ≤ a))
      disjoint a a' out out' =
          let (b, has, slot) = v.stock.placed a (omega arith) in
          let (b', has', slot') = v.stock.placed a' (omega arith) in
          elim (Bool-cases (b == b')) [
            | inl e ↦
                let same : b' ≡ b = ground arith in
                IsSlot-apart size b a a' slot (subst (λ x. IsSlot size x a') same slot')
            | inr e ↦
                let ne : b ≢ b' = ground arith in
                let one = IsSlot-inside size b a v.slot slot in
                let two = IsSlot-inside size b' a' v.slot slot' in
                inr (
                  far b b' a a' size ne (v.stock.aligned b has) (v.stock.aligned b' has')
                    (one.0, one.1) (two.0, two.1))
          ]

  module _ (laws : IsPages os held) where
    Step-IsWorld : (w w' : World M) → IsWorld held size w → Step w w' → IsWorld held size w'
    Step-IsWorld w w' v (pops r p' run) =
        let (r2, p2, run2, v2) = pop-IsWorld os held laws size w v in
        subst (λ x. IsWorld held size (record w { pool = x.1; live = handed x.0 w.live }))
          (ok-injective (sym run2 ∙ run)) v2
    Step-IsWorld w w' v (prepares page m' run) =
        (subst (Prepares os held laws size w) run (prepare-Prepares os held laws size w v)).1
    Step-IsWorld w w' v (fails e m' run) =
        subst (Prepares os held laws size w) run (prepare-Prepares os held laws size w v)
    Step-IsWorld w w' v (publishes b pending' r p' m' out room run) =
        (subst (Published os held laws size w b pending' v out room) run
          (publish-Published os held laws size w b pending' v out room)).0
    Step-IsWorld w w' v (frees a live' p' out run) =
        let (p2, run2, v2) = free-IsWorld os held laws size w a live' v out in
        subst (λ q. IsWorld held size (record w { pool = q; live = live' }))
          (ok-injective (sym run2 ∙ run)) v2
    Step-IsWorld w w' v (destroys m' on none_out run) =
        let (m2, run2, v2, back) = destroy-IsWorld os held laws size w v on none_out in
        subst (λ m. IsWorld held size (dead_world w m))
          (ap (λ x. elim x [ returns a m ↦ m | panics e ↦ w.machine ]) (sym run2 ∙ run)) v2
    Step-IsWorld w w' v (others m' kept) = record {
      slot = v.slot;
      stock = v.stock;
      sized = v.sized;
      gone = v.gone;
      owned = kept;
      apart = v.apart;
      aligned = v.aligned;
    }

    Steps-IsWorld : (w w' : World M) → IsWorld held size w → Steps w w' → IsWorld held size w'
    Steps-IsWorld w w' v done = v
    Steps-IsWorld w w'' v (after w' _ before step) =
        Step-IsWorld w' w'' (Steps-IsWorld w w' v before) step

    IsWorld-NoPanic : (w : World M) → IsWorld held size w → NoPanic w
    IsWorld-NoPanic w v = (
      (let (r, p', run, _) = pop-IsWorld os held laws size w v in (r, p', run)),
      prepared _ (prepare-Prepares os held laws size w v),
      (λ b pending' out room.
          published b pending' out room _
            (publish-Published os held laws size w b pending' v out room)),
      (λ a live' out.
          let (p', run, _) = free-IsWorld os held laws size w a live' v out in (p', run)),
      λ on none_out.
          let (m', run, _, _) = destroy-IsWorld os held laws size w v on none_out in (m', run),
    )
      where
        prepared :
            (x : Run M (Result PreparedPage))
            → Prepares os held laws size w x
            → (r : Result PreparedPage) × (m' : M) × (x ≡ returns r m')
        prepared (panics e) h = absurd h
        prepared (returns (ok page) m') h = (ok page, m', refl)
        prepared (returns (err e) m') h = (err e, m', refl)

        published :
            (b : ℕ) (pending' : List ℕ) (out : IsTaken w.pending b pending')
            (room : w.pool.total_slots + slots_per_page_of size < 2 ^ 32)
            (x : Run M (Option ℕ × Pool))
            → Published os held laws size w b pending' v out room x
            → (r : Option ℕ × Pool) × (m' : M) × (x ≡ returns r m')
        published b pending' out room (panics e) h = absurd h
        published b pending' out room (returns r m') h = (r, m', refl)

    -- From a world that satisfies the invariant, over pages that keep their laws, whatever pops,
    -- preparations, publications, frees and destructions of several threads follow in any order:
    -- the invariant holds, every object handed out is so once, on a page that is handed out, behind
    -- its node, aligned to 8 bytes and apart from every other, and no assertion fails next. The
    -- slots of a page published fit the 32-bit count.
    pub Steps-IsExclusive :
        (w w' : World M)
        → IsWorld held size w
        → Steps w w'
        → IsWorld held size w' × IsExclusive w' × NoPanic w'
    Steps-IsExclusive w w' v steps =
        let v' = Steps-IsWorld w w' v steps in
        (v', IsWorld-IsExclusive w' v', IsWorld-NoPanic w' v')
