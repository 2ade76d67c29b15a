-- ===== src/Pool/Allocated.antt =====
-- KePoolAlloc as a whole, kernel/ke/mm/pool.c, where nothing runs in between.
use himu_os.Prelude.{
  ℕ, ◌+◌, ◌^◌, ◌<◌, ◌≡◌, ◌⊎◌, inl, inr, refl, sym, ap, ◌∙◌, subst, true, false, [], ◌∷◌, Option,
  none, some, ◌==◌, leb, count, Result, ok, ok-injective, err, Status, Bool-cases, arith,
}
use himu_os.Pool.Layout.{header_size, slots_per_page_of, PreparedPage, lay_out}
use himu_os.Pool.Machine.{Pages, IsPages}
use himu_os.Pool.Operations.{
  Pool, is_alive, Run, returns, panics, try_pop_node, note_failed_grow, lay_out_page,
  prepare_one_page, publish_prepared_page_and_pop, grow, alloc_after, alloc,
}
use himu_os.Pool.Stock.{Popped, try_pop_node-Popped}
use himu_os.Pool.World.{World, IsWorld, handed, pop-IsWorld, Prepares, prepare-Prepares}
use himu_os.Pool.Published.{Published, publish-Published}

module _ {M : Type 0} (os : Pages M) (held : M → ℕ → ℕ) (size : ℕ) (w : World M) where
  -- Without an object, the pool is not alive, or no slot is free and the machine has no page: that is
  -- counted. An object is not one handed out before.
  abbrev pub Outcome : Option ℕ → Pool → M → Type 0
  Outcome none p' m' =
      ((is_alive w.pool.magic ≡ false) × (p' ≡ w.pool))
      ⊎ ((w.pool.free_list ≡ [])
          × (p' ≡ note_failed_grow w.pool)
          × (e : Status) × (os.alloc_page w.machine ≡ (err e, m')))
  Outcome (some a) p' m' = ◌≡◌ {A = ℕ} (count a w.live) 0

  -- What an allocation does.
  abbrev pub IsAllocation : Run M (Option ℕ × Pool) → Type 0
  IsAllocation (panics e) = ⊥
  IsAllocation (returns (r, p') m') =
      IsWorld held size (record w { pool = p'; live = handed r w.live; machine = m' })
      × Outcome r p' m'

  module _ (laws : IsPages os held) (v : IsWorld held size w)
      (room : w.pool.total_slots + slots_per_page_of size < 2 ^ 32) where
    new-Outcome :
        (a : ℕ) (p' : Pool) (m' : M)
        → IsWorld held size (record w { pool = p'; live = a ∷ w.live; machine = m' })
        → Outcome (some a) p' m'
    new-Outcome a p' m' v' = ground (arith, v'.stock.once a)

    published-IsAllocation :
        (b : ℕ) (m1 : M)
        (v1 : IsWorld held size (record w { pending = b ∷ w.pending; machine = m1 }))
        → is_alive w.pool.magic ≡ true
        → (x : Run M (Option ℕ × Pool))
        → Published os held laws size
            (record w { pending = b ∷ w.pending; machine = m1 })
            b
            w.pending
            v1
            (λ c. refl)
            room
            x
        → IsAllocation x
    published-IsAllocation b m1 v1 on (panics e) h = absurd h
    published-IsAllocation b m1 v1 on (returns (none, p') m') (v', lost) =
        absurd (cc (on, lost refl))
    published-IsAllocation b m1 v1 on (returns (some a, p') m') (v', lost) =
        (v', new-Outcome a p' m' v')

    prepare_one_page_fails :
        (e : Status) (m' : M)
        → prepare_one_page os w.machine size ≡ returns (err e) m'
        → os.alloc_page w.machine ≡ (err e, m')
    unfolding prepare_one_page lay_out_page
    prepare_one_page_fails e m' = by (os.alloc_page w.machine)
      where
        by : (r : Result ℕ × M) → lay_out_page os size r ≡ returns (err e) m' → r ≡ (err e, m')
        by (err e', m1) run =
            ap
              (λ (x : Run M (Result PreparedPage)). elim x [
                | returns r m ↦ elim r [ err z ↦ (err z, m) | ok y ↦ (err e', m1) ]
                | panics z ↦ (err e', m1)
              ])
              run
        by (ok b, m1) run =
            let small : leb 4096 (header_size size) ≡ false = ground (arith, v.slot.3) in
            let laid : ◌≡◌ {A = Run M (Result PreparedPage)} (returns (ok (lay_out b size)) m1)
                (returns (err e) m') =
              sym (rw small refl) ∙ run in
            absurd (cc laid)

    grow-IsAllocation :
        (x : Run M (Result PreparedPage))
        → prepare_one_page os w.machine size ≡ x
        → is_alive w.pool.magic ≡ true
        → w.pool.free_list ≡ []
        → Prepares os held laws size w x
        → IsAllocation (grow os w.pool x)
    unfolding grow
    grow-IsAllocation (panics e) run on dry h = absurd h
    grow-IsAllocation (returns (err e) m') run on dry h =
        (h, inr (dry, refl, e, prepare_one_page_fails e m' run))
    grow-IsAllocation (returns (ok page) m') run on dry (same, v1) =
        published-IsAllocation page.base_virt m' v1 on _ (
          subst
            (λ z.
              Published os held laws size
                (record w { pending = page.base_virt ∷ w.pending; machine = m' }) page.base_virt
                w.pending v1 (λ c. refl) room (publish_prepared_page_and_pop os w.pool z m'))
            (sym same)
            (publish-Published os held laws size
              (record w { pending = page.base_virt ∷ w.pending; machine = m' }) page.base_virt
              w.pending v1 (λ c. refl) room))

    after-IsAllocation :
        (r : Option ℕ × Pool)
        → is_alive w.pool.magic ≡ true
        → try_pop_node w.pool ≡ ok r
        → Popped size w.pool w.live r
        → IsAllocation (alloc_after os w.machine (ok r))
    unfolding alloc_after
    after-IsAllocation (some a, p') on run (stock, new, _, _, _, _) =
        let (r2, p2, run2, v2) = pop-IsWorld os held laws size w v in
        let v' =
          subst (λ x. IsWorld held size (record w { pool = x.1; live = handed x.0 w.live }))
            (ok-injective (sym run2 ∙ run)) v2 in
        (v', new)
    after-IsAllocation (none, p') on run (same, dry) =
        let sized : (w.pool.slot_size == 0) ≡ false = ground (arith, v.sized on, v.slot.1) in
        let grows : alloc_after os w.machine (ok (none, w.pool))
            ≡ grow os w.pool (prepare_one_page os w.machine w.pool.slot_size) =
          simp (on, sized) refl in
        let grown =
          subst (λ z. IsAllocation (grow os w.pool (prepare_one_page os w.machine z)))
            (sym (v.sized on))
            (grow-IsAllocation (prepare_one_page os w.machine size) refl on (dry on)
              (prepare-Prepares os held laws size w v)) in
        subst (λ q. IsAllocation (alloc_after os w.machine (ok (none, q)))) (sym same)
          (subst IsAllocation (sym grows) grown)

    -- In a world that satisfies the invariant, with room for a page in the 32-bit count of slots, an
    -- allocation never panics and keeps the invariant. It hands out an object that was not handed
    -- out; without one, the pool was not alive and is as before, or it had no free slot and the
    -- machine no page, and only the count of failed grows has changed.
    pub alloc-IsAllocation : IsAllocation (alloc os w.pool w.machine)
    unfolding alloc
    alloc-IsAllocation = elim (Bool-cases (is_alive w.pool.magic)) [
      | inl on ↦
          let (r, run, popped) = try_pop_node-Popped size w.pool w.live v.stock in
          let runs : alloc os w.pool w.machine ≡ alloc_after os w.machine (ok r) =
            simp (on, run) refl in
          subst IsAllocation (sym runs) (after-IsAllocation r on run popped)
      | inr off ↦
          let runs : alloc os w.pool w.machine ≡ returns (none, w.pool) w.machine = simp off refl in
          subst IsAllocation (sym runs) (v, inl (off, refl))
    ]
