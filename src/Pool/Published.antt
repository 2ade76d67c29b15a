-- ===== src/Pool/Published.antt =====
-- Publishing a prepared page, and taking a pool apart.
use himu_os.Prelude.{
  ℕ, suc, ◌+◌, ◌%◌, ◌^◌, ◌<◌, ◌≡◌, inl, inr, refl, sym, ap, ◌∙◌, subst, true, false, List, [],
  Option, none, some, ◌==◌, count, length, if◌then◌else◌, Status, ec_success, Bool-cases, arith,
}
use himu_os.Pool.Layout.{slots_per_page_of, lay_out}
use himu_os.Pool.Machine.{Pages, IsPages}
use himu_os.Pool.Operations.{
  dead, Pool, is_alive, is_nil, Run, returns, panics, attach, popped, orphaned,
  publish_prepared_page_and_pop,
}
use himu_os.Pool.Start.{empty_pool, destroy}
use himu_os.Pool.Stock.{IsStock, empty-IsStock, Popped, pop_head-Popped}
use himu_os.Pool.Grown.{attach-some, attach-IsStock, check_page-passes}
use himu_os.Pool.GivenBack.{IsGivenBack, free_page-IsGivenBack, free_pages-IsGivenBack}
use himu_os.Pool.World.{World, IsWorld, handed}

abbrev pub dead_world : {M : Type 0} → World M → M → World M
dead_world w m' = record {
  pool = empty_pool dead 0 0;
  live = [];
  pending = w.pending;
  machine = m';
}

module _ {M : Type 0} (os : Pages M) (held : M → ℕ → ℕ) (laws : IsPages os held) (size : ℕ) where
  -- A pending page is published, or goes back to a pool that is gone.
  module _ (w : World M) (b : ℕ) (pending' : List ℕ) (v : IsWorld held size w)
      (out : (c : ℕ)
        → count c w.pending ≡ (if b == c then suc (count c pending') else count c pending'))
      (room : w.pool.total_slots + slots_per_page_of size < 2 ^ 32) where
    self : (b == b) ≡ true
    self = ground arith

    here : count b w.pending ≡ suc (count b pending')
    here = out b ∙ rw self refl

    fresh : ◌≡◌ {A = ℕ} (count b w.pool.page_list) 0
    fresh = omega (arith, v.apart b, here)

    pending-aligned : b % 4096 ≡ 0
    pending-aligned = v.aligned b (omega (arith, here))

    abbrev grown : Pool
    grown = attach w.pool (lay_out b size)

    grown-IsStock : IsStock size grown w.live
    grown-IsStock = attach-IsStock size w.pool w.live b v.slot v.stock fresh pending-aligned room

    abbrev pub Published : Run M (Option ℕ × Pool) → Type 0
    Published (panics e) = ⊥
    Published (returns (r, p') m') =
        IsWorld held size
          (record { pool = p'; live = handed r w.live; pending = pending'; machine = m' })
        × (r ≡ none → is_alive w.pool.magic ≡ false)

    published :
        (r : Option ℕ) (p' : Pool)
        → is_alive w.pool.magic ≡ true
        → Popped size grown w.live (r, p')
        → Published (returns (r, p') w.machine)
    unfolding attach lay_out
    published none p' on (same, unlinked) = absurd (
        cc (
          ap is_nil (unlinked on),
          attach-some size w.pool w.live b v.slot v.stock fresh pending-aligned room,
        ))
    published (some a) p' on (stock, new, head, pages, magic, slots) = (
      record {
        slot = v.slot;
        stock = stock;
        sized = λ still. slots ∙ v.sized on;
        gone = λ off. absurd (cc (on, off, ap is_alive magic));
        owned = λ c. rw pages (ground (arith, v.owned c, out c));
        apart = λ c. rw pages (ground (arith, v.apart c, out c));
        aligned = λ c has. v.aligned c (ground (arith, has, out c));
      },
      λ lost. absurd (cc lost),
    )

    pub publish-Published :
        Published (publish_prepared_page_and_pop os w.pool (lay_out b size) w.machine)
    unfolding publish_prepared_page_and_pop orphaned
    publish-Published = elim (Bool-cases (is_alive w.pool.magic)) [
      | inl on ↦
          let (r, run, popped) =
            pop_head-Popped size grown w.live grown-IsStock grown.free_list refl in
          let runs : publish_prepared_page_and_pop os w.pool (lay_out b size) w.machine
              ≡ returns r w.machine =
            simp
              (
                on,
                check_page-passes size w.pool w.live b v.slot v.stock fresh pending-aligned room,
                attach-some size w.pool w.live b v.slot v.stock fresh pending-aligned room,
                run,
              )
              refl in
          subst Published (sym runs) (published r.0 r.1 on popped)
      | inr off ↦
          let base : (lay_out b size).base_virt ≡ b = unfold lay_out in refl in
          let kept : M → Run M (Option ℕ × Pool) = returns (none, w.pool) in
          let (m', run, back) =
            free_page-IsGivenBack os held laws w.machine b kept (omega (arith, v.owned b, here)) in
          let runs : publish_prepared_page_and_pop os w.pool (lay_out b size) w.machine
              ≡ returns (none, w.pool) m' =
            simp
              (
                off,
                base,
                check_page-passes size w.pool w.live b v.slot v.stock fresh pending-aligned room,
              )
              run in
          subst Published (sym runs) (
            record {
              slot = v.slot;
              stock = v.stock;
              sized = v.sized;
              gone = v.gone;
              owned = λ c. ground (arith, v.owned c, out c, back c);
              apart = λ c. ground (arith, v.apart c, out c);
              aligned = λ c has. v.aligned c (ground (arith, has, out c));
            },
            λ lost. off,
          )
    ]

  -- A pool with no object out is taken apart, and its pages go back.
  pub destroy-IsWorld :
      (w : World M)
      → IsWorld held size w
      → is_alive w.pool.magic ≡ true
      → w.live ≡ []
      → (m' : M) × (destroy os w.pool w.machine ≡ returns (ec_success, empty_pool dead 0 0) m')
        × IsWorld held size (dead_world w m')
        × IsGivenBack held w.machine w.pool.page_list m'
  unfolding destroy empty_pool
  destroy-IsWorld w v on none_out =
      let unused : (w.pool.used_slots == 0) ≡ true =
        ground (arith, v.stock.used, ap (length {0}) none_out) in
      let kept : M → Run M (Status × Pool) = returns (ec_success, empty_pool dead 0 0) in
      let (m', run, back) =
        free_pages-IsGivenBack os held laws w.pool.page_list w.machine kept
          (λ c. omega (arith, v.owned c)) in
      (
        m',
        simp (on, unused) run,
        record {
          slot = v.slot;
          stock = empty-IsStock size dead 0 0;
          sized = λ still. absurd (cc still);
          gone = λ off. (refl, refl, refl);
          owned = λ c. omega (arith, v.owned c, back c);
          apart = λ c. omega (arith, v.apart c);
          aligned = v.aligned;
        },
        back,
      )
