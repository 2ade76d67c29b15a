-- ===== src/Pool/World.antt =====
-- The operations of a pool that several threads share, one critical section at a time.
use himu_os.Prelude.{
  ℕ, ◌+◌, ◌%◌, ◌≤◌, ◌<◌, ◌≡◌, inl, inr, refl, sym, ap, ◌∙◌, subst, true, false, List, [], ◌∷◌,
  Option, none, some, ◌==◌, leb, count, length, Result, ok, err, sub32, Bool-cases, arith,
}
use himu_os.Pool.Layout.{header_size, PreparedPage, lay_out}
use himu_os.Pool.Machine.{Pages, IsPages}
use himu_os.Pool.Operations.{
  Pool, is_alive, Run, returns, panics, try_pop_node, free, note_failed_grow, lay_out_page,
  prepare_one_page,
}
use himu_os.Pool.Slots.{IsSlotSize}
use himu_os.Pool.Stock.{IsStock, Popped, try_pop_node-Popped, IsWithout, free-IsStock}

-- The pool with the objects handed out, the pages prepared and not yet published, and the machine.
pub record World (M : Type 0) : Type 0 where
  pub pool : Pool
  pub live : List ℕ
  pub pending : List ℕ
  pub machine : M

pub record IsWorld {M : Type 0} (held : M → ℕ → ℕ) (size : ℕ) (w : World M) : Type 0 where
  pub slot : IsSlotSize size
  pub stock : IsStock size w.pool w.live
  pub sized : is_alive w.pool.magic ≡ true → w.pool.slot_size ≡ size
  pub gone :
      is_alive w.pool.magic ≡ false
      → (w.live ≡ []) × (w.pool.free_list ≡ []) × (w.pool.page_list ≡ [])
  pub owned : (b : ℕ) → count b w.pool.page_list + count b w.pending ≤ held w.machine b
  pub apart : (b : ℕ) → count b w.pool.page_list + count b w.pending ≤ 1
  pub aligned : (b : ℕ) → 0 < count b w.pending → b % 4096 ≡ 0

-- The objects after a pop.
abbrev pub handed : Option ℕ → List ℕ → List ℕ
handed none live = live
handed (some a) live = a ∷ live

module _ {M : Type 0} (os : Pages M) (held : M → ℕ → ℕ) (laws : IsPages os held) (size : ℕ) where
  pub pop-IsWorld :
      (w : World M)
      → IsWorld held size w
      → (r : Option ℕ) × (p' : Pool) × (try_pop_node w.pool ≡ ok (r, p'))
        × IsWorld held size (record w { pool = p'; live = handed r w.live })
  pop-IsWorld w v = by (try_pop_node-Popped size w.pool w.live v.stock)
    where
      by :
          ((r : Option ℕ × Pool) × (try_pop_node w.pool ≡ ok r) × Popped size w.pool w.live r)
          → (r : Option ℕ) × (p' : Pool) × (try_pop_node w.pool ≡ ok (r, p'))
            × IsWorld held size (record w { pool = p'; live = handed r w.live })
      by ((none, p'), run, (same, _)) =
          (none, p', run, subst (λ q. IsWorld held size (record w { pool = q })) (sym same) v)
      by ((some a, p'), run, (stock, new, head, pages, magic, slots)) = (
        some a,
        p',
        run,
        record {
          slot = v.slot;
          stock = stock;
          sized = λ on. slots ∙ v.sized (sym (ap is_alive magic) ∙ on);
          gone = λ off. absurd (cc (head, (v.gone (sym (ap is_alive magic) ∙ off)).1));
          owned = λ b. rw pages (v.owned b);
          apart = λ b. rw pages (v.apart b);
          aligned = v.aligned;
        },
      )

  pub free-IsWorld :
      (w : World M) (a : ℕ) (live' : List ℕ)
      → IsWorld held size w
      → IsWithout w.live a live'
      → (p' : Pool) × (free w.pool a ≡ ok p')
        × IsWorld held size (record w { pool = p'; live = live' })
  free-IsWorld w a live' v out =
      let (run, stock) = free-IsStock size w.pool w.live v.stock v.slot a live' out in
      (
        record (w.pool) {
          free_list = a ∷ w.pool.free_list;
          used_slots = sub32 w.pool.used_slots 1;
        },
        run,
        record {
          slot = v.slot;
          stock = stock;
          sized = v.sized;
          gone = λ off. absurd (omega (arith, ap (length {0}) (v.gone off).0, out.0));
          owned = v.owned;
          apart = v.apart;
          aligned = v.aligned;
        },
      )

  pub noted-IsWorld :
      (w : World M) (m' : M)
      → IsWorld held size w
      → ((b : ℕ) → held m' b ≡ held w.machine b)
      → IsWorld held size (record w { pool = note_failed_grow w.pool; machine = m' })
  unfolding note_failed_grow
  noted-IsWorld w m' v same = elim (Bool-cases (is_alive w.pool.magic)) [
    | inl on ↦ rw on (record {
      slot = v.slot;
      stock = record {
        once = v.stock.once;
        placed = v.stock.placed;
        used = v.stock.used;
        total = v.stock.total;
        word = v.stock.word;
        pages_once = v.stock.pages_once;
        aligned = v.stock.aligned;
        peak = v.stock.peak;
      };
      sized = v.sized;
      gone = v.gone;
      owned = λ b. rw (same b) (v.owned b);
      apart = v.apart;
      aligned = v.aligned;
    })
    | inr off ↦ rw off (record {
      slot = v.slot;
      stock = v.stock;
      sized = v.sized;
      gone = v.gone;
      owned = λ b. rw (same b) (v.owned b);
      apart = v.apart;
      aligned = v.aligned;
    })
  ]

  -- What the preparation of a page gives.
  abbrev pub Prepares : World M → Run M (Result PreparedPage) → Type 0
  Prepares w (panics e) = ⊥
  Prepares w (returns (err e) m') =
      IsWorld held size (record w { pool = note_failed_grow w.pool; machine = m' })
  Prepares w (returns (ok page) m') =
      (page ≡ lay_out page.base_virt size)
      × IsWorld held size (record w { pending = page.base_virt ∷ w.pending; machine = m' })

  pub prepare-Prepares :
      (w : World M) → IsWorld held size w → Prepares w (prepare_one_page os w.machine size)
  unfolding prepare_one_page lay_out_page lay_out
  prepare-Prepares w v = by (os.alloc_page w.machine) refl
    where
      by : (r : Result ℕ × M) → os.alloc_page w.machine ≡ r → Prepares w (lay_out_page os size r)
      by (err e, m') run = noted-IsWorld w m' v (laws.fails w.machine m' e run)
      by (ok b, m') run =
          let small : leb 4096 (header_size size) ≡ false = ground (arith, v.slot.3) in
          let (aligned, real, inside, fresh, after) = laws.gives w.machine m' b run in
          let same : (c : ℕ) → (b == c) ≡ true → b ≡ c = λ c e. ground arith in
          let none_yet : (c : ℕ)
              → (b == c) ≡ true
              → ◌≡◌ {A = ℕ} (count c w.pool.page_list + count c w.pending) 0 =
            λ c e. omega (arith, v.owned c, fresh, ap (held w.machine) (same c e)) in
          rw small (
            refl,
            record {
              slot = v.slot;
              stock = v.stock;
              sized = v.sized;
              gone = v.gone;
              owned = λ c. elim (Bool-cases (b == c)) [
                | inl e ↦ let now = none_yet c e in rw (after c, e) (omega (arith, now))
                | inr e ↦ rw (after c, e) (v.owned c)
              ];
              apart = λ c. elim (Bool-cases (b == c)) [
                | inl e ↦ let now = none_yet c e in rw e (omega (arith, now))
                | inr e ↦ rw e (v.apart c)
              ];
              aligned = λ c has. elim (Bool-cases (b == c)) [
                | inl e ↦ subst (λ x. x % 4096 ≡ 0) (same c e) aligned
                | inr e ↦ v.aligned c (ground (arith, has, e))
              ];
            },
          )
