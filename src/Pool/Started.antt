-- ===== src/Pool/Started.antt =====
-- KePoolInit gives a pool of free slots, or gives back every page.
use himu_os.Prelude.{
  ℕ, zero, suc, ◌+◌, ◌*◌, ◌%◌, ◌^◌, ◌≤◌, ◌<◌, ◌≡◌, ◌⊎◌, inl, inr, refl, sym, ap, subst, true, false,
  [], ◌==◌, leb, count, if◌then◌else◌, Result, ok, err, ◌>>◌, Status, ec_success, Bool-cases, arith,
}
use native.Mathlib.Nat.{suc-mul}
use himu_os.Pool.Layout.{slot_size_of, header_size, slots_per_page_of, lay_out}
use himu_os.Pool.Machine.{Pages, IsPages}
use himu_os.Pool.Operations.{
  unset, Pool, is_alive, Run, returns, panics, check_page, attach, publish_prepared_page,
  lay_out_page, prepare_one_page,
}
use himu_os.Pool.Start.{empty_pool, needed_pages_of, attach_next, attach_pages, init}
use himu_os.Pool.Slots.{IsSlotSize}
use himu_os.Pool.Sizes.{
  slot_size_bounds, needed_pages_of-covers, fitting-IsSlotSize, slots_per_page_of-le,
}
use himu_os.Pool.Stock.{IsStock, empty-IsStock}
use himu_os.Pool.Grown.{attach-IsStock, check_page-passes}
use himu_os.Pool.World.{IsWorld}
use himu_os.Pool.GivenBack.{free_pages-IsGivenBack}

module _ {M : Type 0} (os : Pages M) (held : M → ℕ → ℕ) (laws : IsPages os held) (size : ℕ) (m0 : M)
    (slot : IsSlotSize size) where
  -- The pages of the pool are those taken since `m0`.
  abbrev TakenBy : Pool → M → Type 0
  TakenBy p m = (c : ℕ) → held m c ≡ held m0 c + count c p.page_list

  -- A pool of `total` free slots, or one that is not alive and has given back its pages.
  abbrev pub Fills : ℕ → Run M (Status × Pool) → Type 0
  Fills total (panics e) = ⊥
  Fills total (returns (status, p) m) =
      ((status ≡ ec_success)
        × (is_alive p.magic ≡ true)
        × (p.slot_size ≡ size)
        × IsStock size p []
        × (p.total_slots ≡ total)
        × TakenBy p m)
      ⊎ ((is_alive p.magic ≡ false) × ((c : ℕ) → held m c ≡ held m0 c))

  abbrev Filling : Pool → M → Type 0
  Filling p m = (p.slot_size ≡ size) × IsStock size p [] × TakenBy p m

  publish_prepared_page-attaches :
      (p : Pool) (b : ℕ)
      → check_page (lay_out b size) ≡ ok tt
      → publish_prepared_page p (lay_out b size) ≡ ok (attach p (lay_out b size))
  unfolding publish_prepared_page
  publish_prepared_page-attaches p b passes = ap (λ r. r >> ok (attach p (lay_out b size))) passes

  attached-total :
      (p : Pool) (b : ℕ)
      → p.total_slots + slots_per_page_of size < 2 ^ 32
      → (attach p (lay_out b size)).total_slots ≡ p.total_slots + slots_per_page_of size
  unfolding attach lay_out
  attached-total p b room = omega (arith, room)

  attached-Filling :
      (p : Pool) (m m' : M) (b : ℕ)
      → Filling p m
      → ◌≡◌ {A = ℕ} (count b p.page_list) 0
      → ◌≡◌ {A = ℕ} (held m b) 0
      → b % 4096 ≡ 0
      → p.total_slots + slots_per_page_of size < 2 ^ 32
      → ((c : ℕ) → held m' c ≡ (if b == c then 1 else held m c))
      → Filling (attach p (lay_out b size)) m'
  attached-Filling p m m' b (sized, stock, taken) fresh none_held aligned room after = (
    (unfold attach in sized),
    attach-IsStock size p [] b slot stock fresh aligned room,
    unfold attach in
        unfold lay_out in
        (λ c. elim (Bool-cases (b == c)) [
          | inl e ↦
              let same : b ≡ c = ground arith in
              rw (after c, e)
                (omega (
                  arith,
                  taken b,
                  fresh,
                  none_held,
                  ap (held m0) same,
                  ap (λ x. count x p.page_list) same,
                ))
          | inr e ↦ rw (after c, e) (taken c)
        ]),
  )

  attach_next-Fills :
      (total : ℕ) (p : Pool) (m : M) (next : Pool → M → Run M (Status × Pool))
      → Filling p m
      → p.total_slots + slots_per_page_of size < 2 ^ 32
      → ((p' : Pool) (m' : M)
          → Filling p' m'
          → p'.total_slots ≡ p.total_slots + slots_per_page_of size
          → Fills total (next p' m'))
      → Fills total (attach_next os p (prepare_one_page os m size) next)
  unfolding attach_next prepare_one_page lay_out_page
  attach_next-Fills total p m next (sized, stock, taken) room more = by (os.alloc_page m) refl
    where
      by :
          (r : Result ℕ × M)
          → os.alloc_page m ≡ r
          → Fills total (attach_next os p (lay_out_page os size r) next)
      by (err e, m') run =
          let same = laws.fails m m' e run in
          let kept : M → Run M (Status × Pool) = returns (
            e,
            record p {
              magic = unset;
              free_list = [];
              page_list = [];
              total_slots = 0;
              page_count = 0;
            },
          ) in
          let (m2, run2, back) =
            free_pages-IsGivenBack os held laws p.page_list m' kept
              (λ c. omega (arith, same c, taken c)) in
          subst (Fills total) (sym run2) (inr (refl, λ c. omega (arith, back c, same c, taken c)))
      by (ok b, m') run =
          let small : leb 4096 (header_size size) ≡ false = ground (arith, slot.3) in
          let (aligned, real, inside, none_held, after) = laws.gives m m' b run in
          let fresh : ◌≡◌ {A = ℕ} (count b p.page_list) 0 = omega (arith, none_held, taken b) in
          let published =
            publish_prepared_page-attaches p b
              (check_page-passes size p [] b slot stock fresh aligned room) in
          rw small (
            subst
              (λ (x : Result Pool). Fills total (elim x [ err e ↦ panics e | ok p' ↦ next p' m' ]))
              (sym published)
              (more (attach p (lay_out b size)) m'
                (attached-Filling p m m' b (sized, stock, taken) fresh none_held aligned room after)
                (attached-total p b room)))

  attach_pages-Fills :
      (left : ℕ) (p : Pool) (m : M)
      → Filling p m
      → p.total_slots + left * slots_per_page_of size < 2 ^ 32
      → Fills (p.total_slots + left * slots_per_page_of size) (attach_pages os size left p m)
  unfolding attach_pages
  attach_pages-Fills zero p m (sized, stock, taken) room = inl (
    refl,
    refl,
    sized,
    record {
      once = stock.once;
      placed = stock.placed;
      used = stock.used;
      total = stock.total;
      word = stock.word;
      pages_once = stock.pages_once;
      aligned = stock.aligned;
      peak = stock.peak;
    },
    omega arith,
    taken,
  )
  attach_pages-Fills (suc left) p m filling room =
      let row = suc-mul left (slots_per_page_of size) in
      attach_next-Fills (p.total_slots + suc left * slots_per_page_of size) p m
        (attach_pages os size left) filling (omega (arith, room, row))
        (λ p' m' filling' total.
          let same : p'.total_slots + left * slots_per_page_of size
              ≡ p.total_slots + suc left * slots_per_page_of size =
            omega (arith, total, row) in
          subst (λ n. Fills n (attach_pages os size left p' m')) same
            (attach_pages-Fills left p' m' filling' (omega (arith, same, room))))

module _ {M : Type 0} (os : Pages M) (held : M → ℕ → ℕ) where
  -- What an initialization promises.
  abbrev pub IsInit : M → ℕ → ℕ → Run M (Status × Pool) → Type 0
  IsInit m object capacity (panics e) = ⊥
  IsInit m object capacity (returns (status, p) m') =
      ((status ≡ ec_success)
        × (object ≤ p.slot_size)
        × (capacity ≤ p.total_slots)
        × IsWorld held p.slot_size (record { pool = p; live = []; pending = []; machine = m' })
        × ((c : ℕ) → held m' c ≡ held m c + count c p.page_list))
      ⊎ ((is_alive p.magic ≡ false) × ((c : ℕ) → held m' c ≡ held m c))

  module _ (laws : IsPages os held) (m : M) (object capacity : ℕ) (small : object < 2 ^ 63) where
    Fills-IsInit :
        (slot : IsSlotSize (slot_size_of object)) (total : ℕ) (r : Run M (Status × Pool))
        → capacity ≤ total
        → Fills os held laws (slot_size_of object) m slot total r
        → IsInit m object capacity r
    Fills-IsInit slot total (panics e) enough h = absurd h
    Fills-IsInit slot total (returns (status, p) m') enough (inr lost) = inr lost
    Fills-IsInit slot total (returns (status, p) m') enough
          (inl (won, on, sized, stock, all, taken)) =
        inl (
          won,
          omega (arith, sized, (slot_size_bounds object small).2),
          omega (arith, all, enough),
          subst (λ z. IsWorld held z (record { pool = p; live = []; pending = []; machine = m' }))
              (sym sized)
              (record {
                slot = slot;
                stock = stock;
                sized = λ still. sized;
                gone = λ off. absurd (cc (on, off));
                owned = λ c. omega (arith, taken c);
                apart = λ c. omega (arith, stock.pages_once c);
                aligned = λ c has. absurd (omega arith);
              }),
          taken,
        )

    -- With an object of less than 2 ^ 63 bytes and a capacity of less than 2 ^ 31, the start of a
    -- pool never panics. It succeeds with the invariant, slots as large as the object, at least the
    -- capacity of them, all free, and exactly its pages taken; or the pool is not alive and no page
    -- is kept.
    pub init-IsInit :
        (p : Pool) → capacity < 2 ^ 31 → IsInit m object capacity (init os p object capacity m)
    unfolding init empty_pool
    init-IsInit p room =
        let size = slot_size_of object in
        let slots = slots_per_page_of size in
        elim (Bool-cases (leb 4096 (header_size size))) [
          | inl e ↦ rw e (inr (refl, λ c. refl))
          | inr e ↦ rw e (elim (Bool-cases (slots == 0)) [
            | inl f ↦ rw f (inr (refl, λ c. refl))
            | inr f ↦
                let slot =
                  fitting-IsSlotSize object small (ground (arith, e)) (ground (arith, f)) in
                let (covers, words) =
                  needed_pages_of-covers capacity slots (ground (arith, f))
                    (slots_per_page_of-le size slot.1) room in
                rw f (
                  Fills-IsInit slot (0 + needed_pages_of capacity slots * slots) _
                    (omega (arith, covers))
                    (attach_pages-Fills os held laws size m slot (needed_pages_of capacity slots)
                      (empty_pool unset size slots) m
                      (refl, empty-IsStock size unset size slots, λ c. omega arith)
                      (omega (arith, words))))
          ])
        ]
