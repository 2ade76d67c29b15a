-- ===== src/Pool/Tests.antt =====
-- A machine with one page, at 4096, and pools of objects of 2000 bytes, two to a page, on it.
use himu_os.Prelude.{
  ℕ, ◌<◌, ◌≡◌, refl, Bool, true, false, ◌&&◌, [], ◌∷◌, some, ◌==◌, if◌then◌else◌, Result, ok,
  ok-injective, err, ap, sym, subst, ◌-◌, Status, ec_success, ec_out_of_resource, ec_invalid_state,
  arith,
}
use himu_os.Pool.Layout.{header_size, slots_per_page_of, link_slots, lay_out}
use himu_os.Pool.Machine.{Pages, IsGiven, IsPages}
use himu_os.Pool.Operations.{
  alive, Pool, returns, orphaned, attach, pop_head, free, lay_out_page, prepare_one_page,
  publish_prepared_page_and_pop, alloc,
}
use himu_os.Pool.Start.{empty_pool}
use himu_os.Pool.Stock.{empty-IsStock}
use himu_os.Pool.World.{World, IsWorld}
use himu_os.Pool.Shared.{
  Steps, done, after, prepares, publishes, frees, IsExclusive, NoPanic, Steps-IsExclusive,
}
use himu_os.Pool.Allocated.{IsAllocation, alloc-IsAllocation}

abbrev give_page : Bool → Result ℕ × Bool
give_page false = (ok 4096, true)
give_page true = (err ec_out_of_resource, true)

abbrev one_page : Pages Bool
one_page = record {
  alloc_page = give_page;
  free_page = λ m b. if m && (4096 == b) then (ec_success, false) else (ec_invalid_state, m);
}

abbrev held_of : Bool → ℕ → ℕ
held_of m a = if m && (4096 == a) then 1 else 0

one_page_gives : (m m' : Bool) (b : ℕ) → give_page m ≡ (ok b, m') → IsGiven held_of m b m'
one_page_gives false m' b run =
    let page : 4096 ≡ b = ok-injective (ap (λ (x : Result ℕ × Bool). x.0) run) in
    let now : true ≡ m' = ap (λ (x : Result ℕ × Bool). x.1) run in
    (
      omega (arith, page),
      omega (arith, page),
      omega (arith, page),
      refl,
      λ a. subst (λ z. held_of z a ≡ (if b == a then 1 else 0)) now (ground (arith, page)),
    )
one_page_gives true m' b run =
    let failed : err ec_out_of_resource ≡ ok b = ap (λ (x : Result ℕ × Bool). x.0) run in
    absurd (cc failed)

one_page_fails :
    (m m' : Bool) (e : Status) → give_page m ≡ (err e, m') → (a : ℕ) → held_of m' a ≡ held_of m a
one_page_fails false m' e run a =
    let failed : ok 4096 ≡ err e = ap (λ (x : Result ℕ × Bool). x.0) run in absurd (cc failed)
one_page_fails true m' e run a =
    let now : true ≡ m' = ap (λ (x : Result ℕ × Bool). x.1) run in ap (λ z. held_of z a) (sym now)

one_page_takes :
    (m : Bool) (b : ℕ)
    → 0 < held_of m b
    → (m' : Bool) × (one_page.free_page m b ≡ (ec_success, m'))
      × ((a : ℕ) → held_of m' a ≡ (if b == a then held_of m a - 1 else held_of m a))
one_page_takes false b has = absurd (omega arith)
one_page_takes true b has =
    let page : (4096 == b) ≡ true = ground arith in
    let same : 4096 ≡ b = ground arith in (false, simp page refl, λ a. ground (arith, same))

one_page-IsPages : IsPages one_page held_of
one_page-IsPages = record { gives = one_page_gives; fails = one_page_fails; takes = one_page_takes }

abbrev started : Pool
started = empty_pool alive 2000 2

-- A pool is started on it, and its two objects are handed out and one comes back.
abbrev fresh : World Bool
fresh = record { pool = started; live = []; pending = []; machine = false }

slots_of_2000 : slots_per_page_of 2000 ≡ 2
unfolding slots_per_page_of header_size
slots_of_2000 = refl

header_of_2000 : header_size 2000 < 4096
unfolding header_size
header_of_2000 = omega arith

fresh-IsWorld : IsWorld held_of 2000 fresh
unfolding empty_pool
fresh-IsWorld = record {
  slot = (refl, omega arith, omega arith, header_of_2000, omega (arith, slots_of_2000));
  stock = empty-IsStock 2000 alive 2000 2;
  sized = λ still. refl;
  gone = λ off. absurd (cc off);
  owned = λ b. omega arith;
  apart = λ b. omega arith;
  aligned = λ b has. absurd (omega arith);
}

alloc-IsAllocation_example : IsAllocation one_page held_of 2000 fresh (alloc one_page started false)
unfolding empty_pool
alloc-IsAllocation_example =
    alloc-IsAllocation one_page held_of 2000 fresh one_page-IsPages fresh-IsWorld
      (omega (arith, slots_of_2000))

-- A thread grows the pool, gets the object at 6112, and frees it.
abbrev grown : Pool
grown = record started {
  free_list = 4112 ∷ [];
  page_list = 4096 ∷ [];
  total_slots = 2;
  used_slots = 1;
  peak_used_slots = 1;
  page_count = 1;
}

abbrev full : Pool
full = record grown { free_list = 6112 ∷ 4112 ∷ []; used_slots = 0 }

abbrev served : World Bool
served = record { pool = full; live = []; pending = []; machine = true }

prepared : prepare_one_page one_page false 2000 ≡ returns (ok (lay_out 4096 2000)) true
unfolding prepare_one_page lay_out_page header_size
prepared = refl

published :
    publish_prepared_page_and_pop one_page started (lay_out 4096 2000) true
    ≡ returns (some 6112, grown) true
unfolding publish_prepared_page_and_pop orphaned attach pop_head lay_out link_slots
    slots_per_page_of header_size empty_pool
published = refl

freed : free grown 6112 ≡ ok full
unfolding free empty_pool
freed = refl

busy : Steps one_page held_of 2000 fresh served
unfolding empty_pool lay_out
busy =
    after _ _
      (after _ _ (after _ _ done (prepares (lay_out 4096 2000) true prepared)) (
        publishes 4096 [] (some 6112) grown true (λ c. refl) (omega (arith, slots_of_2000))
          published))
      (frees 6112 [] full (refl, λ c. refl) freed)

Steps-IsExclusive_example :
    IsWorld held_of 2000 served
    × IsExclusive one_page held_of 2000 served
    × NoPanic one_page held_of 2000 served
Steps-IsExclusive_example =
    Steps-IsExclusive one_page held_of 2000 one_page-IsPages fresh served fresh-IsWorld busy
