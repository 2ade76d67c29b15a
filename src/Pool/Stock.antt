-- ===== src/Pool/Stock.antt =====
-- The invariant of a pool with the objects handed out, and the operations that keep it.
use himu_os.Prelude.{
  ℕ, suc, ◌+◌, ◌%◌, ◌^◌, ◌≤◌, ◌<◌, ◌≡◌, inl, inr, refl, ap, ◌∙◌, true, false, List, [], ◌∷◌, ◌++◌,
  Option, none, some, ◌==◌, leb, ltb, count, length, if◌then◌else◌, add32, sub32, ok, Bool-cases,
  arith,
}
use himu_os.Pool.Operations.{Magic, Pool, is_alive, pop_head, try_pop_node, free}
use himu_os.Pool.Start.{empty_pool}
use himu_os.Pool.Slots.{IsSlotSize, IsSlot, IsSlot-inside}

-- Every slot is free or handed out, once, and lies on a page of the pool; the counts are the lengths.
pub record IsStock (size : ℕ) (p : Pool) (live : List ℕ) : Type 0 where
  pub once : (a : ℕ) → count a p.free_list + count a live ≤ 1
  pub placed :
      (a : ℕ)
      → 0 < count a p.free_list + count a live
      → (b : ℕ) × (0 < count b p.page_list) × IsSlot size b a
  pub used : p.used_slots ≡ length live
  pub total : p.total_slots ≡ length p.free_list + length live
  pub word : p.total_slots < 2 ^ 32
  pub pages_once : (b : ℕ) → count b p.page_list ≤ 1
  pub aligned : (b : ℕ) → 0 < count b p.page_list → b % 4096 ≡ 0
  pub peak : (p.used_slots ≤ p.peak_used_slots) × (p.peak_used_slots ≤ p.total_slots)

pub empty-IsStock :
    (size : ℕ) (magic : Magic) (slot_size slots : ℕ)
    → IsStock size (empty_pool magic slot_size slots) []
unfolding empty_pool
empty-IsStock size magic slot_size slots = record {
  once = λ a. omega arith;
  placed = λ a stands. absurd (omega arith);
  used = refl;
  total = refl;
  word = omega arith;
  pages_once = λ c. omega arith;
  aligned = λ c has. absurd (omega arith);
  peak = omega arith;
}

pub count-append : (a : ℕ) (xs ys : List ℕ) → count a (xs ++ ys) ≡ count a xs + count a ys
count-append a [] ys = omega arith
count-append a (x ∷ xs) ys = ground (arith, count-append a xs ys)

-- What a pop does: nothing where no node is free, and otherwise it hands out the head.
abbrev pub Popped : ℕ → Pool → List ℕ → Option ℕ × Pool → Type 0
Popped size p live (none, p') = (p' ≡ p) × ((is_alive p.magic ≡ true) → p.free_list ≡ [])
Popped size p live (some a, p') =
    IsStock size p' (a ∷ live)
    × (◌≡◌ {A = ℕ} (count a live) 0)
    × (p.free_list ≡ a ∷ p'.free_list)
    × (p'.page_list ≡ p.page_list)
    × (p'.magic ≡ p.magic)
    × (p'.slot_size ≡ p.slot_size)

abbrev taken : Pool → List ℕ → Pool
taken p rest =
    let used = add32 p.used_slots 1 in
    record p {
      free_list = rest;
      used_slots = used;
      peak_used_slots = if ltb p.peak_used_slots used then used else p.peak_used_slots;
    }

-- The objects without one that is handed out.
abbrev pub IsWithout : List ℕ → ℕ → List ℕ → Type 0
IsWithout live a live' =
    (length live ≡ suc (length live'))
    × ((c : ℕ) → count c live ≡ (if a == c then suc (count c live') else count c live'))

module _ (size : ℕ) (p : Pool) (live : List ℕ) (v : IsStock size p live) where
  module _ (a : ℕ) (rest : List ℕ) (e : p.free_list ≡ a ∷ rest) where
    head_counts : (c : ℕ) → count c p.free_list ≡ count c (a ∷ rest)
    head_counts c = ap (count c) e

    one_more : add32 p.used_slots 1 ≡ p.used_slots + 1
    one_more = omega (arith, v.used, v.word, v.total, ap (length {0}) e)

    taken-IsStock : IsStock size (taken p rest) (a ∷ live)
    taken-IsStock = record {
      once = λ c. ground (arith, v.once c, head_counts c);
      placed = λ c stands. v.placed c (ground (arith, head_counts c, stands));
      used = omega (arith, one_more, v.used);
      total = omega (arith, v.total, ap (length {0}) e);
      word = v.word;
      pages_once = v.pages_once;
      aligned = v.aligned;
      peak = ground (arith, one_more, v.peak, v.used, v.total, ap (length {0}) e);
    }

    head-new : ◌≡◌ {A = ℕ} (count a live) 0
    head-new = ground (arith, v.once a, head_counts a)

  pub pop_head-Popped :
      (nodes : List ℕ)
      → p.free_list ≡ nodes
      → (r : Option ℕ × Pool) × (pop_head p nodes ≡ ok r) × Popped size p live r
  unfolding pop_head
  pop_head-Popped [] e = ((none, p), refl, (refl, λ on. e))
  pop_head-Popped (a ∷ rest) e =
      let within : leb (add32 p.used_slots 1) p.total_slots ≡ true =
        ground (arith, one_more a rest e, v.total, v.used, ap (length {0}) e) in
      (
        (some a, taken p rest),
        rw within refl,
        (taken-IsStock a rest e, head-new a rest e, e, refl, refl, refl),
      )

  pub try_pop_node-Popped : (r : Option ℕ × Pool) × (try_pop_node p ≡ ok r) × Popped size p live r
  unfolding try_pop_node
  try_pop_node-Popped = elim (Bool-cases (is_alive p.magic)) [
    | inl e ↦ simp e (pop_head-Popped p.free_list refl)
    | inr e ↦ simp e ((none, p), refl, (refl, λ on. absurd (cc (on, e))))
  ]

  module _ (sized : IsSlotSize size) (a : ℕ) (live' : List ℕ) (out : IsWithout live a live') where
    abbrev returned : Pool
    returned = record p { free_list = a ∷ p.free_list; used_slots = sub32 p.used_slots 1 }

    one_less : sub32 p.used_slots 1 ≡ length live'
    one_less = omega (arith, v.used, v.word, v.total, out.0)

    returned-IsStock : IsStock size returned live'
    returned-IsStock = record {
      once = λ c. ground (arith, v.once c, out.1 c);
      placed = λ c stands. v.placed c (ground (arith, out.1 c, stands));
      used = one_less;
      total = omega (arith, v.total, out.0);
      word = v.word;
      pages_once = v.pages_once;
      aligned = v.aligned;
      peak = omega (arith, one_less, v.peak.0, v.peak.1, v.used, out.0);
    }

    pub free-IsStock : (free p a ≡ ok returned) × IsStock size returned live'
    unfolding free
    free-IsStock =
        let self : (a == a) ≡ true = ground arith in
        let here : count a live ≡ suc (count a live') = out.1 a ∙ rw self refl in
        let (b, has, slot) = v.placed a (omega (arith, here)) in
        let real : (a == 0) ≡ false = ground (arith, (IsSlot-inside size b a sized slot).0) in
        let some_used : (p.used_slots == 0) ≡ false = ground (arith, v.used, out.0) in
        (simp (real, some_used) refl, returned-IsStock)
