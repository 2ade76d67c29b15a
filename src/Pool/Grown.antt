-- ===== src/Pool/Grown.antt =====
-- A page that is laid out and attached adds its slots to the free ones.
use himu_os.Prelude.{
  ℕ, ◌+◌, ◌%◌, ◌^◌, ◌≤◌, ◌<◌, ◌≡◌, inl, inr, refl, ap, subst, true, false, List, [], ◌∷◌, ◌++◌,
  ◌==◌, count, length, length-append, add32, ok, Bool-cases, arith,
}
use himu_os.Pool.Layout.{slots_per_page_of, PreparedPage, lay_out}
use himu_os.Pool.Operations.{Pool, is_nil, check_page, attach}
use himu_os.Pool.Slots.{IsSlotSize, IsSlot, IsSlot-inside, lay_out-slots}
use himu_os.Pool.Stock.{IsStock, count-append}

module _ (size : ℕ) (p : Pool) (live : List ℕ) (b : ℕ) (sized : IsSlotSize size)
    (v : IsStock size p live) (fresh : ◌≡◌ {A = ℕ} (count b p.page_list) 0) (aligned : b % 4096 ≡ 0)
    (room : p.total_slots + slots_per_page_of size < 2 ^ 32) where
  abbrev page : PreparedPage
  page = lay_out b size

  -- A slot of the new page is neither free nor handed out before.
  new_slot : (a : ℕ) → 0 < count a page.slots → ◌≡◌ {A = ℕ} (count a p.free_list + count a live) 0
  new_slot a here = elim (Bool-cases (count a p.free_list + count a live == 0)) [
    | inl none_yet ↦ ground arith
    | inr some_yet ↦
        let (c, has, slot) = v.placed a (ground arith) in
        let old = IsSlot-inside size c a sized slot in
        let new =
          IsSlot-inside size b a sized ((lay_out-slots b size (omega (arith, sized.1))).2 a here) in
        let same : b ≡ c = omega (arith, old, new, aligned, v.aligned c has) in
        absurd (omega (arith, has, fresh, ap (λ x. count x p.page_list) same))
  ]

  pub attach-IsStock : IsStock size (attach p page) live
  unfolding attach lay_out
  attach-IsStock =
      let (long, once, placed) = lay_out-slots b size (omega (arith, sized.1)) in
      let count_of : page.slot_count ≡ slots_per_page_of size = unfold lay_out in refl in
      let total : add32 p.total_slots page.slot_count ≡ p.total_slots + slots_per_page_of size =
        omega (arith, count_of, room) in
      record {
        once = λ a. elim (Bool-cases (count a page.slots == 0)) [
          | inl out ↦ ground (arith, count-append a page.slots p.free_list, v.once a, out)
          | inr here ↦
              ground
                (arith, count-append a page.slots p.free_list, once a, new_slot a (ground arith))
        ];
        placed = on_page;
        used = v.used;
        total = omega (arith, total, v.total, length-append {0} page.slots p.free_list, long);
        word = omega (arith, total, room);
        pages_once = pages_once;
        aligned = all_aligned;
        peak = omega (arith, v.peak, total);
      }
    where
      pages_once : (c : ℕ) → count c (b ∷ p.page_list) ≤ 1
      pages_once c = elim (Bool-cases (b == c)) [
        | inl e ↦
            let same : b ≡ c = ground arith in
            rw e (omega (arith, subst (λ x. ◌≡◌ {A = ℕ} (count x p.page_list) 0) same fresh))
        | inr e ↦ rw e (v.pages_once c)
      ]

      all_aligned : (c : ℕ) → 0 < count c (b ∷ p.page_list) → c % 4096 ≡ 0
      all_aligned c has = elim (Bool-cases (b == c)) [
        | inl e ↦ let same : b ≡ c = ground arith in subst (λ x. x % 4096 ≡ 0) same aligned
        | inr e ↦ v.aligned c (ground (arith, has, e))
      ]

      on_page :
          (a : ℕ)
          → 0 < count a (page.slots ++ p.free_list) + count a live
          → (c : ℕ) × (0 < count c (b ∷ p.page_list)) × IsSlot size c a
      on_page a stands = elim (Bool-cases (count a page.slots == 0)) [
        | inr here ↦
            let self : (b == b) ≡ true = ground arith in
            (
              b,
              rw self (omega arith),
              (lay_out-slots b size (omega (arith, sized.1))).2 a (ground arith),
            )
        | inl out ↦
            let (c, has, slot) =
              v.placed a (ground (arith, count-append a page.slots p.free_list, stands, out)) in
            (c, ground (arith, has), slot)
      ]

  some_slots : is_nil page.slots ≡ false
  some_slots =
      by page.slots (omega (arith, (lay_out-slots b size (omega (arith, sized.1))).0, sized.4))
    where
      by : (xs : List ℕ) → 0 < length xs → is_nil xs ≡ false
      by [] h = absurd (omega arith)
      by (x ∷ xs) h = refl

  pub check_page-passes : check_page page ≡ ok tt
  check_page-passes =
      let counted : (page.slot_count == 0) ≡ false = unfold lay_out in ground (arith, sized.4) in
      rw (some_slots, counted) refl

  -- There is a node to pop.
  pub attach-some : is_nil (attach p page).free_list ≡ false
  unfolding attach
  attach-some = by page.slots some_slots
    where
      by : (xs : List ℕ) → is_nil xs ≡ false → is_nil (xs ++ p.free_list) ≡ false
      by [] e = absurd (cc e)
      by (x ∷ xs) e = refl
