-- ===== src/Kva/Slots.antt =====
-- What the writes of the fixmap do: a page written alone, a slot taken, given back or retired.
use himu_os.Prelude.{
  ℕ, ◌+◌, ◌<◌, ◌≡◌, inl, refl, sym, subst, ap, ◌∙◌, true, false, List, length, set, arith,
}
use himu_os.Kva.State.{RangeRecord, Kva, arena_at, record_at, page_state, blank_record}
use himu_os.Kva.Arena.{mark_pages, layout_state}
use himu_os.Kva.Range.{range_record}
use himu_os.Kva.Fixmap.{fixmap_arena_base, put_page, take_slot, give_back}
use himu_os.Kva.Machine.{Machine}
use himu_os.Kva.Invariant.{Holds, IsKva, Paints, Records}
use himu_os.Kva.Found.{mark_pages-Paints, set-Records}
use himu_os.Kva.Occupy.{taken-IsKva}
use himu_os.Kva.Vacate.{given-IsKva}
use himu_os.Kva.Retire.{retired-IsKva}

-- The fixmap arena is the one its tokens are decoded for, with a generation for each slot.
pub record IsFixmap (s : Kva) : Type 0 where
  pub slots : (arena_at s 1).page_count ≡ 64
  pub base : (arena_at s 1).base_address ≡ fixmap_arena_base
  pub generations : length s.slot_generations ≡ 64

mark_one :
    (states : List ℕ) (page state : ℕ)
    → mark_pages (λ k. state) page 1 states ≡ set states page state
unfolding mark_pages
mark_one states page state = let here : page + 0 ≡ page = omega arith in rw here refl

pub put_page-Paints :
    (s s' : Kva) (t page state : ℕ)
    → t < length s.arenas
    → page < length (arena_at s t).page_states
    → s'.arenas ≡ (put_page s t page state).arenas
    → Paints s s' t page 1 (λ k. state)
put_page-Paints s s' t page state ht hp e =
    mark_pages-Paints s s' t page 1 (λ k. state) ht (omega arith)
      (e
        ∙ ap (λ states. set s.arenas t (record (arena_at s t) { page_states = states }))
            (sym (mark_one (arena_at s t).page_states page state)))

Paints-ext :
    (s s' : Kva) (t base count : ℕ) (f g : ℕ → ℕ)
    → ((k : ℕ) → k < count → f k ≡ g k)
    → Paints s s' t base count f
    → Paints s s' t base count g
Paints-ext s s' t base count f g same p = record {
  inside = λ k h. p.inside k h ∙ same k h;
  outside = p.outside;
  arenas = p.arenas;
  sizes = p.sizes;
  counts = p.counts;
  bases = p.bases;
  bytes = p.bytes;
}

module _ (s : Kva) (v : IsKva s) (x : IsFixmap s) where
  pub Paints-IsFixmap :
      (s' : Kva) (t base count : ℕ) (f : ℕ → ℕ)
      → Paints s s' t base count f
      → length s'.slot_generations ≡ length s.slot_generations
      → IsFixmap s'
  Paints-IsFixmap s' t base count f p e = record {
    slots = p.counts 1 ∙ x.slots;
    base = p.bases 1 ∙ x.base;
    generations = e ∙ x.generations;
  }

  slot-fits : (slot : ℕ) → slot < 64 → slot < length (arena_at s 1).page_states
  slot-fits slot h = omega (arith, v.sized 1, x.slots)

  pub retire-Paints : (slot : ℕ) → slot < 64 → Paints s (put_page s 1 slot 3) 1 slot 1 (λ k. 3)
  retire-Paints slot h =
      put_page-Paints s (put_page s 1 slot 3) 1 slot 3 (omega (arith, v.arena_count))
        (slot-fits slot h) refl

  pub retire-IsKva :
      (slot : ℕ) → slot < 64 → ◌≡◌ {A = ℕ} (page_state s 1 slot) 0 → IsKva (put_page s 1 slot 3)
  retire-IsKva slot h free =
      retired-IsKva s (put_page s 1 slot 3) 1 slot v (omega arith) free (retire-Paints slot h) refl

  module _ {M : Type 0} (os : Machine M) (physical attributes idx : ℕ) (at : idx < 512)
      (unused : (record_at s idx).in_use ≡ false) (slot generation : ℕ) (inside : slot < 64)
      (free : ◌≡◌ {A = ℕ} (page_state s 1 slot) 0) (pos : 0 < generation) (gens : List ℕ)
      (size : length gens ≡ length s.slot_generations) where
    -- The state with the slot's generation written and the slot taken.
    abbrev pub taken : Kva
    taken =
        take_slot os physical attributes idx (record s { slot_generations = gens }) slot generation

    abbrev slot_record : RangeRecord
    slot_record = range_record 1 idx generation slot 1 1 0 0 false

    taken-Paints : Paints s taken 1 slot 1 (layout_state 0 1)
    unfolding take_slot layout_state
    taken-Paints =
        Paints-ext s taken 1 slot 1 (λ k. 1) (layout_state 0 1) (λ k h. ground arith)
          (put_page-Paints s taken 1 slot 1 (omega (arith, v.arena_count)) (slot-fits slot inside)
            refl)

    pub taken-Records : Records s taken idx slot_record
    unfolding take_slot
    taken-Records = set-Records s taken idx slot_record (omega (arith, v.record_count)) refl

    pub taken-valid : IsKva taken × IsFixmap taken
    unfolding take_slot
    taken-valid =
        let p = taken-Paints in
        let new : Holds taken slot_record = (
          omega arith,
          rw (p.counts 1) (omega (arith, x.slots)),
          omega arith,
          omega arith,
          pos,
          p.inside,
        ) in
        (
          taken-IsKva s taken idx slot_record v taken-Records at p refl new
              (λ k h. subst (λ q. ◌≡◌ {A = ℕ} (page_state s 1 q) 0) (omega arith) free) unused refl,
          Paints-IsFixmap taken 1 slot 1 (layout_state 0 1) p size,
        )

    pub taken-page : ◌≡◌ {A = ℕ} (page_state taken 1 slot) 1
    unfolding layout_state
    taken-page =
        let here : slot + 0 ≡ slot = omega arith in
        subst (λ q. ◌≡◌ {A = ℕ} (page_state taken 1 q) 1) here (taken-Paints.inside 0 (omega arith))

-- A slot taken and given back: its page is free and its record is cleared.
pub give_back-valid :
    {M : Type 0} (os : Machine M) (physical attributes idx : ℕ) (s : Kva) (slot generation : ℕ)
    → IsKva s
    → IsFixmap s
    → idx < 512
    → slot < 64
    → record_at s idx ≡ range_record 1 idx generation slot 1 1 0 0 false
    → IsKva (give_back os physical attributes idx s slot)
      × IsFixmap (give_back os physical attributes idx s slot)
      × ((record_at (give_back os physical attributes idx s slot) idx).in_use ≡ false)
unfolding give_back
give_back-valid os physical attributes idx s slot generation v x at inside e =
    let s' = give_back os physical attributes idx s slot in
    let p : Paints s s' 1 slot 1 (λ k. 0) =
      put_page-Paints s s' 1 slot 0 (omega (arith, v.arena_count)) (slot-fits s v x slot inside)
        refl in
    let w : Records s s' idx (blank_record (idx + 1)) =
      set-Records s s' idx (blank_record (idx + 1)) (omega (arith, v.record_count)) refl in
    let used : (record_at s idx).in_use ≡ true = ap (λ r. r.in_use) e in
    (
      given-IsKva s s' idx 0 v used w at
          (subst (λ r. Paints s s' r.arena r.base_page_index r.total_pages (λ k. 0)) (sym e) p)
          (inl refl),
      Paints-IsFixmap s v x s' 1 slot 1 (λ k. 0) p refl,
      ap (λ r. r.in_use) w.written,
    )
