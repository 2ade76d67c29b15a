-- ===== src/Kva/Acquire.antt =====
-- `fixmap_acquire` against its contract.
use himu_os.Prelude.{
  ℕ, zero, suc, ◌+◌, ◌-◌, ◌%◌, ◌^◌, ◌≤◌, ◌<◌, ◌≡◌, ◌≢◌, ◌⊎◌, inl, inr, refl, sym, subst, ◌∙◌, true,
  false, ◌&&◌, ◌==◌, leb, ltb, Bool-cases, Option, none, some, List, get_or, set, length-set,
  get_or-set_self, arith, Status, ec_success, ec_out_of_resource,
}
use himu_os.Kva.State.{Kva, arena_at, record_at, page_state, page_address}
use himu_os.Kva.Range.{range_record, is_unused, first_unused}
use himu_os.Kva.Machine.{Machine, succeeded}
use himu_os.Kva.Release.{is_slot_retired}
use himu_os.Kva.Fixmap.{
  encode_temp_map_token, next_slot_generation, put_page, Acquired, not_acquired, take_slot,
  slot_mapped, map_slot, slot_drawn, try_slot, scan_slots, fixmap_with_record, fixmap_acquire,
}
use himu_os.Kva.Translated.{IsMapper, IsMapped, failed_sound, fixmap_acquire-IsMapped}
use himu_os.Kva.Invariant.{IsKva}
use himu_os.Kva.Found.{FirstFound, find_record-FirstFound}
use himu_os.Kva.Tokens.{decode_temp_map_handle-encode}
use himu_os.Kva.Slots.{
  IsFixmap, Paints-IsFixmap, retire-Paints, retire-IsKva, taken, taken-Records, taken-valid,
  taken-page, give_back-valid,
}

-- A free slot is taken for record `idx` under its next generation, which the token carries.
abbrev pub SlotGranted : {M : Type 0} → Kva → ℕ → Acquired M → Type 0
SlotGranted s idx a =
    (slot : ℕ) × (generation : ℕ) × (slot < 64)
    × (◌≡◌ {A = ℕ} (page_state s 1 slot) 0)
    × (generation ≡ get_or s.slot_generations slot 0 + 1)
    × (generation < 2 ^ 58)
    × (a.token ≡ encode_temp_map_token slot generation)
    × (a.virt_addr ≡ page_address (arena_at s 1) slot)
    × (record_at a.kva idx ≡ range_record 1 idx generation slot 1 1 0 0 false)
    × (get_or a.kva.slot_generations slot 0 ≡ generation)
    × (◌≡◌ {A = ℕ} (page_state a.kva 1 slot) 1)

abbrev pub SlotAcquired : {M : Type 0} → Kva → ℕ → Acquired M → Type 0
SlotAcquired s idx a =
    IsKva a.kva
    × IsFixmap a.kva
    × (((a.status ≡ ec_success) × SlotGranted s idx a)
        ⊎ ((a.status ≢ ec_success)
            × (◌≡◌ {A = ℕ} a.token 0)
            × ((record_at a.kva idx).in_use ≡ false)))

module _ {M : Type 0} (os : Machine M) (physical attributes idx : ℕ) (at : idx < 512) where
  module _ (s : Kva) (v : IsKva s) (x : IsFixmap s) (unused : (record_at s idx).in_use ≡ false)
      (slot : ℕ) (inside : slot < 64) (free : ◌≡◌ {A = ℕ} (page_state s 1 slot) 0)
      (fresh : get_or s.slot_generations slot 0 < 2 ^ 58 - 1) (m : M) where
    abbrev generation : ℕ
    generation = get_or s.slot_generations slot 0 + 1

    abbrev gens : List ℕ
    gens = set s.slot_generations slot generation

    abbrev s' : Kva
    s' =
        taken s v x os physical attributes idx at unused slot generation inside free (omega arith)
          gens (length-set s.slot_generations slot generation)

    -- The slot is mapped, or given back where the mapping fails.
    slot_mapped-SlotAcquired :
        (r : M × Status)
        → SlotAcquired s idx (
            slot_mapped os physical attributes idx s' slot
              (encode_temp_map_token slot generation)
              (page_address (arena_at s' 1) slot)
              r)
    unfolding slot_mapped take_slot
    slot_mapped-SlotAcquired (m', status) =
        let valid =
          taken-valid s v x os physical attributes idx at unused slot generation inside free
            (omega arith) gens (length-set s.slot_generations slot generation) in
        let w =
          taken-Records s v x os physical attributes idx at unused slot generation inside free
            (omega arith) gens (length-set s.slot_generations slot generation) in
        let page =
          taken-page s v x os physical attributes idx at unused slot generation inside free
            (omega arith) gens (length-set s.slot_generations slot generation) in
        elim (Bool-cases (succeeded status)) [
          | inl e ↦ rw e (
            valid.0,
            valid.1,
            inl (
              refl,
              (
                slot,
                generation,
                inside,
                free,
                refl,
                omega arith,
                refl,
                address valid.1,
                w.written,
                get_or-set_self s.slot_generations slot generation 0 (omega (arith, x.generations)),
                page,
              ),
            ),
          )
          | inr e ↦
              let back =
                give_back-valid os physical attributes idx s' slot generation valid.0 valid.1 at
                  inside w.written in
              rw e (back.0, back.1, inr (failed_sound status e, refl, back.2))
        ]
      where
        address : IsFixmap s' → page_address (arena_at s' 1) slot ≡ page_address (arena_at s 1) slot
        address y = rw (y.base, x.base) refl

    -- The generation drawn for a slot that is not retired, and its mapping.
    pub slot_drawn-SlotAcquired :
        (next : Kva → Acquired M)
        → SlotAcquired s idx
            (slot_drawn os physical attributes idx m slot next (next_slot_generation s slot))
    unfolding slot_drawn map_slot next_slot_generation
    slot_drawn-SlotAcquired next =
        let drawn : next_slot_generation s slot
            ≡ (record s { slot_generations = gens }, generation) =
          let low : leb 64 slot ≡ false = ground arith in
          let below : leb (2 ^ 58 - 1) (get_or s.slot_generations slot 0) ≡ false = ground arith in
          rw (low, below) refl in
        let some_generation : (generation == 0) ≡ false = ground arith in
        let some_token : (encode_temp_map_token slot generation == 0) ≡ false =
          ground (arith, decode_temp_map_handle-encode slot generation inside) in
        rw (drawn, some_generation, some_token)
          (slot_mapped-SlotAcquired
            (os.map_page m (page_address (arena_at s' 1) slot) physical attributes))

  -- A scan that goes on from a retired slot finds what the scan from here finds.
  retired-SlotAcquired :
      (s : Kva) (v : IsKva s) (x : IsFixmap s) (slot : ℕ)
      → slot < 64
      → (a : Acquired M) → SlotAcquired (put_page s 1 slot 3) idx a
      → SlotAcquired s idx a
  retired-SlotAcquired s v x slot inside a (v', x', inr lost) = (v', x', inr lost)
  retired-SlotAcquired s v x slot inside a
        (
          v',
          x',
          inl (done, (found, gen, hs, free, next, small, token, address, row, slots, page)),
        ) =
      let p = retire-Paints s v x slot inside in
      let other : found ≢ slot = λ same.
        let here : slot + 0 ≡ found = omega arith in
        omega (
          arith,
          free,
          subst (λ q. ◌≡◌ {A = ℕ} (page_state (put_page s 1 slot 3) 1 q) 3) here
              (p.inside 0 (omega arith)),
        ) in
      let kept : page_state (put_page s 1 slot 3) 1 found ≡ page_state s 1 found =
        p.outside 1 found (inr (omega arith)) in
      let place : page_address (arena_at (put_page s 1 slot 3) 1) found
          ≡ page_address (arena_at s 1) found =
        rw (p.bases 1) refl in
      (
        v',
        x',
        inl (
          done,
          (found, gen, hs, sym kept ∙ free, next, small, token, address ∙ place, row, slots, page),
        ),
      )

  scan_slots-SlotAcquired :
      (m : M) (left slot : ℕ) (s : Kva)
      → slot + left ≤ 64
      → IsKva s
      → IsFixmap s
      → (record_at s idx).in_use ≡ false
      → SlotAcquired s idx (scan_slots os physical attributes idx m left slot s)
  unfolding scan_slots try_slot is_slot_retired
  scan_slots-SlotAcquired m zero slot s h v x unused = (v, x, inr (λ q. cc q, refl, unused))
  scan_slots-SlotAcquired m (suc left) slot s h v x unused =
      elim (Bool-cases (page_state s 1 slot == 0)) [
        | inr e ↦ rw e (scan_slots-SlotAcquired m left (suc slot) s (omega arith) v x unused)
        | inl e ↦
            let free : ◌≡◌ {A = ℕ} (page_state s 1 slot) 0 = ground arith in
            elim (Bool-cases (ltb slot 64 && leb (2 ^ 58 - 1) (get_or s.slot_generations slot 0))) [
              | inl r ↦
                  let p = retire-Paints s v x slot (omega arith) in
                  rw (e, r)
                    (retired-SlotAcquired s v x slot (omega arith)
                      (scan_slots os physical attributes idx m left (suc slot)
                        (put_page s 1 slot 3))
                      (scan_slots-SlotAcquired m left (suc slot) (put_page s 1 slot 3) (omega arith)
                        (retire-IsKva s v x slot (omega arith) free)
                        (Paints-IsFixmap s v x (put_page s 1 slot 3) 1 slot 1 (λ k. 3) p refl)
                        unused))
              | inr r ↦
                  rw (e, r)
                    (slot_drawn-SlotAcquired s v x unused slot (omega arith) free (ground arith) m
                      (scan_slots os physical attributes idx m left (suc slot)))
            ]
      ]

-- An acquisition with the first record that is not in use, or with none.
abbrev pub IsAcquired : {M : Type 0} → Kva → M → Acquired M → Type 0
IsAcquired s m a =
    ((idx : ℕ) × (idx < 512) × ((record_at s idx).in_use ≡ false) × SlotAcquired s idx a)
    ⊎ ((a ≡ not_acquired ec_out_of_resource s m)
        × ((idx : ℕ) → idx < 512 → (record_at s idx).in_use ≡ true))

fixmap_with_record-IsAcquired :
    {M : Type 0} (os : Machine M) (s : Kva) (m : M) (physical attributes : ℕ)
    → IsKva s
    → IsFixmap s
    → (o : Option ℕ) → FirstFound is_unused s.ranges 0 o
    → IsAcquired s m (fixmap_with_record os s m physical attributes o)
unfolding fixmap_with_record is_unused
fixmap_with_record-IsAcquired os s m physical attributes v x none all =
    inr (refl, λ idx h. ground (arith, all idx (rw v.record_count h)))
fixmap_with_record-IsAcquired os s m physical attributes v x (some idx)
      (k, h, here, unused, first) =
    let same : idx ≡ k = omega arith in
    let at : k < 512 = omega (arith, v.record_count) in
    let off : (record_at s k).in_use ≡ false = ground (arith, unused) in
    rw (same, x.slots)
      (inl (
        k,
        at,
        off,
        scan_slots-SlotAcquired os physical attributes k at m 64 0 s (omega arith) v x off,
      ))

-- On an initialized fixmap, an acquisition of a page-aligned page keeps the invariant. With EC_SUCCESS a
-- slot that was free is taken under its next generation, for a record that was not in use, the token
-- and the address are the slot's, the address is mapped to the physical page, and what else was mapped
-- or unmapped is so still. Otherwise no address has become mapped or unmapped, and the token is 0 and
-- the record tried is not in use; where every record is in use nothing changes and the status is
-- EC_OUT_OF_RESOURCE.
pub fixmap_acquire-IsAcquired :
    {M : Type 0} (os : Machine M)
    → IsMapper os
    → (s : Kva) (m : M) (physical attributes : ℕ) → IsKva s
    → IsFixmap s
    → s.initialized ≡ true
    → ◌≡◌ {A = ℕ} (physical % 4096) 0
    → IsAcquired s m (fixmap_acquire os s m physical attributes)
      × IsMapped os physical m (fixmap_acquire os s m physical attributes)
unfolding fixmap_acquire
fixmap_acquire-IsAcquired os mapper s m physical attributes v x on aligned =
    let start : (physical % 4096 == 0) ≡ true = ground arith in
    let run : fixmap_acquire os s m physical attributes
        ≡ fixmap_with_record os s m physical attributes (first_unused s) =
      simp (on, start) refl in
    (
      subst (IsAcquired s m) (sym run) (
          fixmap_with_record-IsAcquired os s m physical attributes v x (first_unused s)
            (find_record-FirstFound is_unused s.ranges 0)),
      fixmap_acquire-IsMapped os mapper s m physical attributes,
    )
