-- ===== src/Kva/Translated.antt =====
-- What `fixmap_acquire` does to the page tables.
use himu_os.Prelude.{
  ℕ, zero, suc, ◌%◌, ◌≡◌, ◌≢◌, ◌⊎◌, inl, inr, refl, subst, ap, true, false, ◌==◌, Bool-cases,
  Option, none, some, ok, Status, ec_success,
}
use himu_os.Kva.State.{Kva, arena_at, page_state, page_address}
use himu_os.Kva.Range.{first_unused}
use himu_os.Kva.Machine.{Mapping, Machine, succeeded, IsUnmapped}
use himu_os.Kva.Release.{is_slot_retired}
use himu_os.Kva.Fixmap.{
  encode_temp_map_token, next_slot_generation, put_page, Acquired, take_slot, slot_mapped, map_slot,
  slot_drawn, try_slot, scan_slots, fixmap_with_record, fixmap_acquire,
}

-- An address that was mapped or unmapped is so still.
abbrev pub SameAt : {M : Type 0} → Machine M → M → M → ℕ → Type 0
SameAt os m m' va =
    ((mapping : Mapping)
      → os.query_page m va ≡ ok mapping
      → mapping.present ≡ true
      → os.query_page m' va ≡ ok mapping)
    × (IsUnmapped os m va → IsUnmapped os m' va)

-- What KePtMapPage promises: with EC_SUCCESS the page is mapped to the physical page and the others are
-- as they were; else all are.
pub record IsMapper {M : Type 0} (os : Machine M) : Type 0 where
  pub maps :
      (m m' : M) (va pa attributes : ℕ)
      → os.map_page m va pa attributes ≡ (m', ec_success)
      → (os.query_page m' va ≡ ok (record { present = true; level = 1; physical_base = pa }))
        × ((other : ℕ) → va ≢ other → SameAt os m m' other)
  pub fails :
      (m m' : M) (va pa attributes : ℕ) (status : Status)
      → os.map_page m va pa attributes ≡ (m', status)
      → status ≢ ec_success
      → (other : ℕ) → SameAt os m m' other

-- With EC_SUCCESS the address handed out is mapped to the physical page; otherwise no address has
-- become mapped or unmapped.
abbrev pub IsMapped : {M : Type 0} → Machine M → ℕ → M → Acquired M → Type 0
IsMapped os physical m a =
    ((a.status ≡ ec_success)
      × (os.query_page a.machine a.virt_addr
          ≡ ok (record { present = true; level = 1; physical_base = physical }))
      × ((other : ℕ) → a.virt_addr ≢ other → SameAt os m a.machine other))
    ⊎ ((a.status ≢ ec_success) × ((va : ℕ) → SameAt os m a.machine va))

succeeded_sound : (status : Status) → succeeded status ≡ true → status ≡ ec_success
unfolding succeeded
succeeded_sound ec_success e = refl
succeeded_sound _ e = absurd (cc e)

pub failed_sound : (status : Status) → succeeded status ≡ false → status ≢ ec_success
unfolding succeeded
failed_sound status e same =
    let on : succeeded status ≡ true = ap succeeded same in absurd (cc (e, on))

same_at : {M : Type 0} (os : Machine M) (m : M) (va : ℕ) → SameAt os m m va
same_at os m va = (λ mapping e here. e, λ u. u)

module _ {M : Type 0} (os : Machine M) (mapper : IsMapper os) (physical attributes idx : ℕ)
    (m : M) where
  slot_mapped-IsMapped :
      (s : Kva) (slot token va : ℕ) (r : M × Status)
      → os.map_page m va physical attributes ≡ r
      → IsMapped os physical m (slot_mapped os physical attributes idx s slot token va r)
  unfolding slot_mapped
  slot_mapped-IsMapped s slot token va (m', status) e = elim (Bool-cases (succeeded status)) [
    | inl done ↦
        let mapped = mapper.maps m m' va physical attributes (
          subst (λ c. os.map_page m va physical attributes ≡ (m', c)) (succeeded_sound status done)
            e) in
        rw done (inl (refl, mapped.0, mapped.1))
    | inr failed ↦
        let bad = failed_sound status failed in
        rw failed (inr (bad, mapper.fails m m' va physical attributes status e bad))
  ]

  map_slot-IsMapped :
      (s : Kva) (slot token : ℕ)
      → IsMapped os physical m (map_slot os physical attributes idx s m slot token)
  unfolding map_slot
  map_slot-IsMapped s slot token = elim (Bool-cases (token == 0)) [
    | inl e ↦ rw e (inr (λ q. cc q, same_at os m))
    | inr e ↦ rw e (slot_mapped-IsMapped s slot token (page_address (arena_at s 1) slot) _ refl)
  ]

  slot_drawn-IsMapped :
      (slot : ℕ) (next : Kva → Acquired M)
      → ((s : Kva) → IsMapped os physical m (next s))
      → (s : Kva) (generation : ℕ)
      → IsMapped os physical m (slot_drawn os physical attributes idx m slot next (s, generation))
  unfolding slot_drawn
  slot_drawn-IsMapped slot next rest s generation = elim (Bool-cases (generation == 0)) [
    | inl e ↦ rw e (rest (put_page s 1 slot 3))
    | inr e ↦ rw e (
        map_slot-IsMapped (take_slot os physical attributes idx s slot generation) slot
          (encode_temp_map_token slot generation))
  ]

  scan_slots-IsMapped :
      (left slot : ℕ) (s : Kva)
      → IsMapped os physical m (scan_slots os physical attributes idx m left slot s)
  unfolding scan_slots try_slot
  scan_slots-IsMapped zero slot s = inr (λ q. cc q, same_at os m)
  scan_slots-IsMapped (suc left) slot s = elim (Bool-cases (page_state s 1 slot == 0)) [
    | inr e ↦ rw e (scan_slots-IsMapped left (suc slot) s)
    | inl e ↦ elim (Bool-cases (is_slot_retired s slot)) [
      | inl r ↦ rw (e, r) (scan_slots-IsMapped left (suc slot) (put_page s 1 slot 3))
      | inr r ↦
          let (drawn, generation) = next_slot_generation s slot in
          rw (e, r)
            (slot_drawn-IsMapped slot (scan_slots os physical attributes idx m left (suc slot))
              (scan_slots-IsMapped left (suc slot)) drawn generation)
    ]
  ]

-- Whatever the arguments and the state.
pub fixmap_acquire-IsMapped :
    {M : Type 0} (os : Machine M)
    → IsMapper os
    → (s : Kva) (m : M) (physical attributes : ℕ)
    → IsMapped os physical m (fixmap_acquire os s m physical attributes)
unfolding fixmap_acquire fixmap_with_record
fixmap_acquire-IsMapped os mapper s m physical attributes = elim (Bool-cases s.initialized) [
  | inr off ↦ simp off (inr (λ q. cc q, same_at os m))
  | inl on ↦ elim (Bool-cases (physical % 4096 == 0)) [
    | inr odd ↦ simp (on, odd) (inr (λ q. cc q, same_at os m))
    | inl even ↦ simp (on, even) (with_record (first_unused s))
  ]
]
  where
    with_record :
        (o : Option ℕ) → IsMapped os physical m (fixmap_with_record os s m physical attributes o)
    with_record none = inr (λ q. cc q, same_at os m)
    with_record (some idx) =
        scan_slots-IsMapped os mapper physical attributes idx m (arena_at s 1).page_count 0 s
