-- ===== src/Kva/Fixmap.antt =====
-- The fixmap: one page mapped for a while, under a token of its slot and the slot's generation.
use himu_os.Prelude.{
  ℕ, zero, suc, ◌+◌, ◌/◌, ◌%◌, false, ◌||◌, not, Option, none, some, ◌==◌, ltb, leb, if◌then◌else◌,
  get_or, set, Result, ok, err, ◌>>◌, require, Status, ec_success, ec_illegal_argument,
  ec_out_of_resource, ec_invalid_state, add64, mul64,
}
use Prim.Native.Nat.{bit_or}
use himu_os.Kva.State.{
  Kva, arena_fixmap, page_free, page_alloc, page_retired, fixmap_pages, generation_mask, arena_at,
  record_at, page_state, page_address, put_page_states, put_record, blank_record,
}
use himu_os.Kva.Range.{first_unused, range_record, find_record_by_usable_base}
use himu_os.Kva.Machine.{Machine, succeeded}
use himu_os.Kva.Release.{Teardown, released, refused, panicked, is_slot_retired, release_record}

-- KE_KVA_FIXMAP_ARENA_BASE
abbrev pub fixmap_arena_base : ℕ
fixmap_arena_base = 0xFFFF8FFFFFFC0000

unfoldable pub encode_temp_map_token : ℕ → ℕ → ℕ
encode_temp_map_token slot generation =
    if leb fixmap_pages slot
    then 0
    else if (generation == 0) || ltb generation_mask generation
    then 0
    else bit_or (mul64 generation 64) slot

unfoldable pub decode_temp_map_handle : ℕ → Result (ℕ × ℕ)
decode_temp_map_handle token =
    let slot = token % 64 in
    let generation = token / 64 in
    require (not (token == 0)) ec_invalid_state
    >> require
        (not (leb fixmap_pages slot || ((generation == 0) || ltb generation_mask generation)))
        ec_illegal_argument
    >> ok (slot, generation)

-- The slot's next generation, written and returned, or 0.
unfoldable pub next_slot_generation : Kva → ℕ → Kva × ℕ
next_slot_generation s slot =
    let generation = get_or s.slot_generations slot 0 in
    if leb fixmap_pages slot then (s, 0) else if leb generation_mask generation then (s, 0) else (
      record s { slot_generations = set s.slot_generations slot (generation + 1) },
      generation + 1,
    )

abbrev pub put_page : Kva → ℕ → ℕ → ℕ → Kva
put_page s arena_type page state =
    put_page_states s arena_type (set (arena_at s arena_type).page_states page state)

-- What the acquisition hands out: the status, the token and the address.
pub record Acquired (M : Type 0) : Type 0 where
  pub status : Status
  pub kva : Kva
  pub machine : M
  pub token : ℕ
  pub virt_addr : ℕ

abbrev pub not_acquired : {M : Type 0} → Status → Kva → M → Acquired M
not_acquired e s m = record { status = e; kva = s; machine = m; token = 0; virt_addr = 0 }

module _ {M : Type 0} (os : Machine M) (physical attributes : ℕ) (idx : ℕ) where
  -- The page and the record taken back.
  unfoldable pub give_back : Kva → ℕ → Kva
  give_back s slot =
      put_record (put_page s arena_fixmap slot page_free) idx (blank_record (idx + 1))

  unfoldable pub take_slot : Kva → ℕ → ℕ → Kva
  take_slot s slot generation =
      put_record (put_page s arena_fixmap slot page_alloc) idx
        (range_record arena_fixmap idx generation slot 1 1 0 0 false)

  unfoldable pub slot_mapped : Kva → ℕ → ℕ → ℕ → M × Status → Acquired M
  slot_mapped s slot token va (m, status) =
      if succeeded status
      then record { status = ec_success; kva = s; machine = m; token = token; virt_addr = va }
      else not_acquired status (give_back s slot) m

  unfoldable pub map_slot : Kva → M → ℕ → ℕ → Acquired M
  map_slot s m slot token =
      let va = page_address (arena_at s arena_fixmap) slot in
      if token == 0
      then not_acquired ec_invalid_state (give_back s slot) m
      else slot_mapped s slot token va (os.map_page m va physical attributes)

  -- A free slot with the generation drawn for it; `next` is the rest of the loop.
  unfoldable pub slot_drawn : M → ℕ → (Kva → Acquired M) → Kva × ℕ → Acquired M
  slot_drawn m slot next (s, generation) =
      if generation == 0
      then next (put_page s arena_fixmap slot page_retired)
      else map_slot (take_slot s slot generation) m slot (encode_temp_map_token slot generation)

  unfoldable pub try_slot : M → ℕ → (Kva → Acquired M) → Kva → Acquired M
  try_slot m slot next s =
      if not (page_state s arena_fixmap slot == page_free)
      then next s
      else if is_slot_retired s slot
      then next (put_page s arena_fixmap slot page_retired)
      else slot_drawn m slot next (next_slot_generation s slot)

  unfoldable pub scan_slots : M → ℕ → ℕ → Kva → Acquired M
  scan_slots m zero slot s = not_acquired ec_out_of_resource s m
  scan_slots m (suc left) slot s = try_slot m slot (scan_slots m left (suc slot)) s

module _ {M : Type 0} (os : Machine M) where
  unfoldable pub fixmap_with_record : Kva → M → ℕ → ℕ → Option ℕ → Acquired M
  fixmap_with_record s m physical attributes none = not_acquired ec_out_of_resource s m
  fixmap_with_record s m physical attributes (some idx) =
      scan_slots os physical attributes idx m (arena_at s arena_fixmap).page_count 0 s

  unfoldable pub fixmap_acquire : Kva → M → ℕ → ℕ → Acquired M
  fixmap_acquire s m physical attributes =
      if not s.initialized
      then not_acquired ec_invalid_state s m
      else if not (physical % 4096 == 0)
      then not_acquired ec_illegal_argument s m
      else fixmap_with_record s m physical attributes (first_unused s)

  unfoldable pub temp_phys_map_acquire : Kva → M → ℕ → ℕ → Acquired M
  temp_phys_map_acquire s m physical attributes =
      if not (physical % 4096 == 0)
      then not_acquired ec_illegal_argument s m
      else fixmap_acquire s m physical attributes

  unfoldable pub release_slot : Kva → M → ℕ → ℕ → Option ℕ → Teardown (Kva × M)
  release_slot s m slot generation none = refused ec_invalid_state
  release_slot s m slot generation (some idx) =
      if not ((record_at s idx).arena == arena_fixmap)
      then refused ec_invalid_state
      else if not (get_or s.slot_generations slot 0 == generation)
      then refused ec_invalid_state
      else release_record os s m idx

  unfoldable pub release_decoded : Kva → M → Result (ℕ × ℕ) → Teardown (Kva × M)
  release_decoded s m (err e) = refused e
  release_decoded s m (ok (slot, generation)) =
      release_slot s m slot generation
        (find_record_by_usable_base s (add64 fixmap_arena_base (mul64 slot 4096)))

  -- The token that the caller's handle keeps: cleared where the release is done.
  unfoldable pub temp_phys_map_release : Kva → M → ℕ → Teardown (Kva × M)
  temp_phys_map_release s m token = release_decoded s m (decode_temp_map_handle token)

  unfoldable pub token_after : {A : Type 0} → ℕ → Teardown A → ℕ
  token_after token (released a) = 0
  token_after token (refused e) = token
  token_after token (panicked e) = token

  unfoldable pub fixmap_release : Kva → M → ℕ → Teardown (Kva × M)
  fixmap_release s m token = temp_phys_map_release s m token
