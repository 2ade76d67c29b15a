-- ===== src/Handle/Table.antt =====
-- The operations of kernel/ex/handle.c on the table of process `p`. Pointer arguments are not null.
-- An out parameter is a result: a handle 0 is EX_HANDLE_INVALID, and an object none is NULL.
use Prim.Native.Nat.{bit_and}
use himu_os.Prelude.{
  ℕ, ◌+◌, Bool, true, false, ◌||◌, not, Option, none, some, List, [], ◌∷◌, ◌==◌, if◌then◌else◌,
  get_or, set, replicate, Status, ec_success, ec_illegal_argument, ec_invalid_state,
  ec_out_of_resource,
}
use himu_os.Handle.Objects.{
  ObjectType, process_type, thread_type, console_type, invalid_type, Ref, process_ref, thread_ref,
  console_ref, Slot, Process, Store, Run, succeeds, put_process, get_header, is_valid_type,
  object_retain, release_console, release_process, release_thread,
}
use himu_os.Handle.Codes.{
  max_handles, invalid_handle, advance_generation, encode_handle, decode_handle,
}

abbrev pub right_query : ℕ
right_query = 1

abbrev pub right_close : ℕ
right_close = 2

abbrev pub right_process_self : ℕ
right_process_self = 4

abbrev pub right_thread_self : ℕ
right_thread_self = 8

abbrev pub has_rights : ℕ → ℕ → Bool
has_rights rights desired = bit_and rights desired == desired

abbrev pub empty_slot : Slot
empty_slot = record { object = none; rights = 0; generation = 0 }

-- `memset(table, 0, sizeof(*table))`.
unfoldable pub initialize_table : List Slot
initialize_table = replicate max_handles empty_slot

abbrev pub slot_at : Process → ℕ → Slot
slot_at x i = get_or x.slots i empty_slot

abbrev pub put_slot : Store → ℕ → Process → ℕ → Slot → Store
put_slot s p x i slot = put_process s p (some (record x { slots = set x.slots i slot }))

-- KiRetainHandleObject: by the type in the header.
unfoldable pub retain_handle_object : Store → Ref → Run
retain_handle_object s r = elim (get_header s r) [
  | none ↦ none
  | some h ↦ if is_valid_type h.type then object_retain s r h.type else some (s, ec_invalid_state)
]

unfoldable pub release_handle_object : Store → Ref → Run
release_handle_object s (process_ref p) = release_process s p
release_handle_object s (thread_ref t) = release_thread s t
release_handle_object s (console_ref p) = elim (release_console s p) [
  | none ↦ none
  | some (s', status, remaining) ↦ some (s', status)
]

abbrev pub is_free : Slot → Bool
is_free slot = elim slot.object [ none ↦ true | some r ↦ false ]

-- The scan of ExHandleInsert over the slots from `i` on.
unfoldable pub find_free : List Slot → ℕ → Option ℕ
find_free [] i = none
find_free (slot ∷ rest) i = if is_free slot then some i else find_free rest (i + 1)

abbrev pub filled : Slot → Ref → ℕ → Slot
filled slot r rights = record {
  object = some r;
  rights = rights;
  generation = if slot.generation == 0 then advance_generation 0 else slot.generation;
}

-- The slot is written in the process as the retain left it, which may be the object itself.
unfoldable pub fill_slot : Store → ℕ → ℕ → Ref → ℕ → Option (Store × Status × ℕ)
fill_slot s p i r rights = elim (s.processes p) [
  | none ↦ none
  | some x ↦
      let slot = filled (slot_at x i) r rights in
      let handle = encode_handle i slot.generation in
      some (
        put_slot s p x i slot,
        if handle == invalid_handle then ec_invalid_state else ec_success,
        handle,
      )
]

unfoldable pub insert : Store → ℕ → Ref → ℕ → Option (Store × Status × ℕ)
insert s p r rights = elim (s.processes p) [
  | none ↦ none
  | some x ↦
      if rights == 0
      then some (s, ec_illegal_argument, invalid_handle)
      else elim (find_free x.slots 0) [
        | none ↦ some (s, ec_out_of_resource, invalid_handle)
        | some i ↦ elim (retain_handle_object s r) [
          | none ↦ none
          | some (s', status) ↦
              if succeeds status
              then fill_slot s' p i r rights
              else some (s', status, invalid_handle)
        ]
      ]
]

-- KiLookupHandleSlot: the index and the generation in the handle.
abbrev pub lookup_slot : ℕ → Option (ℕ × ℕ)
lookup_slot handle = decode_handle handle

-- The object that a handle names, or the status of the refusal: the tests that resolve and close
-- share.
unfoldable pub current_slot : Process → ℕ → Option ℕ
current_slot x handle = elim (lookup_slot handle) [
  | none ↦ none
  | some (i, generation) ↦
      if is_free (slot_at x i) || not ((slot_at x i).generation == generation) then none else some i
]

abbrev pub refusal : ℕ → Status
refusal handle = elim (lookup_slot handle) [
  | none ↦ ec_illegal_argument
  | some _ ↦ ec_invalid_state
]

abbrev pub with_object : Store → Ref → Run → Option (Store × Status × Option Ref)
with_object s r run = elim run [
  | none ↦ none
  | some (s', status) ↦ some (s', status, if succeeds status then some r else none)
]

unfoldable pub resolve : Store → ℕ → ℕ → ObjectType → ℕ → Option (Store × Status × Option Ref)
resolve s p handle expected desired = elim (s.processes p) [
  | none ↦ none
  | some x ↦
      if not (is_valid_type expected)
      then some (s, ec_illegal_argument, none)
      else elim (current_slot x handle) [
        | none ↦ some (s, refusal handle, none)
        | some i ↦
            if not (has_rights (slot_at x i).rights desired)
            then some (s, ec_invalid_state, none)
            else elim (slot_at x i).object [
              | none ↦ some (s, ec_invalid_state, none)
              | some r ↦ with_object s r (object_retain s r expected)
            ]
      ]
]

abbrev pub is_waitable : ObjectType → Bool
is_waitable process_type = true
is_waitable thread_type = true
is_waitable console_type = false
is_waitable invalid_type = false

unfoldable pub resolve_waitable : Store → ℕ → ℕ → ℕ → Option (Store × Status × Option Ref)
resolve_waitable s p handle desired = elim (s.processes p) [
  | none ↦ none
  | some x ↦ elim (current_slot x handle) [
    | none ↦ some (s, refusal handle, none)
    | some i ↦
        if not (has_rights (slot_at x i).rights desired)
        then some (s, ec_invalid_state, none)
        else elim (slot_at x i).object [
          | none ↦ some (s, ec_invalid_state, none)
          | some r ↦ elim (get_header s r) [
            | none ↦ none
            | some h ↦
                if is_waitable h.type
                then with_object s r (object_retain s r h.type)
                else some (s, ec_invalid_state, none)
          ]
        ]
  ]
]

unfoldable pub release_resolved_object : Store → Ref → Run
release_resolved_object s r = release_handle_object s r
