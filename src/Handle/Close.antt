-- ===== src/Handle/Close.antt =====
-- Closing handles of kernel/ex/handle.c: one, and all of a process.
use Prim.Native.Nat.{bit_and, bit_or}
use himu_os.Prelude.{
  ℕ, zero, suc, ◌+◌, Bool, false, ◌&&◌, not, Option, none, some, List, [], ◌∷◌, ◌==◌, if◌then◌else◌,
  Status, ec_success, ec_invalid_state,
}
use himu_os.Handle.Objects.{
  Ref, process_ref, thread_ref, console_ref, Slot, Store, Run, succeeds, put_process, put_thread,
  get_header, is_valid_type, release_process, retain_process, is_published_object,
}
use himu_os.Handle.Codes.{max_handles, invalid_handle, advance_generation, encode_handle}
use himu_os.Handle.Table.{
  right_close, right_process_self, right_thread_self, has_rights, slot_at, put_slot,
  release_handle_object, is_free, current_slot, refusal,
}

-- KiValidateCloseHandleSlot, for a slot that holds object `r`; the header is read for its type.
unfoldable pub validate_close : Store → Slot → Bool → Status
validate_close s slot allow_published = elim slot.object [
  | none ↦ ec_invalid_state
  | some r ↦
      if not (has_rights slot.rights right_close)
      then ec_invalid_state
      else if not allow_published
          && is_published_object s r
          && not (bit_and slot.rights (bit_or right_process_self right_thread_self) == 0)
      then ec_invalid_state
      else elim (get_header s r) [
        | none ↦ ec_invalid_state
        | some h ↦ if is_valid_type h.type then ec_success else ec_invalid_state
      ]
]

abbrev pub forget : ℕ → ℕ → ℕ
forget kept handle = if kept == handle then invalid_handle else kept

-- KiInvalidateObjectSelfHandleIfMatch: the handles that the object keeps of itself.
unfoldable pub invalidate_self : Store → Ref → ℕ → Store
invalidate_self s (process_ref p) handle = elim (s.processes p) [
  | none ↦ s
  | some x ↦ put_process s p (
      some (record x {
        self_handle = forget x.self_handle handle;
        wait_handle = forget x.wait_handle handle;
      }))
]
invalidate_self s (thread_ref t) handle = elim (s.threads t) [
  | none ↦ s
  | some x ↦ put_thread s t (some (record x { self_handle = forget x.self_handle handle }))
]
invalidate_self s (console_ref p) handle = elim (s.processes p) [
  | none ↦ s
  | some x ↦ elim x.stdout_owner [
    | none ↦ s
    | some o ↦ elim (s.processes o) [
      | none ↦ s
      | some y ↦ put_process s o (some (record y { stdout_handle = forget y.stdout_handle handle }))
    ]
  ]
]

abbrev pub cleared : Slot → Slot
cleared slot = record { object = none; rights = 0; generation = advance_generation slot.generation }

-- Invalidate, clear and release: what close does to a slot that passed.
unfoldable pub drop_slot : Store → ℕ → ℕ → Ref → ℕ → Run
drop_slot s p i r handle =
    let s' = invalidate_self s r handle in
    elim (s'.processes p) [
      | none ↦ none
      | some x ↦ release_handle_object (put_slot s' p x i (cleared (slot_at x i))) r
    ]

abbrev pub first_error : Status → Status → Status
first_error a b = if succeeds a then b else a

-- The reference that close takes on the process for its own time. The last result is the
-- caller's handle, which a close that drops the slot sets to EX_HANDLE_INVALID.
unfoldable pub release_owner : ℕ → Option (Store × Status × ℕ) → Option (Store × Status × ℕ)
release_owner p run = elim run [
  | none ↦ none
  | some (s, status, left) ↦ elim (release_process s p) [
    | none ↦ none
    | some (s', owner_status) ↦ some (s', first_error status owner_status, left)
  ]
]

abbrev pub with_handle : ℕ → Run → Option (Store × Status × ℕ)
with_handle left run = elim run [ none ↦ none | some (s, status) ↦ some (s, status, left) ]

unfoldable pub close_retained : Store → ℕ → ℕ → Option (Store × Status × ℕ)
close_retained s p handle = elim (s.processes p) [
  | none ↦ none
  | some x ↦ elim (current_slot x handle) [
    | none ↦ some (s, refusal handle, handle)
    | some i ↦
        let status = validate_close s (slot_at x i) false in
        if not (succeeds status) then some (s, status, handle) else elim (slot_at x i).object [
          | none ↦ some (s, ec_invalid_state, handle)
          | some r ↦ with_handle invalid_handle (drop_slot s p i r handle)
        ]
  ]
]

unfoldable pub close : Store → ℕ → ℕ → Option (Store × Status × ℕ)
close s p handle =
    if handle == invalid_handle then some (s, ec_success, handle) else elim (retain_process s p) [
      | none ↦ none
      | some (s', status) ↦
          if succeeds status
          then release_owner p (close_retained s' p handle)
          else some (s', ec_invalid_state, handle)
    ]

-- The first loop of KiHandleCloseAll: the first slot in use that may not be closed.
unfoldable pub validate_all : Store → Bool → List Slot → Status
validate_all s allow_published [] = ec_success
validate_all s allow_published (slot ∷ rest) =
    let status = if is_free slot then ec_success else validate_close s slot allow_published in
    if succeeds status then validate_all s allow_published rest else status

-- The second loop, over the `n` slots from `i` on.
unfoldable pub drop_all : ℕ → ℕ → ℕ → Store → Status → Run
drop_all zero i p s error = some (s, error)
drop_all (suc n) i p s error = elim (s.processes p) [
  | none ↦ none
  | some x ↦ elim (slot_at x i).object [
    | none ↦ drop_all n (i + 1) p s error
    | some r ↦ elim (drop_slot s p i r (encode_handle i (slot_at x i).generation)) [
      | none ↦ none
      | some (s', status) ↦ drop_all n (i + 1) p s' (first_error error status)
    ]
  ]
]

unfoldable pub close_all_retained : Store → ℕ → Bool → Run
close_all_retained s p allow_published = elim (s.processes p) [
  | none ↦ none
  | some x ↦
      let status = validate_all s allow_published x.slots in
      if succeeds status then drop_all max_handles 0 p s ec_success else some (s, status)
]

abbrev pub without_handle : Option (Store × Status × ℕ) → Run
without_handle run = elim run [ none ↦ none | some (s, status, left) ↦ some (s, status) ]

-- ExHandleCloseAll with `false`, ExHandleCloseAllForTeardown with `true`.
unfoldable pub close_all : Store → ℕ → Bool → Run
close_all s p allow_published = elim (retain_process s p) [
  | none ↦ none
  | some (s', status) ↦
      if succeeds status
      then without_handle
          (release_owner p (with_handle invalid_handle (close_all_retained s' p allow_published)))
      else some (s', ec_invalid_state)
]
