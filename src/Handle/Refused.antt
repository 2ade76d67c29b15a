-- ===== src/Handle/Refused.antt =====
-- Inserts and closes that fail change nothing.
use himu_os.Prelude.{
  ℕ, ◌<◌, ◌≡◌, ◌≢◌, ◌⊎◌, none, some, Status, ec_invalid_state, ec_illegal_argument,
  ec_out_of_resource,
}
use himu_os.Handle.Objects.{invalid_type, Header, Ref, Process, Store, get_header}
use himu_os.Handle.Table.{slot_at}

-- Why ExHandleInsert refuses, with the status of each reason.
pub data Refusal (s : Store) (x : Process) (r : Ref) (rights : ℕ) : Status → Type 0 where
  no_rights : rights ≡ 0 → Refusal s x r rights ec_illegal_argument
  no_slot :
      ((k : ℕ) → k < 32 → (slot_at x k).object ≢ none) → Refusal s x r rights ec_out_of_resource
  not_live :
      (h : Header)
      → get_header s r ≡ some h
      → (h.type ≡ invalid_type) ⊎ (h.reference_count ≡ 0)
      → Refusal s x r rights ec_invalid_state
