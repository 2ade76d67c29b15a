-- ===== src/Handle/Objects.antt =====
-- The store of executive objects and their reference counts: kernel/ex/object.c, and retain,
-- release and destroy of kernel/ex/process.c and kernel/ex/thread.c. Every header keeps the type
-- and the destroy routine of its initialisation, so the routine is chosen by the object's kind. A
-- run is `none` where it touches an object that is not, or no longer, allocated.
use himu_os.Prelude.{
  ℕ, ◌+◌, ◌-◌, ◌%◌, Bool, true, false, ◌&&◌, ◌||◌, not, Option, none, some, List, [], ◌∷◌, ◌==◌,
  if◌then◌else◌, u32_mod, Status, ec_success, ec_invalid_state,
}

pub data ObjectType : Type 0 where
  invalid_type process_type thread_type console_type : ObjectType

abbrev pub type_code : ObjectType → ℕ
type_code invalid_type = 0
type_code process_type = 1
type_code thread_type = 2
type_code console_type = 3

pub record Header : Type 0 where
  pub type : ObjectType
  pub reference_count : ℕ

-- An object's header, by the record that holds it: the stdout service is part of its process.
pub data Ref : Type 0 where
  process_ref thread_ref console_ref : ℕ → Ref

pub record Slot : Type 0 where
  pub object : Option Ref
  pub rights : ℕ
  pub generation : ℕ

pub record Process : Type 0 where
  pub header : Header
  pub self_handle : ℕ
  pub stdout_handle : ℕ
  pub wait_handle : ℕ
  pub stdout_header : Header
  pub stdout_owner : Option ℕ
  pub slots : List Slot

pub record Thread : Type 0 where
  pub header : Header
  pub process : Option ℕ
  pub self_handle : ℕ

-- The allocated objects by address, and the active entries of the runtime tables.
pub record Store : Type 0 where
  pub processes : ℕ → Option Process
  pub threads : ℕ → Option Thread
  pub published_processes : List ℕ
  pub published_threads : List ℕ

-- A step through allocated memory, with the status that it returns.
abbrev pub Run : Type 0
Run = Option (Store × Status)

abbrev pub succeeds : Status → Bool
succeeds ec_success = true
succeeds s = false

abbrev pub put_process : Store → ℕ → Option Process → Store
put_process s p v = record s { processes = λ a. if a == p then v else s.processes a }

abbrev pub put_thread : Store → ℕ → Option Thread → Store
put_thread s t v = record s { threads = λ a. if a == t then v else s.threads a }

abbrev pub get_header : Store → Ref → Option Header
get_header s (process_ref p) = elim (s.processes p) [ none ↦ none | some x ↦ some x.header ]
get_header s (thread_ref t) = elim (s.threads t) [ none ↦ none | some x ↦ some x.header ]
get_header s (console_ref p) = elim (s.processes p) [ none ↦ none | some x ↦ some x.stdout_header ]

abbrev pub put_header : Store → Ref → Header → Store
put_header s (process_ref p) h = elim (s.processes p) [
  | none ↦ s
  | some x ↦ put_process s p (some (record x { header = h }))
]
put_header s (thread_ref t) h = elim (s.threads t) [
  | none ↦ s
  | some x ↦ put_thread s t (some (record x { header = h }))
]
put_header s (console_ref p) h = elim (s.processes p) [
  | none ↦ s
  | some x ↦ put_process s p (some (record x { stdout_header = h }))
]

abbrev pub is_valid_type : ObjectType → Bool
is_valid_type process_type = true
is_valid_type thread_type = true
is_valid_type console_type = true
is_valid_type invalid_type = false

unfoldable pub initialize_header : ObjectType → Header
initialize_header type = record { type = type; reference_count = 1 }

-- The guard that retain and release share.
abbrev pub is_live : Header → ObjectType → Bool
is_live h expected =
    is_valid_type expected && type_code h.type == type_code expected && not (h.reference_count == 0)

unfoldable pub object_retain : Store → Ref → ObjectType → Run
object_retain s r expected = elim (get_header s r) [
  | none ↦ none
  | some h ↦
      if is_live h expected
      then some (
        put_header s r (record h { reference_count = (h.reference_count + 1) % u32_mod }),
        ec_success,
      )
      else some (s, ec_invalid_state)
]

-- ExObjectRelease up to the destroy routine: the store, the status and the remaining references.
unfoldable pub object_drop : Store → Ref → ObjectType → Option (Store × Status × ℕ)
object_drop s r expected = elim (get_header s r) [
  | none ↦ none
  | some h ↦
      if is_live h expected
      then some (
        put_header s r (record h { reference_count = h.reference_count - 1 }),
        ec_success,
        h.reference_count - 1,
      )
      else some (s, ec_invalid_state, 0)
]

-- The destroy routine of the stdout service changes nothing and succeeds on its own type.
unfoldable pub release_console : Store → ℕ → Option (Store × Status × ℕ)
release_console s p = object_drop s (console_ref p) console_type

unfoldable pub release_stdout_owner : Store → ℕ → Run
release_stdout_owner s p = elim (release_console s p) [
  | none ↦ none
  | some (s', status, remaining) ↦
      if succeeds status
      then some (s', if remaining == 0 then ec_success else ec_invalid_state)
      else some (s', status)
]

unfoldable pub destroy_process : Store → ℕ → Run
destroy_process s p = elim (release_stdout_owner s p) [
  | none ↦ none
  | some (s', status) ↦
      if succeeds status then some (put_process s' p none, ec_success) else some (s', status)
]

unfoldable pub release_process : Store → ℕ → Run
release_process s p = elim (object_drop s (process_ref p) process_type) [
  | none ↦ none
  | some (s', status, remaining) ↦
      if succeeds status && remaining == 0 then destroy_process s' p else some (s', status)
]

-- The thread's memory is given back first, then its reference to the process.
unfoldable pub destroy_thread : Store → ℕ → Run
destroy_thread s t = elim (s.threads t) [
  | none ↦ none
  | some x ↦
      let freed = put_thread s t none in
      elim x.process [ none ↦ some (freed, ec_success) | some p ↦ release_process freed p ]
]

unfoldable pub release_thread : Store → ℕ → Run
release_thread s t = elim (object_drop s (thread_ref t) thread_type) [
  | none ↦ none
  | some (s', status, remaining) ↦
      if succeeds status && remaining == 0 then destroy_thread s' t else some (s', status)
]

unfoldable pub retain_process : Store → ℕ → Run
retain_process s p = object_retain s (process_ref p) process_type

-- The lists of active table entries.
abbrev pub has : ℕ → List ℕ → Bool
has a [] = false
has a (x ∷ xs) = (a == x) || has a xs

unfoldable pub is_published_object : Store → Ref → Bool
is_published_object s (process_ref p) = has p s.published_processes
is_published_object s (thread_ref t) = has t s.published_threads
is_published_object s (console_ref p) = false
