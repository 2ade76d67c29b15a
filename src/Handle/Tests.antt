-- ===== src/Handle/Tests.antt =====
-- Runs of the handle operations on a store of two processes.
use himu_os.Prelude.{
  ℕ, ◌+◌, ◌*◌, ◌≡◌, ◌↔◌, ◌≢◌, refl, true, false, Option, none, some, [], ◌==◌, if◌then◌else◌,
  Status, ec_success, ec_invalid_state, arith,
}
use himu_os.Handle.Objects.{
  process_type, console_type, process_ref, Process, Store, put_header, object_retain,
  release_process, retain_process, object_drop, is_published_object,
}
use himu_os.Handle.Codes.{advance_generation, encode_handle, decode_handle}
use himu_os.Handle.Table.{
  slot_at, is_free, initialize_table, find_free, insert, fill_slot, retain_handle_object,
  current_slot, resolve, release_handle_object,
}
use himu_os.Handle.Close.{
  close_all, close_all_retained, validate_all, drop_all, close, close_retained, release_owner,
  validate_close, drop_slot, invalidate_self,
}
use himu_os.Handle.Slots.{IsTable, set-IsTable, initialize_table-IsTable}
use himu_os.Handle.Headers.{counted}
use himu_os.Handle.Resolve.{insert-resolve, resolve-Granted, Granted}
use himu_os.Handle.Teardown.{close_all-empty}
use himu_os.Handle.Reuse.{close-insert-resolve}

abbrev fresh : Process
fresh = record {
  header = record { type = process_type; reference_count = 1 };
  self_handle = 0;
  stdout_handle = 0;
  wait_handle = 0;
  stdout_header = record { type = console_type; reference_count = 1 };
  stdout_owner = none;
  slots = initialize_table;
}

-- Process 1 holds the table, process 2 is the object.
abbrev two_processes : Store
two_processes = record {
  processes = λ a. if a == 1 then some fresh else if a == 2 then some fresh else none;
  threads = λ a. none;
  published_processes = [];
  published_threads = [];
}

abbrev first_of : Store → Option (Store × Status × ℕ) → Store
first_of s none = s
first_of s (some (s', a, h)) = s'

-- The store with a handle, without it again, and with another.
abbrev granted : Store
granted = first_of two_processes (insert two_processes 1 (process_ref 2) 3)

granted_handle : (insert two_processes 1 (process_ref 2) 3) ≡ some (granted, ec_success, 257)
unfolding insert fill_slot retain_handle_object object_retain advance_generation encode_handle
    find_free initialize_table
granted_handle = refl

abbrev holder : Process
holder = elim (granted.processes 1) [ none ↦ fresh | some x ↦ x ]

holder_at : granted.processes 1 ≡ some holder
unfolding insert fill_slot retain_handle_object object_retain advance_generation encode_handle
    find_free initialize_table
holder_at = refl

holder-IsTable : IsTable holder.slots
unfolding insert fill_slot retain_handle_object object_retain advance_generation encode_handle
    find_free initialize_table
holder-IsTable =
    set-IsTable initialize_table 0
      (record { object = some (process_ref 2); rights = 3; generation = 1 })
      initialize_table-IsTable (omega arith) (λ e. omega arith)

-- The same handle is closed, and the next one has the next generation.
abbrev closed : Store
closed = first_of granted (close granted 1 257)

abbrev second_handle : ℕ
second_handle = 2 * 256 + 1

closed_status : close granted 1 257 ≡ some (closed, ec_success, 0)
unfolding insert fill_slot retain_handle_object object_retain advance_generation encode_handle
    find_free initialize_table close retain_process release_owner close_retained current_slot
    decode_handle validate_close is_published_object drop_slot invalidate_self release_handle_object
    release_process object_drop
closed_status = refl

abbrev granted_again : Store
granted_again = first_of closed (insert closed 1 (process_ref 2) 3)

insert_again : insert closed 1 (process_ref 2) 3 ≡ some (granted_again, ec_success, second_handle)
unfolding insert fill_slot retain_handle_object object_retain advance_generation encode_handle
    find_free initialize_table close retain_process release_owner close_retained current_slot
    decode_handle validate_close is_published_object drop_slot invalidate_self release_handle_object
    release_process object_drop
insert_again = refl

close-insert-resolve_example :
    (resolve granted_again 1 257 process_type 1 ≡ some (granted_again, ec_invalid_state, none))
    × (second_handle ≢ 257)
close-insert-resolve_example =
    close-insert-resolve granted 1 257 holder closed ec_success (process_ref 2) 3 granted_again
      second_handle process_type 1 holder_at holder-IsTable (λ e. absurd (omega arith))
      closed_status insert_again refl

insert-resolve_run :
    resolve granted 1 257 process_type 1
    ≡ some (
      put_header granted (process_ref 2) (counted (counted fresh.header)),
      ec_success,
      some (process_ref 2),
    )
unfolding insert fill_slot retain_handle_object object_retain advance_generation encode_handle
    find_free initialize_table resolve current_slot decode_handle
insert-resolve_run = refl

insert-resolve_example :
    resolve granted 1 257 process_type 1
    ≡ some (
      put_header granted (process_ref 2) (counted (counted fresh.header)),
      ec_success,
      some (process_ref 2),
    )
insert-resolve_example =
    insert-resolve two_processes 1 fresh (process_ref 2) 3 granted 257 fresh.header 1 refl
      initialize_table-IsTable refl (omega arith) granted_handle refl

resolve-Granted_example :
    (resolve granted 1 257 process_type 1
      ≡ some (
        put_header granted (process_ref 2) (counted (counted fresh.header)),
        ec_success,
        some (process_ref 2),
      ))
    ↔ Granted granted 1 257 process_type 1
        (process_ref 2)
        (put_header granted (process_ref 2) (counted (counted fresh.header)))
resolve-Granted_example =
    resolve-Granted granted 1 257 process_type 1
      (put_header granted (process_ref 2) (counted (counted fresh.header))) (process_ref 2)

decoded : decode_handle 0x105 ≡ some (4, 1)
unfolding decode_handle
decoded = refl

abbrev emptied : Store
emptied = elim (close_all granted 1 false) [ none ↦ granted | some (s, status) ↦ s ]

abbrev survivor : Process
survivor = elim (emptied.processes 1) [ none ↦ fresh | some x ↦ x ]

emptied_run : close_all granted 1 false ≡ some (emptied, ec_success)
unfolding insert fill_slot retain_handle_object object_retain advance_generation encode_handle
    find_free initialize_table close_all close_all_retained validate_all drop_all retain_process
    release_owner validate_close is_published_object drop_slot invalidate_self release_handle_object
    release_process object_drop
emptied_run = refl

survivor_at : emptied.processes 1 ≡ some survivor
unfolding insert fill_slot retain_handle_object object_retain advance_generation encode_handle
    find_free initialize_table close_all close_all_retained validate_all drop_all retain_process
    release_owner validate_close is_published_object drop_slot invalidate_self release_handle_object
    release_process object_drop
survivor_at = refl

close_all-empty_example : is_free (slot_at survivor 0) ≡ true
close_all-empty_example =
    close_all-empty granted 1 false emptied survivor emptied_run survivor_at 0 (omega arith)
