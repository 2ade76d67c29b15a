-- ===== src/Wait/Single.antt =====
-- KeWaitForSingleObject of kernel/ke/thread/scheduler/wait.c, up to its call of KiSchedule, and the
-- tests and the acquisition that it starts with.
use himu_os.Prelude.{
  ℕ, ◌+◌, ◌-◌, ◌%◌, Bool, true, false, ◌||◌, not, Option, none, some, ◌==◌, if◌then◌else◌, u64_mod,
  Status, ec_success, ec_invalid_state, ec_not_supported, ec_timeout, Result, ok, ◌>>=◌, ◌>>◌,
  require,
}
use himu_os.Irql.{Level, assert_blocking_allowed}
use himu_os.Wait.State.{
  DispatcherType, event_type, semaphore_type, mutex_type, other_type, Dispatcher, WaitBlock,
  blocked, Scheduler, put_thread, put_dispatcher, insert_tail, initial_wait_block, wait_infinite,
  same_owner,
}
use himu_os.Wait.Complete.{insert_timeout_queue}
use himu_os.Wait.Sync.{
  is_signed_header, is_event, is_semaphore, is_mutex, assert_mutex_state, assert_semaphore_state,
  acquire_mutex_ownership, put_signal,
}

unfoldable pub validate_dispatcher_header : Dispatcher → Status
validate_dispatcher_header x =
    if not (is_signed_header x)
    then ec_invalid_state
    else if is_event x.type || is_semaphore x.type || is_mutex x.type
    then ec_success
    else ec_not_supported

-- KiTryAcquireDispatcherObject by the type: the status, and whether the object was acquired.
abbrev pub try_acquire_as : Scheduler → ℕ → ℕ → DispatcherType → Result (Scheduler × Status × Bool)
try_acquire_as s d t event_type = ok (s, ec_success, not ((s.dispatchers d).signal_state == 0))
try_acquire_as s d t semaphore_type = do
  assert_semaphore_state (s.dispatchers d)
  if (s.dispatchers d).signal_state == 0
      then ok (s, ec_success, false)
      else ok (put_signal s d ((s.dispatchers d).signal_state - 1), ec_success, true)
try_acquire_as s d t mutex_type = do
  assert_mutex_state (s.dispatchers d)
  if same_owner (s.dispatchers d).owner t
      then ok (s, ec_invalid_state, false)
      else if (s.dispatchers d).signal_state == 0
      then ok (s, ec_success, false)
      else do s' ← acquire_mutex_ownership s d t; ok (s', ec_success, true)
try_acquire_as s d t (other_type n) = ok (s, ec_not_supported, false)

unfoldable pub try_acquire : Scheduler → ℕ → ℕ → Result (Scheduler × Status × Bool)
try_acquire s d t = try_acquire_as s d t (s.dispatchers d).type

abbrev pub put_wait_block : Scheduler → ℕ → WaitBlock → Scheduler
put_wait_block s t block = put_thread s t (record (s.threads t) { wait_block = block })

-- The blocking path, up to KiSchedule.
unfoldable pub block_on : Scheduler → ℕ → ℕ → ℕ → Scheduler
block_on s d timeout now =
    let t = s.current in
    let x = s.dispatchers d in
    let listed = put_dispatcher s d (record x { wait_list = insert_tail x.wait_list t }) in
    let queued =
      if timeout == wait_infinite
      then put_wait_block listed t (record initial_wait_block { dispatcher = some d })
      else insert_timeout_queue
          (put_wait_block listed t (record initial_wait_block {
            dispatcher = some d;
            deadline = (now + timeout) % u64_mod;
          }))
          t in
    put_thread queued t (record (queued.threads t) { state = blocked })

abbrev pub is_success : Status → Bool
is_success ec_success = true
is_success status = false

-- KeWaitForSingleObject at `level` up to KiSchedule, at the time `now`. The status is the one
-- returned, or none where the thread is blocked: it is then the completion status of its wait block.
unfoldable pub wait_for_single_object :
    Level → Scheduler → ℕ → ℕ → ℕ → Result (Scheduler × Option Status)
wait_for_single_object level s d timeout now = do
  assert_blocking_allowed level
  require (not (s.current == s.idle)) ec_invalid_state
  let status = validate_dispatcher_header (s.dispatchers d)
  if not (is_success status) then ok (s, some status) else do
    (s', acquire_status, acquired) ← try_acquire s d s.current
    if not (is_success acquire_status)
        then ok (s, some acquire_status)
        else if acquired
        then ok (s', some ec_success)
        else if timeout == 0
        then ok (s', some ec_timeout)
        else ok (block_on s' d timeout now, none)
