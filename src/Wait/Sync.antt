-- ===== src/Wait/Sync.antt =====
-- Events, semaphores and mutexes, kernel/ke/thread/scheduler/sync.c. Each operation runs at dispatch
-- level inside a critical section; that and the call of KiSchedule are left out, and
-- `needs_schedule` says whether KiSchedule is called.
use himu_os.Prelude.{
  ℕ, zero, suc, ◌+◌, ◌-◌, ◌%◌, Bool, true, false, ◌&&◌, ◌||◌, not, Option, none, some, List, [],
  ◌∷◌, ltb, leb, ◌==◌, if◌then◌else◌, length, u32_mod, Status, ec_success, ec_illegal_argument,
  ec_invalid_state, ec_not_supported, ec_out_of_resource, Result, ok, err, ◌>>=◌, ◌>>◌, require,
}
use himu_os.Wait.State.{
  DispatcherType, event_type, semaphore_type, mutex_type, other_type, Dispatcher, Scheduler,
  dispatcher_signature, put_thread, put_dispatcher, needs_schedule, is_negative, same_owner,
  has_owner,
}
use himu_os.Wait.Complete.{complete_wait}

abbrev pub is_signed_header : Dispatcher → Bool
is_signed_header x = x.signature == dispatcher_signature

abbrev pub is_event : DispatcherType → Bool
is_event event_type = true
is_event semaphore_type = false
is_event mutex_type = false
is_event (other_type n) = false

abbrev pub is_semaphore : DispatcherType → Bool
is_semaphore event_type = false
is_semaphore semaphore_type = true
is_semaphore mutex_type = false
is_semaphore (other_type n) = false

abbrev pub is_mutex : DispatcherType → Bool
is_mutex event_type = false
is_mutex semaphore_type = false
is_mutex mutex_type = true
is_mutex (other_type n) = false

-- A failed assertion is the error, and the kernel panics.
unfoldable pub assert_mutex_state : Dispatcher → Result (Unit {0})
assert_mutex_state x = do
  require (is_signed_header x) ec_invalid_state
  require (is_mutex x.type) ec_not_supported
  require (x.signal_state == 0 || x.signal_state == 1) ec_invalid_state
  require (if x.signal_state == 0 then has_owner x.owner else not (has_owner x.owner))
      ec_invalid_state

unfoldable pub assert_semaphore_state : Dispatcher → Result (Unit {0})
assert_semaphore_state x = do
  require (is_signed_header x) ec_invalid_state
  require (is_semaphore x.type) ec_not_supported
  require (not (is_negative x.limit) && not (x.limit == 0)) ec_invalid_state
  require (not (is_negative x.signal_state)) ec_invalid_state
  require (leb x.signal_state x.limit) ec_invalid_state

unfoldable pub increment_owned_mutex_count : Scheduler → ℕ → Result Scheduler
increment_owned_mutex_count s t =
    let x = s.threads t in
    require (not (x.owned_mutex_count == u32_mod - 1)) ec_out_of_resource
    >> ok (put_thread s t (record x { owned_mutex_count = x.owned_mutex_count + 1 }))

unfoldable pub decrement_owned_mutex_count : Scheduler → ℕ → Result Scheduler
decrement_owned_mutex_count s t =
    let x = s.threads t in
    require (not (x.owned_mutex_count == 0)) ec_invalid_state
    >> ok (put_thread s t (record x { owned_mutex_count = x.owned_mutex_count - 1 }))

abbrev pub assert_mutex : Scheduler → ℕ → Result Scheduler
assert_mutex s d = assert_mutex_state (s.dispatchers d) >> ok s

abbrev pub put_owner : Scheduler → ℕ → Option ℕ → ℕ → Scheduler
put_owner s d owner state =
    put_dispatcher s d (record (s.dispatchers d) { owner = owner; signal_state = state })

unfoldable pub acquire_mutex_ownership : Scheduler → ℕ → ℕ → Result Scheduler
acquire_mutex_ownership s d t = do
  assert_mutex_state (s.dispatchers d)
  require ((s.dispatchers d).signal_state == 1) ec_invalid_state
  require (not (has_owner (s.dispatchers d).owner)) ec_invalid_state
  s' ← increment_owned_mutex_count (put_owner s d (some t) 0) t
  assert_mutex s' d

abbrev pub release_from : Scheduler → ℕ → Option ℕ → Result Scheduler
release_from s d none = err ec_invalid_state
release_from s d (some o) = do
  s' ← decrement_owned_mutex_count s o
  assert_mutex (put_owner s' d none 1) d

unfoldable pub release_mutex_ownership : Scheduler → ℕ → Result Scheduler
release_mutex_ownership s d =
    assert_mutex_state (s.dispatchers d) >> release_from s d (s.dispatchers d).owner

abbrev pub hand_off_from : Scheduler → ℕ → ℕ → Option ℕ → Result Scheduler
hand_off_from s d t none = err ec_invalid_state
hand_off_from s d t (some o) = do
  require (not (o == t)) ec_invalid_state
  s' ← decrement_owned_mutex_count s o
  s'' ← increment_owned_mutex_count (put_owner s' d (some t) 0) t
  assert_mutex s'' d

unfoldable pub hand_off_mutex_ownership : Scheduler → ℕ → ℕ → Result Scheduler
hand_off_mutex_ownership s d t =
    assert_mutex_state (s.dispatchers d) >> hand_off_from s d t (s.dispatchers d).owner

-- The fields of other kinds of objects keep what was there.
unfoldable pub initialize_event : Scheduler → ℕ → Bool → Scheduler
initialize_event s d initial = put_dispatcher s d (record (s.dispatchers d) {
  signature = dispatcher_signature;
  type = event_type;
  signal_state = if initial then 1 else 0;
  wait_list = [];
})

unfoldable pub initialize_semaphore : Scheduler → ℕ → ℕ → ℕ → Scheduler × Status
initialize_semaphore s d initial limit =
    if is_negative initial || is_negative limit || limit == 0 || ltb limit initial
    then (s, ec_illegal_argument)
    else (
      put_dispatcher s d (record (s.dispatchers d) {
        signature = dispatcher_signature;
        type = semaphore_type;
        signal_state = initial;
        wait_list = [];
        limit = limit;
      }),
      ec_success,
    )

unfoldable pub initialize_mutex : Scheduler → ℕ → Result Scheduler
initialize_mutex s d =
    assert_mutex
      (put_dispatcher s d (record (s.dispatchers d) {
        signature = dispatcher_signature;
        type = mutex_type;
        signal_state = 1;
        wait_list = [];
        owner = none;
      }))
      d

-- The loop that completes the waits at the head of the list, at most `n` of them. The second result
-- counts those left to do, `permitsToDispatch`.
unfoldable pub wake_waiters : ℕ → Scheduler → ℕ → Result (Scheduler × ℕ)
wake_waiters zero s d = ok (s, 0)
wake_waiters (suc n) s d = elim (s.dispatchers d).wait_list [
  | [] ↦ ok (s, suc n)
  | t ∷ ts ↦ complete_wait s t ec_success >>= λ s'. wake_waiters n s' d
]

abbrev pub put_signal : Scheduler → ℕ → ℕ → Scheduler
put_signal s d state = put_dispatcher s d (record (s.dispatchers d) { signal_state = state })

-- The event wakes all; the list gets shorter in each round, so its length bounds the rounds.
unfoldable pub set_event : Scheduler → ℕ → Result (Scheduler × Bool)
set_event s d = do
  require (is_signed_header (s.dispatchers d)) ec_invalid_state
  require (is_event (s.dispatchers d).type) ec_not_supported
  (s', left) ← wake_waiters (length (s.dispatchers d).wait_list) (put_signal s d 1) d
  ok (s', needs_schedule s')

unfoldable pub reset_event : Scheduler → ℕ → Result Scheduler
reset_event s d = do
  require (is_signed_header (s.dispatchers d)) ec_invalid_state
  require (is_event (s.dispatchers d).type) ec_not_supported
  ok (put_signal s d 0)

-- The permits that no waiter takes.
abbrev pub remaining_permits : ℕ → ℕ → ℕ
remaining_permits count waiters = if ltb waiters count then count - waiters else 0

unfoldable pub release_semaphore : Scheduler → ℕ → ℕ → Result (Scheduler × Status × Bool)
release_semaphore s d count =
    if is_negative count || count == 0 then ok (s, ec_illegal_argument, false) else do
      assert_semaphore_state (s.dispatchers d)
      let x = s.dispatchers d
      if ltb x.limit (x.signal_state + remaining_permits count (length x.wait_list))
          then ok (s, ec_illegal_argument, false)
          else do
            (s', left) ← wake_waiters count s d
            let s'' = put_signal s' d (((s'.dispatchers d).signal_state + left) % u32_mod)
            assert_semaphore_state (s''.dispatchers d)
            ok (s'', ec_success, needs_schedule s'')

-- With the wait list of a mutex that the current thread owns.
abbrev pub release_to : Scheduler → ℕ → List ℕ → Result (Scheduler × Status)
release_to s d [] = do s' ← release_mutex_ownership s d; ok (s', ec_success)
release_to s d (t ∷ ts) = do
  s' ← hand_off_mutex_ownership s d t
  s'' ← complete_wait s' t ec_success
  ok (s'', ec_success)

unfoldable pub release_mutex : Scheduler → ℕ → Result (Scheduler × Status)
release_mutex s d = do
  assert_mutex_state (s.dispatchers d)
  if not (same_owner (s.dispatchers d).owner s.current)
      then ok (s, ec_invalid_state)
      else release_to s d (s.dispatchers d).wait_list
