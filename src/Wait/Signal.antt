-- ===== src/Wait/Signal.antt =====
-- What setting an event and releasing a semaphore do to the object, its waiters and their order.
use himu_os.Prelude.{
  ℕ, ◌+◌, ◌-◌, ◌%◌, ◌^◌, ◌≤◌, ◌<◌, ◌≡◌, ◌≢◌, refl, Bool, true, false, ◌&&◌, not, [], leb, ◌==◌,
  length, take, drop, Status, ec_success, Result, ok, ◌>>◌, u32_mod, arith,
}
use himu_os.Wait.State.{Dispatcher, Scheduler, is_negative, needs_schedule, contains}
use himu_os.Wait.Sync.{is_signed_header, is_semaphore, assert_semaphore_state, put_signal}
use himu_os.Wait.Wake.{AllWaiting, AllWoken, IsQueued}

-- After KeSetEvent: the event is signaled and has no waiter, those it had are woken with
-- EC_SUCCESS and stand in the ready queues, and no other thread changes.
abbrev pub IsSignaled : Scheduler → ℕ → Scheduler → Type 0
IsSignaled s d s' =
    ((s'.dispatchers d).signal_state ≡ 1)
    × ((s'.dispatchers d).wait_list ≡ [])
    × AllWoken s.threads s'.threads (s.dispatchers d).wait_list ec_success
    × IsQueued s (s.dispatchers d).wait_list s'
    × ((a : ℕ) → contains a (s.dispatchers d).wait_list ≡ false → s'.threads a ≡ s.threads a)

pub put_signal_at :
    (s : Scheduler) (d state : ℕ)
    → (put_signal s d state).dispatchers d ≡ record (s.dispatchers d) { signal_state = state }
put_signal_at s d state = let self_d : (d == d) ≡ true = ground arith in rw (self_d) refl

-- A semaphore whose assertions hold.
abbrev pub IsSemaphore : Dispatcher → Type 0
IsSemaphore x =
    (is_signed_header x ≡ true)
    × (is_semaphore x.type ≡ true)
    × (x.limit < 2 ^ 31)
    × (x.limit ≢ 0)
    × (x.signal_state ≤ x.limit)

pub assert_semaphore_state-ok : (x : Dispatcher) → IsSemaphore x → assert_semaphore_state x ≡ ok tt
unfolding assert_semaphore_state
assert_semaphore_state-ok x (signed, typed, small, positive, below) =
    let limit : (not (is_negative x.limit) && not (x.limit == 0)) ≡ true = ground arith in
    let count : not (is_negative x.signal_state) ≡ true = ground arith in
    let fits : leb x.signal_state x.limit ≡ true = ground arith in
    rw (signed, typed, limit, count, fits, assert_semaphore_state) refl

-- After KeReleaseSemaphore: the first waiters are woken, as many as there are permits; the permits
-- that no waiter took are counted, and the others wait on in their order.
abbrev pub IsReleased : Scheduler → ℕ → ℕ → Scheduler → Type 0
IsReleased s d count s' =
    ((s'.dispatchers d).signal_state
      ≡ (s.dispatchers d).signal_state + (count - length (s.dispatchers d).wait_list))
    × ((s'.dispatchers d).wait_list ≡ drop count (s.dispatchers d).wait_list)
    × IsSemaphore (s'.dispatchers d)
    × AllWoken s.threads s'.threads (take count (s.dispatchers d).wait_list) ec_success
    × IsQueued s (take count (s.dispatchers d).wait_list) s'
    × AllWaiting s' d (drop count (s.dispatchers d).wait_list)
    × ((a : ℕ)
        → contains a (take count (s.dispatchers d).wait_list) ≡ false
        → s'.threads a ≡ s.threads a)

abbrev pub put_state : Dispatcher → ℕ → Dispatcher
put_state x state = record x { signal_state = state }

-- What the release does after its loop.
abbrev count_left : ℕ → Scheduler × ℕ → Result (Scheduler × Status × Bool)
count_left d (s', left) =
    let s'' = put_signal s' d (((s'.dispatchers d).signal_state + left) % u32_mod) in
    assert_semaphore_state (s''.dispatchers d) >> ok (s'', ec_success, needs_schedule s'')
