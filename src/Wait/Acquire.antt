-- ===== src/Wait/Acquire.antt =====
-- Waits that end at once, and mutexes that are taken and given back.
use himu_os.Prelude.{
  ℕ, ◌+◌, ◌-◌, ◌<◌, ◌≡◌, ◌≢◌, ◌⊎◌, refl, sym, ap, ◌∙◌, subst, inl, inr, Bool, true, false, ◌||◌,
  not, Option, none, some, Status, [], ◌==◌, if◌then◌else◌, ec_success, ec_timeout, ok, Bool-cases,
  u32_mod, arith,
}
use himu_os.Irql.{passive_level}
use himu_os.Wait.State.{
  semaphore_type, mutex_type, Dispatcher, Scheduler, put_thread, same_owner, has_owner,
}
use himu_os.Wait.Sync.{
  is_signed_header, is_semaphore, is_mutex, put_signal, put_owner, acquire_mutex_ownership,
  release_mutex_ownership, release_from, release_to, release_mutex, is_event,
}
use himu_os.Wait.Single.{
  try_acquire, try_acquire_as, validate_dispatcher_header, block_on, wait_for_single_object,
}
use himu_os.Wait.Signal.{put_state, put_signal_at, IsSemaphore, assert_semaphore_state-ok}
use himu_os.Wait.Block.{Blocked, block_on-Blocked}
use himu_os.Wait.Ownership.{
  IsMutex, assert_mutex_state-ok, increment-ok, decrement-ok, holding, owned, same_self,
}

validate-ok :
    (x : Dispatcher)
    → is_signed_header x ≡ true
    → (is_event x.type || is_semaphore x.type || is_mutex x.type) ≡ true
    → validate_dispatcher_header x ≡ ec_success
unfolding validate_dispatcher_header
validate-ok x signed typed = rw (signed, typed, validate_dispatcher_header) refl

-- A semaphore with permits gives one, and one without gives none.
try_acquire-taken :
    (s : Scheduler) (d t : ℕ)
    → (s.dispatchers d).type ≡ semaphore_type
    → IsSemaphore (s.dispatchers d)
    → ((s.dispatchers d).signal_state == 0) ≡ false
    → try_acquire s d t ≡ ok (put_signal s d ((s.dispatchers d).signal_state - 1), ec_success, true)
unfolding try_acquire
try_acquire-taken s d t kind sem left =
    ap (try_acquire_as s d t) kind ∙ rw (assert_semaphore_state-ok (s.dispatchers d) sem, left) refl

try_acquire-missed :
    (s : Scheduler) (d t : ℕ)
    → (s.dispatchers d).type ≡ semaphore_type
    → IsSemaphore (s.dispatchers d)
    → ((s.dispatchers d).signal_state == 0) ≡ true
    → try_acquire s d t ≡ ok (s, ec_success, false)
unfolding try_acquire
try_acquire-missed s d t kind sem left =
    ap (try_acquire_as s d t) kind ∙ rw (assert_semaphore_state-ok (s.dispatchers d) sem, left) refl

-- What is left of a wait after a try.
wait-tried :
    (s : Scheduler) (d timeout now : ℕ) (s' : Scheduler) (acquired : Bool)
    → (s.current == s.idle) ≡ false
    → validate_dispatcher_header (s.dispatchers d) ≡ ec_success
    → try_acquire s d s.current ≡ ok (s', ec_success, acquired)
    → wait_for_single_object passive_level s d timeout now ≡ (
        if acquired
        then ok (s', some ec_success)
        else if timeout == 0
        then ok (s', some ec_timeout)
        else ok (block_on s' d timeout now, none))
unfolding wait_for_single_object
wait-tried s d timeout now s' acquired busy valid run =
    rw (busy, valid, run, wait_for_single_object) refl

-- Only object `d` may have changed.
abbrev pub SameBut : ℕ → Scheduler → Scheduler → Type 0
SameBut d s s' =
    ((e : ℕ) → (e == d) ≡ false → s'.dispatchers e ≡ s.dispatchers e)
    × (s'.threads ≡ s.threads)
    × (s'.ready_queues ≡ s.ready_queues)
    × (s'.timeout_queue ≡ s.timeout_queue)
    × (s'.current ≡ s.current)

-- What a wait for a semaphore does at the passive level: it takes a permit, and else nothing
-- changes; or there is none, and it times out at once with nothing changed; or the thread blocks as
-- the last waiter, the permits, the ready queues and the other threads as they were.
abbrev pub Waited : Scheduler → ℕ → ℕ → ℕ → Scheduler × Option Status → Type 0
Waited s d timeout now (s', status) =
    (((s.dispatchers d).signal_state ≢ 0)
      × (status ≡ some ec_success)
      × (s'.dispatchers d ≡ put_state (s.dispatchers d) ((s.dispatchers d).signal_state - 1))
      × SameBut d s s')
    ⊎ (((s.dispatchers d).signal_state ≡ 0) × (timeout ≡ 0) × (status ≡ some ec_timeout) × (s' ≡ s))
    ⊎ (((s.dispatchers d).signal_state ≡ 0)
        × (timeout ≢ 0)
        × (status ≡ none)
        × Blocked s d timeout now s')

-- A wait for a semaphore whose assertions hold, by a thread that is not idle and at the passive level,
-- returns: it takes one permit with EC_SUCCESS; or, with no permit and no timeout, EC_TIMEOUT and
-- nothing changed; or the thread is blocked: it is the last waiter of the semaphore, its wait block has
-- the object and the deadline, and the other threads and the ready queues are as they were.
pub wait_for_single_object-Waited :
    (s : Scheduler) (d timeout now : ℕ)
    → (s.dispatchers d).type ≡ semaphore_type
    → IsSemaphore (s.dispatchers d)
    → (s.current == s.idle) ≡ false
    → (r : Scheduler × Option Status) × (wait_for_single_object passive_level s d timeout now
        ≡ ok r)
      × Waited s d timeout now r
wait_for_single_object-Waited s d timeout now kind sem busy =
    let x = s.dispatchers d in
    let t = s.current in
    let (signed, typed, small, positive, below) = sem in
    let tests : (is_event x.type || is_semaphore x.type || is_mutex x.type) ≡ true =
      ap (λ k. is_event k || is_semaphore k || is_mutex k) kind in
    let valid = validate-ok x signed tests in
    elim (Bool-cases (x.signal_state == 0)) [
      | inr some_left ↦
          let run = try_acquire-taken s d t kind sem some_left in
          (
            (put_signal s d (x.signal_state - 1), some ec_success),
            wait-tried s d timeout now _ true busy valid run,
            inl (
              ground arith,
              refl,
              put_signal_at s d (x.signal_state - 1),
              (λ e other. rw (other) refl, refl, refl, refl, refl),
            ),
          )
      | inl none_left ↦
          let run = try_acquire-missed s d t kind sem none_left in
          let tried = wait-tried s d timeout now s false busy valid run in
          elim (Bool-cases (timeout == 0)) [
            | inl at_once ↦ (
              (s, some ec_timeout),
              tried ∙ rw (at_once) refl,
              inr (inl (ground arith, ground arith, refl, refl)),
            )
            | inr later ↦ (
              (block_on s d timeout now, none),
              tried ∙ rw (later) refl,
              inr (inr (ground arith, ground arith, refl, block_on-Blocked s d timeout now)),
            )
          ]
    ]

-- A free mutex is taken by the thread that tries.
acquire-IsMutex :
    (s : Scheduler) (d t : ℕ)
    → IsMutex (s.dispatchers d) none
    → (s.threads t).owned_mutex_count < u32_mod - 1
    → (s1 : Scheduler) × (acquire_mutex_ownership s d t ≡ ok s1)
      × (s1.dispatchers d ≡ owned (s.dispatchers d) (some t) 0)
      × (s1.threads t ≡ holding (s.threads t) ((s.threads t).owned_mutex_count + 1))
      × (s1.current ≡ s.current)
unfolding acquire_mutex_ownership
acquire-IsMutex s d t (signed, typed, state, owner) room =
    let x = s.dispatchers d in
    let taken = put_owner s d (some t) 0 in
    let s1 = put_thread taken t (holding (s.threads t) ((s.threads t).owned_mutex_count + 1)) in
    let object : s1.dispatchers d ≡ owned x (some t) 0 = rw (same_self d) refl in
    let valid = subst (λ y. IsMutex y (some t)) (sym object) (signed, typed, refl, refl) in
    let is_free : (x.signal_state == 1) ≡ true = ap (λ v. v == 1) state in
    let unowned : not (has_owner x.owner) ≡ true = ap (λ o. not (has_owner o)) owner in
    let asserted = assert_mutex_state-ok x none (signed, typed, state, owner) in
    (
      s1,
      rw
          (
            asserted,
            is_free,
            unowned,
            increment-ok taken t room,
            assert_mutex_state-ok (s1.dispatchers d) (some t) valid,
            acquire_mutex_ownership,
          )
          refl,
      object,
      rw (same_self t) refl,
      refl,
    )

release-IsMutex :
    (s : Scheduler) (d t : ℕ)
    → IsMutex (s.dispatchers d) (some t)
    → (s.threads t).owned_mutex_count ≢ 0
    → (s2 : Scheduler) × (release_mutex_ownership s d ≡ ok s2)
      × (s2.dispatchers d ≡ owned (s.dispatchers d) none 1)
      × (s2.threads t ≡ holding (s.threads t) ((s.threads t).owned_mutex_count - 1))
unfolding release_mutex_ownership
release-IsMutex s d t (signed, typed, state, owner) nonzero =
    let x = s.dispatchers d in
    let less = put_thread s t (holding (s.threads t) ((s.threads t).owned_mutex_count - 1)) in
    let s2 = put_owner less d none 1 in
    let object : s2.dispatchers d ≡ owned x none 1 = rw (same_self d) refl in
    let valid = subst (λ y. IsMutex y none) (sym object) (signed, typed, refl, refl) in
    let asserted = assert_mutex_state-ok x (some t) (signed, typed, state, owner) in
    let started : release_mutex_ownership s d ≡ release_from s d x.owner =
      rw (asserted, release_mutex_ownership) refl in
    let ended : release_from s d (some t) ≡ ok s2 =
      rw (decrement-ok s t nonzero, assert_mutex_state-ok (s2.dispatchers d) none valid) refl in
    (s2, started ∙ ap (release_from s d) owner ∙ ended, object, rw (same_self t) refl)

-- A thread that takes a free mutex on which no thread waits and releases it gives back the mutex and
-- its own record as they were.
release_mutex-try_acquire :
    (s : Scheduler) (d : ℕ)
    → (s.dispatchers d).type ≡ mutex_type
    → IsMutex (s.dispatchers d) none
    → (s.dispatchers d).wait_list ≡ []
    → (s.threads s.current).owned_mutex_count < u32_mod - 1
    → (s1 : Scheduler) × (s2 : Scheduler) × (try_acquire s d s.current ≡ ok (s1, ec_success, true))
      × IsMutex (s1.dispatchers d) (some s.current)
      × (release_mutex s1 d ≡ ok (s2, ec_success))
      × (s2.dispatchers d ≡ s.dispatchers d)
      × (s2.threads s.current ≡ s.threads s.current)
unfolding try_acquire release_mutex
release_mutex-try_acquire s d kind mutex list room =
    let x = s.dispatchers d in
    let t = s.current in
    let (signed, typed, state, owner) = mutex in
    let (s1, run, object, thread, still) = acquire-IsMutex s d t mutex room in
    let mutex1 : IsMutex (s1.dispatchers d) (some t) =
      subst (λ y. IsMutex y (some t)) (sym object) (signed, typed, refl, refl) in
    let some_held : (s1.threads t).owned_mutex_count ≢ 0 =
      rw (thread) (λ e. absurd (omega arith)) in
    let (s2, run2, object2, thread2) = release-IsMutex s1 d t mutex1 some_held in
    let foreign : same_owner x.owner t ≡ false = ap (λ o. same_owner o t) owner in
    let free_state : (x.signal_state == 0) ≡ false = ap (λ v. v == 0) state in
    let tried : try_acquire_as s d t mutex_type ≡ ok (s1, ec_success, true) =
      rw (assert_mutex_state-ok x none mutex, foreign, free_state, run) refl in
    let mine : same_owner (s1.dispatchers d).owner s1.current ≡ true =
      ap (λ y. same_owner y.owner s1.current) object ∙ ap (λ c. t == c) still ∙ same_self t in
    let started : release_mutex s1 d ≡ release_to s1 d (s1.dispatchers d).wait_list =
      rw (assert_mutex_state-ok (s1.dispatchers d) (some t) mutex1, mine, release_mutex) refl in
    let ended : release_to s1 d [] ≡ ok (s2, ec_success) = rw (run2) refl in
    let back : owned x none 1 ≡ x =
      ap (λ o. owned x o 1) (sym owner) ∙ ap (λ v. owned x x.owner v) (sym state) in
    let count : (s.threads t).owned_mutex_count + 1 - 1 ≡ (s.threads t).owned_mutex_count =
      omega arith in
    (
      s1,
      s2,
      ap (try_acquire_as s d t) kind ∙ tried,
      mutex1,
      started ∙ ap (release_to s1 d) (ap (λ y. y.wait_list) object ∙ list) ∙ ended,
      object2 ∙ ap (λ y. owned y none 1) object ∙ back,
      thread2
          ∙ ap (λ y. holding y (y.owned_mutex_count - 1)) thread
          ∙ ap (holding (s.threads t)) count,
    )
