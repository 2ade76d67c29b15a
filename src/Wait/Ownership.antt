-- ===== src/Wait/Ownership.antt =====
-- Mutexes: acquire, release and hand-off.
use himu_os.Prelude.{
  ℕ, ◌+◌, ◌-◌, ◌<◌, ◌≡◌, ◌≢◌, refl, ap, ◌∙◌, true, false, not, Option, none, some, ◌==◌,
  ec_invalid_state, ok, u32_mod, arith,
}
use himu_os.Wait.State.{Dispatcher, Scheduler, Kthread, put_thread, same_owner}
use himu_os.Wait.Sync.{
  is_signed_header, is_mutex, assert_mutex_state, increment_owned_mutex_count,
  decrement_owned_mutex_count, release_mutex,
}

-- A mutex with its assertions true: free, or owned by a thread.
abbrev pub IsMutex : Dispatcher → Option ℕ → Type 0
IsMutex x none =
    (is_signed_header x ≡ true) × (is_mutex x.type ≡ true) × (x.signal_state ≡ 1) × (x.owner ≡ none)
IsMutex x (some o) =
    (is_signed_header x ≡ true)
    × (is_mutex x.type ≡ true)
    × (x.signal_state ≡ 0)
    × (x.owner ≡ some o)

pub assert_mutex_state-ok :
    (x : Dispatcher) (owner : Option ℕ) → IsMutex x owner → assert_mutex_state x ≡ ok tt
unfolding assert_mutex_state
assert_mutex_state-ok x none (signed, typed, state, owner) =
    rw (signed, typed, state, owner, assert_mutex_state) refl
assert_mutex_state-ok x (some o) (signed, typed, state, owner) =
    rw (signed, typed, state, owner, assert_mutex_state) refl

abbrev pub owned : Dispatcher → Option ℕ → ℕ → Dispatcher
owned x owner state = record x { owner = owner; signal_state = state }

abbrev pub holding : Kthread → ℕ → Kthread
holding x count = record x { owned_mutex_count = count }

-- The mutex belongs to `t` after the hand-off, each thread's count of mutexes is adjusted, and
-- nothing else changes.
abbrev HandedOff : Scheduler → ℕ → ℕ → ℕ → Scheduler → Type 0
HandedOff s d o t s' =
    (s'.dispatchers d ≡ owned (s.dispatchers d) (some t) 0)
    × (s'.threads t ≡ holding (s.threads t) ((s.threads t).owned_mutex_count + 1))
    × (s'.threads o ≡ holding (s.threads o) ((s.threads o).owned_mutex_count - 1))
    × (s'.ready_queues ≡ s.ready_queues)
    × ((a : ℕ) → (a == t) ≡ false → (a == o) ≡ false → s'.threads a ≡ s.threads a)

pub decrement-ok :
    (s : Scheduler) (o : ℕ)
    → (s.threads o).owned_mutex_count ≢ 0
    → decrement_owned_mutex_count s o
      ≡ ok (put_thread s o (holding (s.threads o) ((s.threads o).owned_mutex_count - 1)))
unfolding decrement_owned_mutex_count
decrement-ok s o nonzero =
    let test : not ((s.threads o).owned_mutex_count == 0) ≡ true = ground arith in
    rw (test, decrement_owned_mutex_count) refl

pub increment-ok :
    (s : Scheduler) (t : ℕ)
    → (s.threads t).owned_mutex_count < u32_mod - 1
    → increment_owned_mutex_count s t
      ≡ ok (put_thread s t (holding (s.threads t) ((s.threads t).owned_mutex_count + 1)))
unfolding increment_owned_mutex_count
increment-ok s t room =
    let test : not ((s.threads t).owned_mutex_count == u32_mod - 1) ≡ true = ground arith in
    rw (test, increment_owned_mutex_count) refl

pub same_self : (o : ℕ) → (o == o) ≡ true
same_self o = ground arith

-- Every thread waits as before.
abbrev SameWaits : Scheduler → Scheduler → Type 0
SameWaits s s' =
    (a : ℕ)
    → ((s'.threads a).wait_block ≡ (s.threads a).wait_block)
      × ((s'.threads a).priority ≡ (s.threads a).priority)

-- KeReleaseMutex by a thread that does not own the mutex changes nothing.
release_mutex-refused :
    (s : Scheduler) (d : ℕ) (owner : Option ℕ)
    → IsMutex (s.dispatchers d) owner
    → same_owner owner s.current ≡ false
    → release_mutex s d ≡ ok (s, ec_invalid_state)
unfolding release_mutex
release_mutex-refused s d none mutex other =
    let (signed, typed, state, owner) = mutex in
    let test : same_owner (s.dispatchers d).owner s.current ≡ false =
      ap (λ v. same_owner v s.current) owner ∙ other in
    rw (assert_mutex_state-ok (s.dispatchers d) none mutex, test, release_mutex) refl
release_mutex-refused s d (some o) mutex other =
    let (signed, typed, state, owner) = mutex in
    let test : same_owner (s.dispatchers d).owner s.current ≡ false =
      ap (λ v. same_owner v s.current) owner ∙ other in
    rw (assert_mutex_state-ok (s.dispatchers d) (some o) mutex, test, release_mutex) refl
