-- ===== src/Thread/Lifecycle.antt =====
-- The end of a thread's life: KeThreadExit, KeThreadJoin, KeThreadDetach and KiReapTerminatedThreads
-- of kernel/ke/thread/scheduler/scheduler.c. Each definition is what runs under one critical section
-- or guard, and KiFinalizeThread, which runs under none; `err` is the panic of a failed HO_KASSERT or
-- of HO_KPANIC.
use himu_os.Prelude.{
  count, ℕ, zero, suc, Bool, true, false, ◌&&◌, ◌||◌, not, List, [], ◌∷◌, ◌++◌, ◌==◌, if◌then◌else◌,
  Option, none, some, Result, ok, err, ◌>>=◌, ◌>>◌, require, Status, ec_success, ec_invalid_state,
  ec_timeout,
}
use himu_os.Irql.{Level, assert_blocking_allowed}

pub data TerminationMode : Type 0 where
  detached joinable : TerminationMode

pub data ClaimState : Type 0 where
  unclaimed join_in_progress consumed : ClaimState

-- The fields of KTHREAD that the end of its life reads: whether State is TERMINATED, whether the
-- completion event is signaled, the mode and the claim.
pub record Life : Type 0 where
  pub terminated : Bool
  pub published : Bool
  pub mode : TerminationMode
  pub claim : ClaimState

-- `terminated_list` is gTerminatedList, `finalized` the threads that KiFinalizeThread has given back
-- to the pool, the latest first.
pub record Threads : Type 0 where
  pub lives : ℕ → Life
  pub terminated_list : List ℕ
  pub finalized : List ℕ
  pub idle : ℕ

abbrev pub is_detached : TerminationMode → Bool
is_detached joinable = false
is_detached detached = true

abbrev pub is_consumed : ClaimState → Bool
is_consumed unclaimed = false
is_consumed join_in_progress = false
is_consumed consumed = true

abbrev pub is_join_in_progress : ClaimState → Bool
is_join_in_progress unclaimed = false
is_join_in_progress join_in_progress = true
is_join_in_progress consumed = false

abbrev pub put_life : Threads → ℕ → Life → Threads
put_life s t l = record s { lives = λ a. if a == t then l else s.lives a }

abbrev pub put_claim : Threads → ℕ → ClaimState → Threads
put_claim s t claim = put_life s t (record (s.lives t) { claim = claim })

-- KiIsThreadQueuedForReaper: the link of a terminated thread is in no other list.
abbrev pub is_queued_for_reaper : Threads → ℕ → Bool
is_queued_for_reaper s t = not (count t s.terminated_list == 0)

abbrev pub is_completed : Life → Bool
is_completed l = l.terminated && l.published

unfoldable pub queue_detached_thread_for_reaper : Threads → ℕ → Result Threads
queue_detached_thread_for_reaper s t =
    let l = s.lives t in
    require (not (t == s.idle)) ec_invalid_state
    >> require l.terminated ec_invalid_state
    >> require (is_detached l.mode) ec_invalid_state
    >> require (not (is_join_in_progress l.claim)) ec_invalid_state
    >> require (not (is_consumed l.claim)) ec_invalid_state
    >> require l.published ec_invalid_state
    >> ok (
        if is_queued_for_reaper s t
        then s
        else record s { terminated_list = s.terminated_list ++ (t ∷ []) })

unfoldable pub mark_thread_termination_consumed : Threads → ℕ → Result Threads
mark_thread_termination_consumed s t =
    require (not (is_consumed (s.lives t).claim)) ec_invalid_state >> ok (put_claim s t consumed)

unfoldable pub release_thread_join_claim : Threads → ℕ → Result Threads
release_thread_join_claim s t =
    require (is_join_in_progress (s.lives t).claim) ec_invalid_state >> ok (put_claim s t unclaimed)

-- What KiFinalizeThread asks of the rest of the kernel: whether the user runtime owns a thread, its
-- finalize hook where one is registered, whether the thread's stack is a range of the kernel's virtual
-- allocator, and what KeKvaReleaseRangeHandle returns for that range.
pub record Reclaim : Type 0 where
  pub owns_thread : ℕ → Bool
  pub finalize_hook : Option (ℕ → Status)
  pub stack_owned_by_kva : ℕ → Bool
  pub release_stack : ℕ → Status

abbrev pub is_success : Status → Bool
is_success ec_success = true
is_success _ = false

unfoldable pub finalize_user_runtime : Reclaim → ℕ → Result (Unit {0})
finalize_user_runtime reclaim t =
    if not (reclaim.owns_thread t) then ok tt else elim reclaim.finalize_hook [
      | none ↦ err ec_invalid_state
      | some finalize ↦ require (is_success (finalize t)) (finalize t)
    ]

unfoldable pub release_stack_range : Reclaim → ℕ → Result (Unit {0})
release_stack_range reclaim t =
    if not (reclaim.stack_owned_by_kva t)
    then ok tt
    else require (is_success (reclaim.release_stack t)) (reclaim.release_stack t)

-- KiFinalizeThread gives back the user runtime, the stack and the thread.
unfoldable pub finalize_thread : Reclaim → Threads → ℕ → Result Threads
finalize_thread reclaim s t =
    require (not (t == s.idle)) ec_invalid_state
    >> require (s.lives t).terminated ec_invalid_state
    >> require (is_consumed (s.lives t).claim) ec_invalid_state
    >> finalize_user_runtime reclaim t
    >> release_stack_range reclaim t
    >> ok (record s { finalized = t ∷ s.finalized })

-- The thread ends and publishes its completion; a detached one goes to the reaper.
unfoldable pub thread_exit : Level → Threads → ℕ → ℕ → Result Threads
thread_exit level s t owned_mutexes =
    let s' = put_life s t (record (s.lives t) { terminated = true; published = true }) in
    assert_blocking_allowed level
    >> require (not (t == s.idle)) ec_invalid_state
    >> require (owned_mutexes == 0) ec_invalid_state
    >> (if is_detached (s.lives t).mode then queue_detached_thread_for_reaper s' t else ok s')

-- A join returns with a status, or holds the claim and waits for the completion, or has consumed the
-- end of the thread: it calls KiFinalizeThread after its critical section and returns EC_SUCCESS.
pub data Joining : Type 0 where
  returns : Status → Joining
  waits : Joining
  finalizes : Joining

unfoldable pub consume : Threads → ℕ → Result (Threads × Joining)
consume s t = mark_thread_termination_consumed s t >>= λ s'. ok (s', finalizes)

unfoldable pub give_up : Threads → ℕ → Status → Result (Threads × Joining)
give_up s t status = release_thread_join_claim s t >>= λ s'. ok (s', returns status)

-- KeThreadJoin once the claim is taken.
unfoldable pub join_claimed : Threads → ℕ → ℕ → Result (Threads × Joining)
join_claimed s t timeout =
    if is_completed (s.lives t)
    then consume s t
    else if timeout == 0
    then give_up s t ec_timeout
    else ok (s, waits)

-- KeThreadJoin up to its wait.
unfoldable pub join_begin : Level → Threads → ℕ → ℕ → ℕ → Result (Threads × Joining)
join_begin level s current t timeout =
    let l = s.lives t in
    assert_blocking_allowed level
    >> (if (t == current)
          || ((current == s.idle)
              || ((t == s.idle)
                  || (is_detached l.mode || (is_consumed l.claim || is_join_in_progress l.claim))))
        then ok (s, returns ec_invalid_state)
        else join_claimed (put_claim s t join_in_progress) t timeout)

-- KeThreadJoin after its wait has ended with a status.
unfoldable pub join_end : Threads → ℕ → Status → Result (Threads × Joining)
join_end s t wait_status =
    let l = s.lives t in
    if is_success wait_status
    then require (not (is_detached l.mode)) ec_invalid_state
      >> require l.terminated ec_invalid_state
      >> require l.published ec_invalid_state
      >> require (is_join_in_progress l.claim) ec_invalid_state
      >> consume s t
    else if is_join_in_progress l.claim
    then give_up s t wait_status
    else ok (s, returns wait_status)

unfoldable pub thread_detach : Threads → ℕ → Result (Threads × Status)
thread_detach s t =
    let l = s.lives t in
    let s' = put_life s t (record l { mode = detached }) in
    if (t == s.idle) || (is_detached l.mode || (is_consumed l.claim || is_join_in_progress l.claim))
    then ok (s, ec_invalid_state)
    else (if is_completed l then queue_detached_thread_for_reaper s' t else ok s') >>= λ s''.
        ok (s'', ec_success)

-- The critical section of one round of the reaper: the first thread of the list, consumed.
unfoldable pub reap_first : Threads → List ℕ → Result (Threads × Option ℕ)
reap_first s [] = ok (s, none)
reap_first s (t ∷ ts) =
    mark_thread_termination_consumed (record s { terminated_list = ts }) t >>= λ s'. ok (s', some t)

unfoldable pub reap_take : Threads → Result (Threads × Option ℕ)
reap_take s = reap_first s s.terminated_list

-- A round after its critical section, and the loop again.
unfoldable pub reap_round :
    Reclaim
    → (Threads → Option (Result Threads))
    → Result (Threads × Option ℕ)
    → Option (Result Threads)
reap_round reclaim again (err e) = some (err e)
reap_round reclaim again (ok (s, none)) = some (ok s)
reap_round reclaim again (ok (s, some t)) = elim (finalize_thread reclaim s t) [
  | err e ↦ some (err e)
  | ok s' ↦ again s'
]

-- KiReapTerminatedThreads, for at most `fuel` rounds: none is a loop that has not ended by then.
unfoldable pub reap_terminated_threads : Reclaim → ℕ → Threads → Option (Result Threads)
reap_terminated_threads reclaim zero s = none
reap_terminated_threads reclaim (suc fuel) s =
    reap_round reclaim (reap_terminated_threads reclaim fuel) (reap_take s)
