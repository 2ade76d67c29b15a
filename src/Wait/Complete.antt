-- ===== src/Wait/Complete.antt =====
-- The completion of a wait, kernel/ke/thread/scheduler/wait.c, and the timeout queue, timer.c.
use himu_os.Prelude.{
  ℕ, zero, suc, ◌+◌, Bool, true, false, ◌&&◌, Option, none, some, List, [], ◌∷◌, ltb, ◌==◌,
  if◌then◌else◌, Status, ec_illegal_argument, ec_timeout, Result, ok, err, ◌>>◌, require,
}
use himu_os.Wait.State.{
  ready, Scheduler, priority_count, put_thread, put_dispatcher, insert_tail, remove,
}

-- Leave the dispatcher's list, if the wait has a dispatcher.
abbrev pub leave_wait_list : Scheduler → ℕ → Option ℕ → Scheduler
leave_wait_list s t none = s
leave_wait_list s t (some d) =
    put_dispatcher s d
      (record (s.dispatchers d) { wait_list = remove t (s.dispatchers d).wait_list })

abbrev pub leave_timeout_queue : Scheduler → ℕ → ℕ → Scheduler
leave_timeout_queue s t deadline = record s {
  timeout_queue = if deadline == 0 then s.timeout_queue else remove t s.timeout_queue;
}

abbrev pub is_timeout : Status → Bool
is_timeout ec_timeout = true
is_timeout status = false

-- The thread becomes ready at the end of the queue of its priority.
abbrev pub make_ready : Scheduler → ℕ → Scheduler
make_ready s t =
    let x = s.threads t in
    let s' = put_thread s t (record x { state = ready }) in
    record s' {
      ready_queues =
          λ p. if p == x.priority then insert_tail (s.ready_queues p) t else s.ready_queues p;
    }

abbrev pub mark_completed : Scheduler → ℕ → Status → Scheduler
mark_completed s t status =
    let x = s.threads t in
    put_thread s t (record x {
      wait_block = record (x.wait_block) { completed = true; completion_status = status };
    })

-- The steps of KiCompleteWait on a wait that is pending.
unfoldable pub finish_wait : Scheduler → ℕ → Option ℕ → ℕ → Status → Scheduler
finish_wait s t dispatcher deadline status =
    let left =
      leave_timeout_queue (leave_wait_list (mark_completed s t status) t dispatcher) t deadline in
    let woken = make_ready left t in
    record woken {
      sleep_wake_count =
          if is_timeout status then woken.sleep_wake_count + 1 else woken.sleep_wake_count;
    }

unfoldable pub complete_wait : Scheduler → ℕ → Status → Result Scheduler
complete_wait s t status =
    let block = (s.threads t).wait_block in
    if block.completed
    then ok s
    else require (ltb (s.threads t).priority priority_count) ec_illegal_argument
      >> ok (finish_wait s t block.dispatcher block.deadline status)

-- KiInsertTimeoutQueue: before the first entry with a later deadline.
unfoldable pub insert_by_deadline : (ℕ → ℕ) → ℕ → List ℕ → List ℕ
insert_by_deadline deadline t [] = t ∷ []
insert_by_deadline deadline t (x ∷ xs) =
    if ltb (deadline t) (deadline x) then t ∷ x ∷ xs else x ∷ insert_by_deadline deadline t xs

abbrev pub deadline_of : Scheduler → ℕ → ℕ
deadline_of s t = (s.threads t).wait_block.deadline

unfoldable pub insert_timeout_queue : Scheduler → ℕ → Scheduler
insert_timeout_queue s t = record s {
  timeout_queue = insert_by_deadline (deadline_of s) t s.timeout_queue;
}

-- One round of KiWakeTimeouts on the queue, and the loop again.
abbrev pub wake_round :
    (Scheduler → Option (Result Scheduler)) → Scheduler → ℕ → List ℕ → Option (Result Scheduler)
wake_round again s now [] = some (ok s)
wake_round again s now (t ∷ ts) =
    if ltb now (deadline_of s t)
    then some (ok s)
    else elim (complete_wait s t ec_timeout) [ err e ↦ some (err e) | ok s' ↦ again s' ]

-- KiWakeTimeouts, for at most `fuel` rounds: none is a loop that has not ended by then.
unfoldable pub wake_timeouts : ℕ → Scheduler → ℕ → Option (Result Scheduler)
wake_timeouts zero s now = none
wake_timeouts (suc fuel) s now = wake_round (λ s'. wake_timeouts fuel s' now) s now s.timeout_queue

-- The delta that KiArmClockEvent programs, or none where it returns at once. The minimum and
-- the maximum are those of the clock event device.
unfoldable pub arm_clock_event : (min_delta max_delta delta : ℕ) → Option ℕ
arm_clock_event min_delta max_delta delta =
    if delta == 0
    then none
    else let raised = if ltb 0 min_delta && ltb delta min_delta then min_delta else delta in
      some (if ltb 0 max_delta && ltb max_delta raised then max_delta else raised)
