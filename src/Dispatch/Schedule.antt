-- ===== src/Dispatch/Schedule.antt =====
-- KiSchedule and the operations that call it: KeThreadStart, KeYield and KeSleep of
-- kernel/ke/thread/scheduler/scheduler.c. `err` is a failed assertion or a panic; the switch of the
-- stacks is not part of the model.
use himu_os.Prelude.{
  ℕ, ◌+◌, Bool, true, false, ◌&&◌, not, Option, none, some, List, [], ◌∷◌, ◌==◌, ltb, if◌then◌else◌,
  add64, Status, ec_success, ec_illegal_argument, ec_invalid_state, Result, ok, err, ◌>>=◌, ◌>>◌,
  require,
}
use himu_os.Irql.{Level, dispatch_level, assert_blocking_allowed, assert_dispatch_level}
use himu_os.Wait.State.{
  ThreadState, new, running, blocked, Scheduler, put_thread, priority_count, has_any_ready_thread,
  highest_ready_priority, initial_wait_block,
}
use himu_os.Wait.Complete.{make_ready, insert_timeout_queue}
use himu_os.Wait.Single.{put_wait_block}
use himu_os.Dispatch.Clock.{Dispatch, Clock, armed_by, arm_for_next_event}

-- The address spaces, as KiSchedule asks for them: the root of a thread's space, which a hook of the
-- user runtime resolves, and the outcome of installing a root.
pub record Spaces : Type 0 where
  pub resolve_root : ℕ → Result ℕ
  pub switch_to : ℕ → Result (Unit {0})

abbrev pub set_state : Scheduler → ℕ → ThreadState → Scheduler
set_state s t state = put_thread s t (record (s.threads t) { state = state })

-- The head of a ready queue is taken off it.
unfoldable pub take_head : Scheduler → ℕ → List ℕ → Result (Scheduler × ℕ)
take_head s p [] = err ec_invalid_state
take_head s p (t ∷ ts) =
    ok (record s { ready_queues = λ q. if q == p then ts else s.ready_queues q }, t)

unfoldable pub take_next : Scheduler → Option ℕ → Result (Scheduler × ℕ)
take_next s none = ok (s, s.idle)
take_next s (some p) = take_head s p (s.ready_queues p)

-- KiResolveDispatchRoot: a root of 0 is a panic too.
unfoldable pub resolve_dispatch_root : Spaces → ℕ → Result ℕ
resolve_dispatch_root spaces t =
    spaces.resolve_root t >>= λ root. require (not (root == 0)) ec_invalid_state >> ok root

-- The current thread goes to the end of the queue of its priority.
unfoldable pub requeue_current : Dispatch → Result Dispatch
requeue_current d =
    require (ltb (d.base.threads d.base.current).priority priority_count) ec_illegal_argument
    >> ok (record d { base = make_ready d.base d.base.current })

abbrev pub is_new : ThreadState → Bool
is_new new = true
is_new _ = false

module _ (clock : Clock) (spaces : Spaces) where
  unfoldable pub switch_thread : Dispatch → ℕ → ℕ → ℕ → Result Dispatch
  switch_thread d now next root =
      let started = record d {
        base = set_state d.base next running;
        context_switch_count = d.context_switch_count + 1;
      } in
      let timed = arm_for_next_event clock started now next in
      spaces.switch_to root
      >> ok (record timed { base = record (timed.base) { current = next }; root = root })

  -- From the thread taken: the same thread goes on, another is switched to.
  unfoldable pub run_next : Dispatch → ℕ → Scheduler × ℕ → Result Dispatch
  run_next d now (s, next) =
      let taken = record d { base = s } in
      if next == d.base.current
      then ok (arm_for_next_event clock (record d { base = set_state s next running }) now next)
      else resolve_dispatch_root spaces next >>= λ root. switch_thread taken now next root

  -- KiSchedule at `level`, which reads the clock as `now`.
  unfoldable pub schedule : Level → Dispatch → ℕ → Result Dispatch
  schedule level d now =
      assert_dispatch_level level
      >> (take_next d.base (highest_ready_priority d.base) >>= run_next d now)

  -- The guard of KeYield and KeSleep raises the level before KiSchedule, which reads the clock at
  -- `now`.
  unfoldable pub yield : Level → Dispatch → ℕ → Result Dispatch
  yield level d now =
      let counted = record d { yield_count = d.yield_count + 1 } in
      assert_blocking_allowed level
      >> (if not (has_any_ready_thread d.base)
          then ok counted
          else requeue_current counted >>= λ queued. schedule dispatch_level queued now)

  -- The deadline counts from `now`, and KiSchedule reads the clock again, at `later`.
  unfoldable pub sleep : Level → Dispatch → ℕ → ℕ → ℕ → Result Dispatch
  sleep level d now later duration =
      let t = d.base.current in
      let timed =
        put_wait_block d.base t (record initial_wait_block { deadline = add64 now duration }) in
      assert_blocking_allowed level
      >> (if duration == 0
          then yield level d later
          else require (not (t == d.base.idle)) ec_invalid_state
            >> schedule dispatch_level
                (record d { base = insert_timeout_queue (set_state timed t blocked) t }) later)

  -- The clock is armed for the first thread that an idle processor is given.
  unfoldable pub thread_start : Dispatch → ℕ → Result (Dispatch × Status)
  thread_start d t =
      let s = make_ready d.base t in
      if not (is_new (d.base.threads t).state)
      then ok (d, ec_invalid_state)
      else require (ltb (d.base.threads t).priority priority_count) ec_illegal_argument
        >> ok (
          record d {
            base = s;
            total_threads_created = d.total_threads_created + 1;
            active_thread_count = d.active_thread_count + 1;
            armed =
                if (d.base.current == d.base.idle) && (d.next_deadline == 0)
                then armed_by clock d.armed clock.min_delta
                else d.armed;
          },
          ec_success,
        )
