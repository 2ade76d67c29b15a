-- ===== src/Dispatch/Timer.antt =====
-- KiSchedulerTimerISR of kernel/ke/thread/scheduler/timer.c, past the acknowledgement of the device.
use himu_os.Prelude.{
  ℕ, ◌+◌, ◌-◌, Bool, ◌&&◌, not, Option, none, some, ◌==◌, leb, ltb, if◌then◌else◌, Result, ok, err,
  ◌>>=◌, ec_invalid_state,
}
use himu_os.Irql.{Level, is_dispatch}
use himu_os.Wait.State.{Scheduler, has_any_ready_thread}
use himu_os.Wait.Complete.{wake_timeouts}
use himu_os.Dispatch.Clock.{Dispatch, Clock, armed_by, arm_for_next_event}
use himu_os.Dispatch.Schedule.{Spaces, schedule, requeue_current}

-- `level` is the level of the interrupt. It reads the clock as `now`, and KiSchedule reads it again,
-- as `later`.
module _ (clock : Clock) (spaces : Spaces) (level : Level) where
  -- The current thread makes way at the end of its quantum.
  unfoldable pub preempt : Dispatch → ℕ → Result Dispatch
  preempt d later = requeue_current d >>= λ queued.
      schedule clock spaces level (record queued { preemption_count = queued.preemption_count + 1 })
        later

  -- The decision after the timeouts: an idle processor with a ready thread, the end of a quantum, or
  -- neither.
  unfoldable pub reschedule : Dispatch → ℕ → ℕ → Result Dispatch
  reschedule d now later =
      if (d.base.current == d.base.idle) && has_any_ready_thread d.base
      then schedule clock spaces level d later
      else if not (d.base.current == d.base.idle) && leb d.quantum_deadline now
      then preempt d later
      else ok (arm_for_next_event clock d now d.base.current)

  unfoldable pub after_timeouts :
      Dispatch → ℕ → ℕ → Option (Result Scheduler) → Option (Result Dispatch)
  after_timeouts d now later none = none
  after_timeouts d now later (some (err e)) = some (err e)
  after_timeouts d now later (some (ok s)) = some (reschedule (record d { base = s }) now later)

  -- An interrupt before the deadline arms the remainder; one at it wakes what is due, with `fuel`
  -- rounds of the loop over the timeouts, and decides.
  unfoldable pub scheduler_timer_isr : Bool → ℕ → Dispatch → ℕ → ℕ → Option (Result Dispatch)
  scheduler_timer_isr enabled fuel d now later =
      if not enabled
      then some (ok d)
      else if not (is_dispatch level)
      then some (err ec_invalid_state)
      else if not (d.next_deadline == 0) && ltb now d.next_deadline
      then some (ok (record d { armed = armed_by clock d.armed (d.next_deadline - now) }))
      else after_timeouts d now later (wake_timeouts fuel d.base now)
