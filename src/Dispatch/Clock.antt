-- ===== src/Dispatch/Clock.antt =====
-- The scheduler's clock, kernel/ke/thread/scheduler/timer.c: the next event is armed for the end of
-- the quantum or the first timeout.
use himu_os.Prelude.{ℕ, ◌-◌, Option, none, some, List, [], ◌∷◌, ◌==◌, ltb, if◌then◌else◌, add64}
use himu_os.Wait.State.{Scheduler}
use himu_os.Wait.Complete.{deadline_of, arm_clock_event}

-- The scheduler's variables around the queues: the quanta of the threads, gQuantumDeadlineNs,
-- gNextProgrammedDeadlineNs, the delta last given to KeClockEventSetNextEvent, the root that
-- KeSwitchAddressSpace last installed, and the counters of gStats.
pub record Dispatch : Type 0 where
  pub base : Scheduler
  pub quantum : ℕ → ℕ
  pub quantum_deadline : ℕ
  pub next_deadline : ℕ
  pub armed : Option ℕ
  pub root : ℕ
  pub context_switch_count : ℕ
  pub preemption_count : ℕ
  pub yield_count : ℕ
  pub total_threads_created : ℕ
  pub active_thread_count : ℕ

-- KE_DEFAULT_QUANTUM_NS
abbrev pub default_quantum : ℕ
default_quantum = 10000000

-- The bounds of the clock event device.
pub record Clock : Type 0 where
  pub min_delta : ℕ
  pub max_delta : ℕ

-- The delta programmed, or the one before where KiArmClockEvent returns at once.
unfoldable pub armed_by : Clock → Option ℕ → ℕ → Option ℕ
armed_by clock before delta = elim (arm_clock_event clock.min_delta clock.max_delta delta) [
  | some x ↦ some x
  | none ↦ before
]

abbrev pub delta_until : ℕ → ℕ → ℕ
delta_until deadline now = if ltb now deadline then deadline - now else 1

-- The idle thread waits for the first timeout only.
unfoldable pub arm_idle : Clock → Dispatch → ℕ → List ℕ → Dispatch
arm_idle clock d now [] = record d { next_deadline = 0 }
arm_idle clock d now (t ∷ ts) = record d {
  next_deadline = deadline_of d.base t;
  armed = armed_by clock d.armed (delta_until (deadline_of d.base t) now);
}

-- The first timeout, where it is before the end of the quantum.
unfoldable pub earliest : (ℕ → ℕ) → ℕ → List ℕ → ℕ
earliest deadline limit [] = limit
earliest deadline limit (t ∷ ts) = if ltb (deadline t) limit then deadline t else limit

unfoldable pub arm_running : Clock → Dispatch → ℕ → ℕ → Dispatch
arm_running clock d now next =
    let limit = add64 now default_quantum in
    let target = earliest (deadline_of d.base) limit d.base.timeout_queue in
    record d {
      quantum = λ t. if t == next then default_quantum else d.quantum t;
      quantum_deadline = limit;
      next_deadline = target;
      armed = armed_by clock d.armed (delta_until target now);
    }

unfoldable pub arm_for_next_event : Clock → Dispatch → ℕ → ℕ → Dispatch
arm_for_next_event clock d now next =
    if next == d.base.idle
    then arm_idle clock d now d.base.timeout_queue
    else arm_running clock d now next
