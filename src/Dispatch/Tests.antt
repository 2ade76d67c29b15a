-- ===== src/Dispatch/Tests.antt =====
-- Scheduling decisions with thread 1 running, thread 2 ready and thread 3 asleep.
use himu_os.Prelude.{
  true, some, inl, inr, Bool-cases, ℕ, ◌<◌, ◌≡◌, refl, false, none, [], ◌∷◌, ◌==◌, if◌then◌else◌,
  ok, ec_success, arith,
}
use himu_os.Irql.{dispatch_level, passive_level}
use himu_os.Wait.State.{
  contains, event_type, ThreadState, ready, running, blocked, Kthread, Scheduler,
  dispatcher_signature,
}
use himu_os.Dispatch.Clock.{Dispatch, Clock, default_quantum}
use himu_os.Dispatch.Schedule.{Spaces, schedule, yield}
use himu_os.Dispatch.Timer.{scheduler_timer_isr}
use himu_os.Dispatch.Chosen.{IsRooted, Scheduled, schedule-Scheduled}
use himu_os.Dispatch.Interrupt.{Handled, scheduler_timer_isr-Handled}
use himu_os.Dispatch.Fair.{IsOff, IsFair, Yielded, yield-Yielded}

abbrev thread : ThreadState → ℕ → Kthread
thread state deadline = record {
  state = state;
  priority = 1;
  owned_mutex_count = 0;
  wait_block = record {
    dispatcher = none;
    deadline = deadline;
    completion_status = ec_success;
    completed = false;
  };
}

abbrev queues : Scheduler
queues = record {
  dispatchers = λ d. record {
    signature = dispatcher_signature;
    type = event_type;
    signal_state = 0;
    wait_list = [];
    limit = 0;
    owner = none;
  };
  threads = λ t.
      if t == 1 then thread running 0 else if t == 2 then thread ready 0 else thread blocked 7000;
  ready_queues = λ p. if p == 1 then 2 ∷ [] else [];
  timeout_queue = 3 ∷ [];
  current = 1;
  idle = 0;
  sleep_wake_count = 0;
}

abbrev processor : Dispatch
processor = record {
  base = queues;
  quantum = λ t. default_quantum;
  quantum_deadline = 5000;
  next_deadline = 5000;
  armed = none;
  root = 4096;
  context_switch_count = 4;
  preemption_count = 0;
  yield_count = 0;
  total_threads_created = 4;
  active_thread_count = 4;
}

abbrev device : Clock
device = record { min_delta = 10; max_delta = 100000000 }

abbrev kernel_root : Spaces
kernel_root = record { resolve_root = λ t. ok 4096; switch_to = λ r. ok tt }

kernel_root-IsRooted : IsRooted kernel_root
kernel_root-IsRooted = record { resolves = λ t. (4096, (omega arith), refl); installs = λ r. refl }

queues-IsOff : IsOff queues
queues-IsOff = (omega arith, out)
  where
    out : (q : ℕ) → q < 3 → contains 1 (queues.ready_queues q) ≡ false
    out q h = elim (Bool-cases (q == 1)) [ inl e ↦ rw e refl | inr e ↦ rw e refl ]

schedule-Scheduled_example :
    (d' : Dispatch) × (schedule device kernel_root dispatch_level processor 1000 ≡ ok d')
    × Scheduled device kernel_root processor 1000 d'
schedule-Scheduled_example =
    schedule-Scheduled device kernel_root processor 1000 kernel_root-IsRooted (tt, tt) (omega arith)

yield-Yielded_example :
    (d' : Dispatch) × (yield device kernel_root passive_level processor 1000 ≡ ok d')
    × IsFair processor d'
    × Yielded device kernel_root processor 1000 d'
yield-Yielded_example =
    yield-Yielded device kernel_root processor 1000 kernel_root-IsRooted queues-IsOff (tt, tt)
      (omega arith)

scheduler_timer_isr-Handled_example :
    (d' : Dispatch) × (scheduler_timer_isr device kernel_root dispatch_level true 2 processor 6000
        6100
      ≡ some (ok d'))
    × Handled device kernel_root processor 6000 6100 d'
scheduler_timer_isr-Handled_example =
    scheduler_timer_isr-Handled device kernel_root 2 processor 6000 6100 kernel_root-IsRooted
      (queues-IsOff, refl) ((refl, (omega arith), refl, refl, tt)) (tt, tt) (omega arith)
      (omega arith) (omega arith)
