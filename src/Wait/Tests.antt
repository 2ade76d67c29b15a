-- ===== src/Wait/Tests.antt =====
-- Runs of events, semaphores, mutexes and the timer on three threads, of which thread 1 runs and
-- threads 2 and 3 wait for object 10.
use himu_os.Prelude.{
  ℕ, ◌-◌, ◌^◌, ◌≡◌, refl, true, false, Option, none, some, [], ◌∷◌, ◌==◌, if◌then◌else◌, take, drop,
  Status, ec_success, ok, arith,
}
use himu_os.Irql.{passive_level}
use himu_os.Wait.State.{
  DispatcherType, event_type, semaphore_type, mutex_type, Dispatcher, running, blocked, Kthread,
  Scheduler, dispatcher_signature,
}
use himu_os.Wait.Complete.{deadline_of, wake_timeouts}
use himu_os.Wait.Single.{block_on, wait_for_single_object}
use himu_os.Wait.Wake.{AllWaiting}
use himu_os.Wait.Signal.{IsSemaphore}
use himu_os.Wait.Timeouts.{IsSorted, AllUpTo, AllBeyond}
use himu_os.Wait.Expire.{AllTimed, Woken, wake_timeouts-Woken}
use himu_os.Wait.Deadline.{block_on-AllTimed}
use himu_os.Wait.Acquire.{Waited, wait_for_single_object-Waited}
use himu_os.Wait.Hang.{block_on-hangs}

abbrev waiter : ℕ → Kthread
waiter deadline = record {
  state = blocked;
  priority = 1;
  owned_mutex_count = 0;
  wait_block = record {
    dispatcher = some 10;
    deadline = deadline;
    completion_status = ec_success;
    completed = false;
  };
}

abbrev owner : Kthread
owner = record {
  state = running;
  priority = 2;
  owned_mutex_count = 1;
  wait_block = record {
    dispatcher = none;
    deadline = 0;
    completion_status = ec_success;
    completed = true;
  };
}

abbrev object : DispatcherType → ℕ → Option ℕ → Dispatcher
object type signal owned_by = record {
  signature = dispatcher_signature;
  type = type;
  signal_state = signal;
  wait_list = 2 ∷ 3 ∷ [];
  limit = 5;
  owner = owned_by;
}

abbrev machine : Dispatcher → Scheduler
machine x = record {
  dispatchers = λ d. x;
  threads = λ t. if t == 1 then owner else if t == 2 then waiter 40 else waiter 70;
  ready_queues = λ p. [];
  timeout_queue = 2 ∷ 3 ∷ [];
  current = 1;
  idle = 0;
  sleep_wake_count = 0;
}

abbrev both_wait : (x : Dispatcher) → AllWaiting (machine x) 10 (2 ∷ 3 ∷ [])
both_wait x = (refl, refl, refl, refl, (refl, refl, refl, refl, tt))

abbrev event : Dispatcher
event = object event_type 0 none

abbrev semaphore : Dispatcher
semaphore = object semaphore_type 0 none

semaphore-IsSemaphore : IsSemaphore semaphore
semaphore-IsSemaphore = (refl, refl, omega arith, λ e. absurd (omega arith), omega arith)

abbrev mutex : Dispatcher
mutex = object mutex_type 0 (some 1)

abbrev foreign : Dispatcher
foreign = object mutex_type 0 (some 3)

abbrev timed_wait : AllTimed (machine event) (2 ∷ 3 ∷ [])
timed_wait =
    (refl, λ e. absurd (omega arith), refl, refl, (refl, λ e. absurd (omega arith), refl, refl, tt))

wait-IsSorted : IsSorted (deadline_of (machine event)) (2 ∷ 3 ∷ [])
wait-IsSorted = ((omega arith, tt), (tt, tt))

wake_timeouts-Woken_example :
    (s' : Scheduler) × (n : ℕ) × (wake_timeouts 3 (machine event) 50 ≡ some (ok s'))
    × Woken n (machine event) (2 ∷ 3 ∷ []) s'
    × AllUpTo (deadline_of (machine event)) 50 (take n (2 ∷ 3 ∷ []))
    × AllBeyond (deadline_of (machine event)) 50 (drop n (2 ∷ 3 ∷ []))
wake_timeouts-Woken_example =
    wake_timeouts-Woken 3 (machine event) 50 (omega arith) timed_wait wait-IsSorted

abbrev quiet : Scheduler
quiet = record (machine event) { timeout_queue = [] }

block_on-hangs_example : wake_timeouts 100 (block_on quiet 10 (2 ^ 64 - 7) 7) 9 ≡ none
block_on-hangs_example =
    block_on-hangs 100 quiet 10 (2 ^ 64 - 7) 7 9 refl refl (λ e. absurd (omega arith)) refl

-- Thread 1 joins the waiters of the event, until 50 time units later.
abbrev joined : Scheduler
joined = block_on (machine event) 10 50 7

block_on-AllTimed_example :
    AllTimed joined joined.timeout_queue × IsSorted (deadline_of joined) joined.timeout_queue
block_on-AllTimed_example =
    block_on-AllTimed (machine event) 10 50 7 timed_wait wait-IsSorted refl refl
      (λ e. absurd (omega arith)) (λ e. absurd (omega arith))

wait_for_single_object-Waited_example :
    (r : Scheduler × Option Status) × (wait_for_single_object passive_level
        (machine semaphore)
        10
        50
        7
      ≡ ok r)
    × Waited (machine semaphore) 10 50 7 r
wait_for_single_object-Waited_example =
    wait_for_single_object-Waited (machine semaphore) 10 50 7 refl semaphore-IsSemaphore refl

abbrev free_mutex : Scheduler
free_mutex = machine (record (object mutex_type 1 none) { wait_list = [] })
