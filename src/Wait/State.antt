-- ===== src/Wait/State.antt =====
-- Threads, wait blocks, dispatcher objects and the queues of the scheduler. A wait block is named by
-- its thread, an object by its address, and a queue is the list of its entries.
use himu_os.Prelude.{
  ℕ, ◌-◌, ◌^◌, Bool, true, false, ◌&&◌, ◌||◌, not, Option, none, some, List, [], ◌∷◌, ◌++◌, leb,
  ◌==◌, if◌then◌else◌, Status, ec_success,
}

pub data DispatcherType : Type 0 where
  event_type semaphore_type mutex_type : DispatcherType
  other_type : ℕ → DispatcherType

-- KDISPATCHER_HEADER with the limit of KSEMAPHORE and the owner of KMUTEX. The state and the limit
-- are 32-bit words that the code reads as signed.
pub record Dispatcher : Type 0 where
  pub signature : ℕ
  pub type : DispatcherType
  pub signal_state : ℕ
  pub wait_list : List ℕ
  pub limit : ℕ
  pub owner : Option ℕ

pub record WaitBlock : Type 0 where
  pub dispatcher : Option ℕ
  pub deadline : ℕ
  pub completion_status : Status
  pub completed : Bool

pub data ThreadState : Type 0 where
  new ready running blocked terminated : ThreadState

pub record Kthread : Type 0 where
  pub state : ThreadState
  pub priority : ℕ
  pub owned_mutex_count : ℕ
  pub wait_block : WaitBlock

-- `ready_queues` is indexed by the priority.
pub record Scheduler : Type 0 where
  pub dispatchers : ℕ → Dispatcher
  pub threads : ℕ → Kthread
  pub ready_queues : ℕ → List ℕ
  pub timeout_queue : List ℕ
  pub current : ℕ
  pub idle : ℕ
  pub sleep_wake_count : ℕ

abbrev pub dispatcher_signature : ℕ
dispatcher_signature = 0x4B44_4953

abbrev pub priority_count : ℕ
priority_count = 3

abbrev pub wait_infinite : ℕ
wait_infinite = 2 ^ 64 - 1

abbrev pub put_thread : Scheduler → ℕ → Kthread → Scheduler
put_thread s t x = record s { threads = λ a. if a == t then x else s.threads a }

abbrev pub put_dispatcher : Scheduler → ℕ → Dispatcher → Scheduler
put_dispatcher s d x = record s { dispatchers = λ a. if a == d then x else s.dispatchers a }

-- LinkedListIsEmpty, LinkedListInsertTail and LinkedListRemove on a list of entries.
abbrev pub is_empty : List ℕ → Bool
is_empty [] = true
is_empty (x ∷ xs) = false

abbrev pub insert_tail : List ℕ → ℕ → List ℕ
insert_tail xs t = xs ++ (t ∷ [])

abbrev pub remove : ℕ → List ℕ → List ℕ
remove t [] = []
remove t (x ∷ xs) = if x == t then xs else x ∷ remove t xs

abbrev pub contains : ℕ → List ℕ → Bool
contains t [] = false
contains t (x ∷ xs) = (x == t) || contains t xs

abbrev pub has_any_ready_thread : Scheduler → Bool
has_any_ready_thread s =
    not (is_empty (s.ready_queues 0))
    || not (is_empty (s.ready_queues 1))
    || not (is_empty (s.ready_queues 2))

-- KiGetHighestPriorityReadyQueue, by its priority.
unfoldable pub highest_ready_priority : Scheduler → Option ℕ
highest_ready_priority s =
    if not (is_empty (s.ready_queues 2))
    then some 2
    else if not (is_empty (s.ready_queues 1))
    then some 1
    else if not (is_empty (s.ready_queues 0))
    then some 0
    else none

-- What runs after an operation when the idle thread should give way.
abbrev pub needs_schedule : Scheduler → Bool
needs_schedule s = (s.current == s.idle) && has_any_ready_thread s

abbrev pub initial_wait_block : WaitBlock
initial_wait_block = record {
  dispatcher = none;
  deadline = 0;
  completion_status = ec_success;
  completed = false;
}

-- A 32-bit word as `int32_t` is below zero.
abbrev pub is_negative : ℕ → Bool
is_negative w = leb (2 ^ 31) w

abbrev pub same_owner : Option ℕ → ℕ → Bool
same_owner none t = false
same_owner (some o) t = o == t

abbrev pub has_owner : Option ℕ → Bool
has_owner none = false
has_owner (some o) = true
