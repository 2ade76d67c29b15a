-- ===== src/Dispatch/Chosen.antt =====
-- KiSchedule runs the head of the highest ready queue that has one, or the idle thread.
use himu_os.Prelude.{
  ℕ, ◌+◌, ◌^◌, ◌≤◌, ◌<◌, ◌≡◌, ◌≢◌, ◌⊎◌, inl, inr, refl, sym, subst, ap, ◌∙◌, true, false, List, [],
  ◌∷◌, ◌==◌, Bool-cases, ok, ◌>>=◌, add64, arith,
}
use himu_os.Irql.{dispatch_level}
use himu_os.Wait.State.{ThreadState, running, Scheduler}
use himu_os.Wait.Complete.{deadline_of}
use himu_os.Wait.Timeouts.{IsSorted, AllFrom}
use himu_os.Dispatch.Clock.{
  Dispatch, Clock, default_quantum, arm_for_next_event, arm_idle, arm_running,
}
use himu_os.Dispatch.Schedule.{
  Spaces, set_state, resolve_dispatch_root, switch_thread, run_next, schedule,
}
use himu_os.Dispatch.Timely.{IsArmed, arm_for_next_event-IsTimely}
use himu_os.Dispatch.Taken.{IsChosen, Taken, take_next-Taken}

-- Every thread's root resolves to one that can be installed.
pub record IsRooted (spaces : Spaces) : Type 0 where
  pub resolves : (t : ℕ) → (root : ℕ) × (root ≢ 0) × (spaces.resolve_root t ≡ ok root)
  pub installs : (root : ℕ) → spaces.switch_to root ≡ ok tt

-- The threads and queues once the chosen thread runs.
abbrev pub Runs : Scheduler → Scheduler → ℕ → Type 0
Runs s s' next =
    IsChosen s s' next
    × (s'.threads next ≡ record (s.threads next) { state = running })
    × ((t : ℕ) → t ≢ next → s'.threads t ≡ s.threads t)
    × (s'.timeout_queue ≡ s.timeout_queue)
    × (s'.idle ≡ s.idle)
    × (s'.dispatchers ≡ s.dispatchers)
    × (s'.sleep_wake_count ≡ s.sleep_wake_count)

pub set_state-deadline :
    (s : Scheduler) (t : ℕ) (state : ThreadState)
    → deadline_of (set_state s t state) ≡ deadline_of s
set_state-deadline s t state = λ i a. at_thread a i
  where
    at_thread :
        (a : ℕ)
        → ((set_state s t state).threads a).wait_block.deadline ≡ (s.threads a).wait_block.deadline
    at_thread a = elim (Bool-cases (a == t)) [
      | inl e ↦ let same : t ≡ a = ground arith in rw (e, same) refl
      | inr e ↦ rw e refl
    ]

module _ (s s1 : Scheduler) (next : ℕ) (taken : Taken s (s1, next)) where
  set_state-Runs : Runs s (set_state s1 next running) next
  set_state-Runs =
      let (chosen, threads, timeouts, current, idle, objects, wakes) = taken in
      let self : (next == next) ≡ true = ground arith in
      (
        chosen,
        rw self (ap (λ f. record (f next) { state = running }) threads),
        λ t ne. let apart : (t == next) ≡ false = ground arith in rw apart (ap (λ f. f t) threads),
        timeouts,
        idle,
        objects,
        wakes,
      )

  set_state-IsSorted :
      IsSorted (deadline_of s) s.timeout_queue
      → IsSorted (deadline_of (set_state s1 next running)) s1.timeout_queue
  set_state-IsSorted sorted =
      let (chosen, threads, timeouts, current, idle, objects, wakes) = taken in
      let kept : deadline_of (set_state s1 next running) ≡ deadline_of s =
        set_state-deadline s1 next running ∙ ap (λ f a. (f a).wait_block.deadline) threads in
      subst (λ f. IsSorted f s1.timeout_queue) (sym kept)
        (subst (IsSorted (deadline_of s)) (sym timeouts) sorted)

-- The counters that a scheduling decision leaves.
abbrev SameCounts : Dispatch → Dispatch → Type 0
SameCounts d d' =
    (d'.preemption_count ≡ d.preemption_count)
    × (d'.yield_count ≡ d.yield_count)
    × (d'.total_threads_created ≡ d.total_threads_created)
    × (d'.active_thread_count ≡ d.active_thread_count)

-- The quanta: a thread other than the idle one has a new one from `now` on, and no other changes.
abbrev IsQuantum : Dispatch → ℕ → ℕ → ℕ → Dispatch → Type 0
IsQuantum d now next idle d' =
    ((next ≡ idle) × (d'.quantum ≡ d.quantum) × (d'.quantum_deadline ≡ d.quantum_deadline))
    ⊎ ((next ≢ idle)
        × (d'.quantum next ≡ default_quantum)
        × ((t : ℕ) → t ≢ next → d'.quantum t ≡ d.quantum t)
        × (d'.quantum_deadline ≡ now + default_quantum))

-- The root installed, and whether a switch is counted.
abbrev IsSwitch : Spaces → Dispatch → ℕ → Dispatch → Type 0
IsSwitch spaces d next d' =
    ((next ≡ d.base.current)
      × (d'.root ≡ d.root)
      × (d'.context_switch_count ≡ d.context_switch_count))
    ⊎ ((next ≢ d.base.current)
        × (spaces.resolve_root next ≡ ok d'.root)
        × (d'.context_switch_count ≡ d.context_switch_count + 1))

-- What the clock is armed for.
abbrev IsProgrammed : Clock → Dispatch → ℕ → ℕ → ℕ → List ℕ → Dispatch → Type 0
IsProgrammed clock d now next idle timeouts d' =
    ((next ≡ idle) × (timeouts ≡ []) × (◌≡◌ {A = ℕ} d'.next_deadline 0) × (d'.armed ≡ d.armed))
    ⊎ IsArmed clock d'.next_deadline now d'.armed

-- What a scheduling decision promises: the thread chosen runs, its quantum and the clock are
-- programmed, its root is installed.
abbrev pub Scheduled : Clock → Spaces → Dispatch → ℕ → Dispatch → Type 0
Scheduled clock spaces d now d' =
    (next : ℕ) × Runs d.base d'.base next
    × (d'.base.current ≡ next)
    × AllFrom (deadline_of d'.base) d'.next_deadline d'.base.timeout_queue
    × IsProgrammed clock d now next d.base.idle d.base.timeout_queue d'
    × ((next ≢ d.base.idle) → d'.next_deadline ≤ now + default_quantum)
    × IsQuantum d now next d.base.idle d'
    × IsSwitch spaces d next d'
    × SameCounts d d'

-- Arming changes no counter and no root, and gives a quantum to the thread alone.
arm-counts :
    (clock : Clock) (d : Dispatch) (now next : ℕ)
    → now + default_quantum < 2 ^ 64
    → ((arm_for_next_event clock d now next).context_switch_count ≡ d.context_switch_count)
      × ((arm_for_next_event clock d now next).root ≡ d.root)
      × IsQuantum d now next d.base.idle (arm_for_next_event clock d now next)
      × SameCounts d (arm_for_next_event clock d now next)
unfolding arm_for_next_event arm_running arm_idle
arm-counts clock d now next room = elim (Bool-cases (next == d.base.idle)) [
  | inr e ↦
      let self : (next == next) ≡ true = ground arith in
      let busy : next ≢ d.base.idle = ground arith in
      let end : add64 now default_quantum ≡ now + default_quantum = omega arith in
      rw e (
        refl,
        refl,
        inr (
          busy,
          rw self refl,
          λ t ne. let apart : (t == next) ≡ false = ground arith in rw apart refl,
          end,
        ),
        (refl, refl, refl, refl),
      )
  | inl e ↦ rw e (idle (ground arith) d.base.timeout_queue)
]
  where
    idle :
        next ≡ d.base.idle
        → (xs : List ℕ)
        → ((arm_idle clock d now xs).context_switch_count ≡ d.context_switch_count)
          × ((arm_idle clock d now xs).root ≡ d.root)
          × IsQuantum d now next d.base.idle (arm_idle clock d now xs)
          × SameCounts d (arm_idle clock d now xs)
    idle is [] = (refl, refl, inl (is, refl, refl), (refl, refl, refl, refl))
    idle is (t ∷ ts) = (refl, refl, inl (is, refl, refl), (refl, refl, refl, refl))

module _ (clock : Clock) (spaces : Spaces) (d : Dispatch) (now : ℕ) (rooted : IsRooted spaces)
    (sorted : IsSorted (deadline_of d.base) d.base.timeout_queue)
    (room : now + default_quantum < 2 ^ 64) where
  run_next-Scheduled :
      (s1 : Scheduler) (next : ℕ)
      → Taken d.base (s1, next)
      → (d' : Dispatch) × (run_next clock spaces d now (s1, next) ≡ ok d')
        × Scheduled clock spaces d now d'
  unfolding run_next switch_thread resolve_dispatch_root
  run_next-Scheduled s1 next taken =
      let base1 = set_state s1 next running in
      let runs = set_state-Runs d.base s1 next taken in
      let in_order = set_state-IsSorted d.base s1 next taken sorted in
      let (chosen, threads, timeouts, current, idle, objects, wakes) = taken in
      elim (Bool-cases (next == d.base.current)) [
        | inl e ↦
            let started = record d { base = base1 } in
            let d' = arm_for_next_event clock started now next in
            let (same, deadline, programmed, quantum) =
              arm_for_next_event-IsTimely clock started now next in_order room in
            let (switches, root, quanta, counts) = arm-counts clock started now next room in
            (
              d',
              rw e refl,
              (
                next,
                subst (λ b. Runs d.base b next) (sym same) runs,
                ap (λ b. b.current) same ∙ current ∙ sym (ground arith),
                subst (λ b. AllFrom (deadline_of b) d'.next_deadline b.timeout_queue) (sym same)
                    deadline,
                subst (λ i. IsProgrammed clock d now next i d.base.timeout_queue d') idle
                    (subst (λ q. IsProgrammed clock d now next s1.idle q d') timeouts programmed),
                λ ne. (quantum (λ q. ne (q ∙ idle))).1,
                subst (λ i. IsQuantum d now next i d') idle quanta,
                inl (ground arith, root, switches),
                counts,
              ),
            )
        | inr e ↦
            let (root, set, found) = rooted.resolves next in
            let started = record d {
              base = base1;
              context_switch_count = d.context_switch_count + 1;
            } in
            let timed = arm_for_next_event clock started now next in
            let (same, deadline, programmed, quantum) =
              arm_for_next_event-IsTimely clock started now next in_order room in
            let (switches, kept, quanta, counts) = arm-counts clock started now next room in
            let some_root : (root == 0) ≡ false = ground (arith, set) in
            (
              record timed { base = record (timed.base) { current = next }; root = root },
              rw (e, found, some_root, rooted.installs root) refl,
              (
                next,
                subst (λ b. Runs d.base b next) (sym same) runs,
                refl,
                subst (λ b. AllFrom (deadline_of b) timed.next_deadline b.timeout_queue) (sym same)
                    deadline,
                subst (λ i. IsProgrammed clock d now next i d.base.timeout_queue timed) idle
                    (subst (λ q. IsProgrammed clock d now next s1.idle q timed) timeouts
                      programmed),
                λ ne. (quantum (λ q. ne (q ∙ idle))).1,
                subst (λ i. IsQuantum d now next i timed) idle quanta,
                inr (ground arith, found, switches),
                counts,
              ),
            )
      ]

  -- At the dispatch level, where every root resolves and installs, the timeouts are in order and the
  -- end of a quantum fits in 64 bits, a scheduling decision succeeds: the head of the highest ready
  -- queue that has one leaves its queue and is running, or the idle thread where there is none; its
  -- other fields, and all other threads and queues, stay. Unless it is the idle thread it gets the
  -- default quantum, which ends that long after `now`; the deadline programmed is not after any
  -- timeout or that end, and the clock is armed for it, unless the processor idles with no timeout.
  -- Where the thread is another one, its root is installed and the switch counted. Nothing else
  -- changes.
  pub schedule-Scheduled :
      (d' : Dispatch) × (schedule clock spaces dispatch_level d now ≡ ok d')
      × Scheduled clock spaces d now d'
  unfolding schedule
  schedule-Scheduled =
      let ((s1, next), run, taken) = take_next-Taken d.base in
      let (d', ran, scheduled) = run_next-Scheduled s1 next taken in
      (d', ap (λ r. r >>= run_next clock spaces d now) run ∙ ran, scheduled)
