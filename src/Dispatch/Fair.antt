-- ===== src/Dispatch/Fair.antt =====
-- Giving way: a yield and the end of a quantum let every ready thread of the same priority go first.
use himu_os.Prelude.{
  ℕ, zero, suc, ◌+◌, ◌^◌, ◌≤◌, ◌<◌, ◌≡◌, ◌≢◌, ◌⊎◌, inl, inr, refl, sym, subst, ap, ◌∙◌, true, false,
  List, [], ◌∷◌, ◌++◌, ◌==◌, leb, ltb, Bool-cases, ok, arith,
}
use himu_os.Irql.{dispatch_level, passive_level}
use himu_os.Wait.State.{Scheduler, ready, contains, has_any_ready_thread, priority_count}
use himu_os.Wait.Complete.{deadline_of, make_ready}
use himu_os.Wait.Timeouts.{IsSorted}
use himu_os.Dispatch.Clock.{Dispatch, Clock, default_quantum, arm_for_next_event}
use himu_os.Dispatch.Schedule.{Spaces, schedule, requeue_current, yield}
use himu_os.Dispatch.Timer.{preempt, reschedule}
use himu_os.Dispatch.Timely.{IsTimely, arm_for_next_event-IsTimely}
use himu_os.Dispatch.Taken.{is_empty_sound, IsChosen}
use himu_os.Dispatch.Chosen.{set_state-deadline, IsRooted, Scheduled, schedule-Scheduled}

-- The current thread stands in no ready queue, and has a priority.
abbrev pub IsOff : Scheduler → Type 0
IsOff s =
    ((s.threads s.current).priority < 3)
    × ((q : ℕ) → q < 3 → contains s.current (s.ready_queues q) ≡ false)

-- The same thread goes on only where no ready thread has its priority or a higher one.
abbrev pub IsFair : Dispatch → Dispatch → Type 0
IsFair d d' =
    d'.base.current ≡ d.base.current
    → (q : ℕ) → (d.base.threads d.base.current).priority ≤ q
    → q < 3
    → d.base.ready_queues q ≡ []

tail_alone :
    (xs : List ℕ) (t : ℕ) (rest : List ℕ)
    → xs ++ (t ∷ []) ≡ t ∷ rest
    → contains t xs ≡ false
    → xs ≡ []
tail_alone [] t rest e out = refl
tail_alone (x ∷ xs) t rest e out =
    let same : x ≡ t = ap (λ ys. head_or ys) e in absurd (ground (arith, same, out))
  where
    head_or : List ℕ → ℕ
    head_or [] = 0
    head_or (y ∷ ys) = y

never_empty : (xs : List ℕ) (t : ℕ) → ¬ (xs ++ (t ∷ []) ≡ [])
never_empty [] t e = cc e
never_empty (x ∷ xs) t e = cc e

module _ (s : Scheduler) (off : IsOff s) where
  abbrev requeued : Scheduler
  requeued = make_ready s s.current

  own_queue :
      requeued.ready_queues (s.threads s.current).priority
      ≡ s.ready_queues (s.threads s.current).priority ++ (s.current ∷ [])
  own_queue =
      let self : ((s.threads s.current).priority == (s.threads s.current).priority) ≡ true =
        ground arith in
      rw self refl

  other_queue :
      (q : ℕ) → q ≢ (s.threads s.current).priority → requeued.ready_queues q ≡ s.ready_queues q
  other_queue q ne =
      let apart : (q == (s.threads s.current).priority) ≡ false = ground arith in rw apart refl

  chosen-IsFair :
      (s' : Scheduler) (next : ℕ)
      → IsChosen requeued s' next
      → next ≡ s.current
      → (q : ℕ) → (s.threads s.current).priority ≤ q
      → q < 3
      → s.ready_queues q ≡ []
  chosen-IsFair s' next (inl (idle, all, same)) e q lo hi = absurd (
      never_empty (s.ready_queues (s.threads s.current).priority) s.current
        (sym own_queue ∙ all (s.threads s.current).priority off.0))
  chosen-IsFair s' next (inr (p, rest, small, queue, above, after, others)) e q lo hi =
      elim (Bool-cases (p == (s.threads s.current).priority)) [
        | inr ne ↦
            let apart : p ≢ (s.threads s.current).priority = ground arith in
            let there : s.ready_queues p ≡ s.current ∷ rest =
              sym (other_queue p apart) ∙ queue ∙ ap (λ t. t ∷ rest) e in
            let out : contains s.current (s.current ∷ rest) ≡ false =
              subst (λ xs. contains s.current xs ≡ false) there (off.1 p small) in
            absurd (ground (arith, out))
        | inl own ↦
            let here : p ≡ (s.threads s.current).priority = ground arith in
            elim (Bool-cases (q == (s.threads s.current).priority)) [
              | inl same ↦
                  let at : q ≡ (s.threads s.current).priority = ground arith in
                  subst (λ x. s.ready_queues x ≡ []) (sym at)
                    (tail_alone (s.ready_queues (s.threads s.current).priority) s.current rest
                      (sym own_queue
                        ∙ subst (λ x. requeued.ready_queues x ≡ next ∷ rest) here queue
                        ∙ ap (λ t. t ∷ rest) e)
                      (off.1 (s.threads s.current).priority off.0))
              | inr higher ↦
                  let apart : q ≢ (s.threads s.current).priority = ground arith in
                  sym (other_queue q apart) ∙ above q (ground (arith, here)) hi
            ]
      ]

none_ready :
    (s : Scheduler) (q : ℕ) → has_any_ready_thread s ≡ false → q < 3 → s.ready_queues q ≡ []
none_ready s zero all h = is_empty_sound (s.ready_queues 0) (ground (arith, all))
none_ready s (suc zero) all h = is_empty_sound (s.ready_queues 1) (ground (arith, all))
none_ready s (suc (suc zero)) all h = is_empty_sound (s.ready_queues 2) (ground (arith, all))
none_ready s (suc (suc (suc q))) all h = absurd (omega arith)

-- The current thread is put behind the threads of its priority, one of the counters is raised, and
-- the next thread is chosen at `later`.
abbrev pub GivesWay : Clock → Spaces → Dispatch → ℕ → ℕ → ℕ → Dispatch → Type 0
GivesWay clock spaces d later yields preemptions d' =
    IsFair d d'
    × Scheduled clock spaces
        (record d {
          base = make_ready d.base d.base.current;
          yield_count = yields;
          preemption_count = preemptions;
        })
        later d'

-- What a yield leaves.
abbrev pub Yielded : Clock → Spaces → Dispatch → ℕ → Dispatch → Type 0
Yielded clock spaces d now d' =
    ((has_any_ready_thread d.base ≡ false) × (d' ≡ record d { yield_count = d.yield_count + 1 }))
    ⊎ ((has_any_ready_thread d.base ≡ true)
        × GivesWay clock spaces d now (d.yield_count + 1) d.preemption_count d')

-- What the timer decides.
abbrev pub Rescheduled : Clock → Spaces → Dispatch → ℕ → ℕ → Dispatch → Type 0
Rescheduled clock spaces d now later d' =
    ((d.base.current ≡ d.base.idle)
      × (has_any_ready_thread d.base ≡ true)
      × Scheduled clock spaces d later d')
    ⊎ (((d.base.current ≢ d.base.idle)
          × (d.quantum_deadline ≤ now)
          × GivesWay clock spaces d later d.yield_count (d.preemption_count + 1) d')
        ⊎ ((((d.base.current ≡ d.base.idle) × (has_any_ready_thread d.base ≡ false))
              ⊎ ((d.base.current ≢ d.base.idle) × (now < d.quantum_deadline)))
            × IsTimely clock d now d.base.current d'))

module _ (clock : Clock) (spaces : Spaces) (d : Dispatch) (later : ℕ) (rooted : IsRooted spaces)
    (off : IsOff d.base) (sorted : IsSorted (deadline_of d.base) d.base.timeout_queue)
    (room : later + default_quantum < 2 ^ 64) where
  -- What follows the requeue, whatever was counted on the way.
  requeued-GivesWay :
      (yields preemptions : ℕ)
      → (d' : Dispatch) × (schedule clock spaces dispatch_level
            (record d {
              base = make_ready d.base d.base.current;
              yield_count = yields;
              preemption_count = preemptions;
            })
            later
          ≡ ok d')
        × GivesWay clock spaces d later yields preemptions d'
  requeued-GivesWay yields preemptions =
      let queued = record d {
        base = make_ready d.base d.base.current;
        yield_count = yields;
        preemption_count = preemptions;
      } in
      let in_order : IsSorted (deadline_of queued.base) queued.base.timeout_queue =
        subst (λ f. IsSorted f d.base.timeout_queue)
          (sym (set_state-deadline d.base d.base.current ready)) sorted in
      let (d', run, decided) = schedule-Scheduled clock spaces queued later rooted in_order room in
      (
        d',
        run,
        (
          λ same. chosen-IsFair d.base off d'.base decided.0 decided.1.0 (sym decided.2 ∙ same),
          decided,
        ),
      )

  -- At the passive level, with the current thread of a legal priority in no ready queue, where every
  -- root resolves and installs, the timeouts are in order and the end of a quantum fits in 64 bits, a
  -- yield succeeds: with no thread ready it is only counted, and otherwise it is counted, the current
  -- thread goes behind the threads of its priority and a scheduling decision follows; the same thread
  -- goes on only where no thread of its priority or a higher one was ready.
  pub yield-Yielded :
      (d' : Dispatch) × (yield clock spaces passive_level d later ≡ ok d')
      × IsFair d d'
      × Yielded clock spaces d later d'
  unfolding yield requeue_current
  yield-Yielded = elim (Bool-cases (has_any_ready_thread d.base)) [
    | inr e ↦ (
      record d { yield_count = d.yield_count + 1 },
      rw e refl,
      λ same q lo hi. none_ready d.base q e hi,
      inl (e, refl),
    )
    | inl e ↦
        let (d', run, way) = requeued-GivesWay (d.yield_count + 1) d.preemption_count in
        let small : ltb (d.base.threads d.base.current).priority priority_count ≡ true =
          ground (arith, off.0) in
        (d', rw (e, small) run, way.0, inr (e, way))
  ]

  -- The decision of the timer succeeds: an idle processor with a thread ready schedules, a thread at the
  -- end of its quantum gives way, and otherwise the clock is armed in time for the current thread.
  pub reschedule-Rescheduled :
      (now : ℕ)
      → now + default_quantum < 2 ^ 64
      → (d' : Dispatch) × (reschedule clock spaces dispatch_level d now later ≡ ok d')
        × Rescheduled clock spaces d now later d'
  unfolding reschedule preempt requeue_current
  reschedule-Rescheduled now first = elim (Bool-cases (d.base.current == d.base.idle)) [
    | inl idle ↦ elim (Bool-cases (has_any_ready_thread d.base)) [
      | inl some_thread ↦
          let (d', run, decided) = schedule-Scheduled clock spaces d later rooted sorted room in
          (d', rw (idle, some_thread) run, inl (ground arith, some_thread, decided))
      | inr none_left ↦ (
        arm_for_next_event clock d now d.base.current,
        rw (idle, none_left) refl,
        inr (inr (inl (ground arith, none_left), timely now first)),
      )
    ]
    | inr busy ↦ elim (Bool-cases (leb d.quantum_deadline now)) [
      | inl expired ↦
          let (d', run, way) = requeued-GivesWay d.yield_count (d.preemption_count + 1) in
          let small : ltb (d.base.threads d.base.current).priority priority_count ≡ true =
            ground (arith, off.0) in
          (d', rw (busy, expired, small) run, inr (inl (ground arith, ground arith, way)))
      | inr early ↦ (
        arm_for_next_event clock d now d.base.current,
        rw (busy, early) refl,
        inr (inr (inr (ground arith, ground arith), timely now first)),
      )
    ]
  ]
    where
      timely :
          (now : ℕ)
          → now + default_quantum < 2 ^ 64
          → IsTimely clock d now d.base.current (arm_for_next_event clock d now d.base.current)
      timely now first = arm_for_next_event-IsTimely clock d now d.base.current sorted first
