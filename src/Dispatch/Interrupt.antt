-- ===== src/Dispatch/Interrupt.antt =====
-- The timer interrupt as a whole, KiSchedulerTimerISR: the wake-up of the timeouts and the decision.
use himu_os.Prelude.{
  ℕ, ◌+◌, ◌-◌, ◌^◌, ◌≤◌, ◌<◌, ◌≡◌, ◌⊎◌, inl, inr, refl, sym, subst, ap, ◌∙◌, Bool-cases, true, ◌&&◌,
  not, some, List, [], ◌∷◌, ◌==◌, ltb, ok, length, take, drop, zero, suc, arith,
}
use himu_os.Irql.{dispatch_level}
use himu_os.Wait.State.{Scheduler}
use himu_os.Wait.Complete.{deadline_of, wake_timeouts}
use himu_os.Wait.Timeouts.{IsSorted, AllFrom, AllUpTo, AllBeyond}
use himu_os.Wait.Expire.{AllTimed, Woken, wake_timeouts-Woken}
use himu_os.Dispatch.Clock.{Dispatch, Clock, default_quantum, armed_by}
use himu_os.Dispatch.Schedule.{Spaces}
use himu_os.Dispatch.Timer.{after_timeouts, scheduler_timer_isr}
use himu_os.Dispatch.Chosen.{IsRooted}
use himu_os.Dispatch.Fair.{Rescheduled, reschedule-Rescheduled}
use himu_os.Dispatch.Quiet.{IsQuiet, wake_timeouts-Kept}

AllFrom-drop :
    (deadline : ℕ → ℕ) (limit n : ℕ) (xs : List ℕ)
    → AllFrom deadline limit xs
    → AllFrom deadline limit (drop n xs)
AllFrom-drop deadline limit zero xs all = all
AllFrom-drop deadline limit (suc n) [] all = tt
AllFrom-drop deadline limit (suc n) (x ∷ xs) (here, rest) = AllFrom-drop deadline limit n xs rest

drop-IsSorted :
    (deadline : ℕ → ℕ) (n : ℕ) (xs : List ℕ) → IsSorted deadline xs → IsSorted deadline (drop n xs)
drop-IsSorted deadline zero xs sorted = sorted
drop-IsSorted deadline (suc n) [] sorted = tt
drop-IsSorted deadline (suc n) (x ∷ xs) (from, sorted) = drop-IsSorted deadline n xs sorted

-- What is due is woken, and a decision follows on the queues after that.
abbrev pub Expires : Clock → Spaces → Dispatch → ℕ → ℕ → Dispatch → Type 0
Expires clock spaces d now later d' =
    (s : Scheduler) × (n : ℕ) × Woken n d.base d.base.timeout_queue s
    × AllUpTo (deadline_of d.base) now (take n d.base.timeout_queue)
    × AllBeyond (deadline_of d.base) now (drop n d.base.timeout_queue)
    × (s.current ≡ d.base.current)
    × Rescheduled clock spaces (record d { base = s }) now later d'

abbrev pub Handled : Clock → Spaces → Dispatch → ℕ → ℕ → Dispatch → Type 0
Handled clock spaces d now later d' =
    ((now < d.next_deadline)
      × (d' ≡ record d { armed = armed_by clock d.armed (d.next_deadline - now) }))
    ⊎ (((◌≡◌ {A = ℕ} d.next_deadline 0) ⊎ (d.next_deadline ≤ now))
        × Expires clock spaces d now later d')

module _ (clock : Clock) (spaces : Spaces) (fuel : ℕ) (d : Dispatch) (now later : ℕ)
    (rooted : IsRooted spaces) (quiet : IsQuiet d.base)
    (timed : AllTimed d.base d.base.timeout_queue)
    (sorted : IsSorted (deadline_of d.base) d.base.timeout_queue)
    (enough : length d.base.timeout_queue < fuel) (room : now + default_quantum < 2 ^ 64)
    (more : later + default_quantum < 2 ^ 64) where
  after_timeouts-Expires :
      (d' : Dispatch) × (after_timeouts clock spaces dispatch_level d now later
          (wake_timeouts fuel d.base now)
        ≡ some (ok d'))
      × Expires clock spaces d now later d'
  unfolding after_timeouts
  after_timeouts-Expires =
      let (s, n, run, woken, upto, beyond) =
        wake_timeouts-Woken fuel d.base now enough timed sorted in
      let (calm, current, idle, deadlines) = wake_timeouts-Kept fuel d.base s now quiet run in
      let in_order : IsSorted (deadline_of s) s.timeout_queue =
        subst (λ f. IsSorted f s.timeout_queue) (λ i a. sym (deadlines a) i)
          (subst (IsSorted (deadline_of d.base)) (sym woken.0)
            (drop-IsSorted (deadline_of d.base) n d.base.timeout_queue sorted)) in
      let (d', decided, rescheduled) =
        reschedule-Rescheduled clock spaces (record d { base = s }) later rooted calm.0 in_order
          more now room in
      (
        d',
        ap (after_timeouts clock spaces dispatch_level d now later) run ∙ ap some decided,
        (s, n, woken, upto, beyond, current, rescheduled),
      )

  -- With the scheduler enabled, at the dispatch level, where every root resolves and installs, the
  -- current thread has a legal priority and is on no queue, the timeouts are in order and of threads
  -- that wait with a deadline, each once and with a legal priority, and the end of a quantum fits in
  -- 64 bits after both readings of the clock, the interrupt ends without a panic. Before the deadline
  -- programmed it arms the clock for the remainder and nothing else; from then on it makes exactly the
  -- waits that are due ready, at the ends of the ready queues of their priorities, and then schedules
  -- from idle, preempts the thread at the end of its quantum behind those of its priority, or arms the
  -- clock in time.
  pub scheduler_timer_isr-Handled :
      (d' : Dispatch) × (scheduler_timer_isr clock spaces dispatch_level true fuel d now later
        ≡ some (ok d'))
      × Handled clock spaces d now later d'
  unfolding scheduler_timer_isr
  scheduler_timer_isr-Handled =
      elim (Bool-cases (not (d.next_deadline == 0) && ltb now d.next_deadline)) [
        | inl e ↦ (_, rw e refl, inl (ground (arith, e), refl))
        | inr e ↦
            let (d', run, expires) = after_timeouts-Expires in
            (d', rw e run, inr (ground (arith, e), expires))
      ]
