-- ===== src/Dispatch/Timely.antt =====
-- The next event is never later than the first timeout or the end of the quantum.
use himu_os.Prelude.{
  ℕ, ◌+◌, ◌-◌, ◌^◌, ◌≤◌, ◌<◌, ◌≡◌, ◌≢◌, ◌⊎◌, inl, inr, refl, sym, subst, ◌&&◌, true, false, Option,
  none, some, List, [], ◌∷◌, ◌==◌, ltb, if◌then◌else◌, Bool-cases, add64, arith,
}
use himu_os.Wait.Complete.{deadline_of, arm_clock_event}
use himu_os.Wait.Timeouts.{IsSorted, AllFrom, AllFrom-lower}
use himu_os.Dispatch.Clock.{
  Dispatch, Clock, default_quantum, armed_by, delta_until, arm_idle, earliest, arm_running,
  arm_for_next_event,
}

-- The clock is armed, for a time that is not beyond the deadline but for the least the device or the
-- code can do.
abbrev pub IsArmed : Clock → ℕ → ℕ → Option ℕ → Type 0
IsArmed clock deadline now none = ⊥
IsArmed clock deadline now (some delta) =
    (0 < delta) × ((delta ≤ deadline - now) ⊎ ((delta ≤ clock.min_delta) ⊎ (delta ≤ 1)))

clamped : ℕ → ℕ → ℕ → ℕ
clamped least most delta =
    let raised = if ltb 0 least && ltb delta least then least else delta in
    if ltb 0 most && ltb most raised then most else raised

clamped_lem :
    (least most delta : ℕ)
    → 0 < delta
    → (0 < clamped least most delta)
      × ((clamped least most delta ≤ delta) ⊎ (clamped least most delta ≤ least))
unfolding clamped
clamped_lem least most delta pos = ground arith

arm_clock_event-clamped :
    (least most delta : ℕ)
    → 0 < delta
    → arm_clock_event least most delta ≡ some (clamped least most delta)
unfolding clamped arm_clock_event
arm_clock_event-clamped least most delta pos =
    let some_delta : (delta == 0) ≡ false = ground arith in rw some_delta refl

armed_by-IsArmed :
    (clock : Clock) (before : Option ℕ) (deadline now : ℕ)
    → IsArmed clock deadline now (armed_by clock before (delta_until deadline now))
unfolding armed_by
armed_by-IsArmed clock before deadline now =
    let delta = delta_until deadline now in
    let pos : 0 < delta = ground arith in
    let until : (delta ≤ deadline - now) ⊎ (delta ≤ 1) = ground arith in
    rw (IsArmed, arm_clock_event-clamped clock.min_delta clock.max_delta delta pos)
      (within clock (clamped clock.min_delta clock.max_delta delta) delta deadline now until
        (clamped_lem clock.min_delta clock.max_delta delta pos))
  where
    within :
        (clock : Clock) (x delta deadline now : ℕ)
        → (delta ≤ deadline - now) ⊎ (delta ≤ 1)
        → (0 < x) × ((x ≤ delta) ⊎ (x ≤ clock.min_delta))
        → IsArmed clock deadline now (some x)
    within clock x delta deadline now until (pos, inr low) = (pos, inr (inl low))
    within clock x delta deadline now (inl before) (pos, inl less) = (pos, inl (omega arith))
    within clock x delta deadline now (inr one) (pos, inl less) = (pos, inr (inr (omega arith)))

earliest-AllFrom :
    (deadline : ℕ → ℕ) (limit : ℕ) (xs : List ℕ)
    → IsSorted deadline xs
    → AllFrom deadline (earliest deadline limit xs) xs × (earliest deadline limit xs ≤ limit)
unfolding earliest
earliest-AllFrom deadline limit [] sorted = (tt, omega arith)
earliest-AllFrom deadline limit (t ∷ ts) (from, sorted) =
    let head : earliest deadline limit (t ∷ ts) ≤ deadline t = ground arith in
    let most : earliest deadline limit (t ∷ ts) ≤ limit = ground arith in
    (
      (head, AllFrom-lower deadline (earliest deadline limit (t ∷ ts)) (deadline t) ts head from),
      most,
    )

-- What arming for a thread promises: the queues are not touched, no timeout is before the deadline
-- programmed, and the clock is armed for it; a thread other than the idle one gets a new quantum,
-- which ends no earlier than that deadline.
abbrev pub IsTimely : Clock → Dispatch → ℕ → ℕ → Dispatch → Type 0
IsTimely clock d now next d' =
    (d'.base ≡ d.base)
    × AllFrom (deadline_of d.base) d'.next_deadline d.base.timeout_queue
    × (((next ≡ d.base.idle)
          × (d.base.timeout_queue ≡ [])
          × (◌≡◌ {A = ℕ} d'.next_deadline 0)
          × (d'.armed ≡ d.armed))
        ⊎ IsArmed clock d'.next_deadline now d'.armed)
    × ((next ≢ d.base.idle)
        → (d'.quantum_deadline ≡ now + default_quantum)
          × (d'.next_deadline ≤ now + default_quantum)
          × (d'.quantum next ≡ default_quantum))

arm_idle-IsTimely :
    (clock : Clock) (d : Dispatch) (now next : ℕ) (xs : List ℕ)
    → next ≡ d.base.idle
    → d.base.timeout_queue ≡ xs
    → IsSorted (deadline_of d.base) xs
    → IsTimely clock d now next (arm_idle clock d now xs)
unfolding arm_idle
arm_idle-IsTimely clock d now next [] idle e sorted = (
  refl,
  subst (AllFrom (deadline_of d.base) 0) (sym e) tt,
  inl (idle, e, refl, refl),
  λ ne. absurd (ne idle),
)
arm_idle-IsTimely clock d now next (t ∷ ts) idle e (from, sorted) = (
  refl,
  subst (AllFrom (deadline_of d.base) (deadline_of d.base t)) (sym e) (omega arith, from),
  inr (armed_by-IsArmed clock d.armed (deadline_of d.base t) now),
  λ ne. absurd (ne idle),
)

pub arm_for_next_event-IsTimely :
    (clock : Clock) (d : Dispatch) (now next : ℕ)
    → IsSorted (deadline_of d.base) d.base.timeout_queue
    → now + default_quantum < 2 ^ 64
    → IsTimely clock d now next (arm_for_next_event clock d now next)
unfolding arm_for_next_event arm_running
arm_for_next_event-IsTimely clock d now next sorted room = elim (Bool-cases (next == d.base.idle)) [
  | inl e ↦
      rw e (arm_idle-IsTimely clock d now next d.base.timeout_queue (ground arith) refl sorted)
  | inr e ↦
      let first =
        earliest-AllFrom (deadline_of d.base) (add64 now default_quantum) d.base.timeout_queue
          sorted in
      let self : (next == next) ≡ true = ground arith in
      let end : add64 now default_quantum ≡ now + default_quantum = omega arith in
      rw e (
        refl,
        first.0,
        inr (
            armed_by-IsArmed clock d.armed
              (earliest (deadline_of d.base) (add64 now default_quantum) d.base.timeout_queue) now),
        λ ne. (end, omega (arith, first.1, end), rw self refl),
      )
]
