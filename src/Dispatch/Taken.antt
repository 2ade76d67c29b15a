-- ===== src/Dispatch/Taken.antt =====
-- KiSchedule takes the head of the highest ready queue that has one, or the idle thread.
use himu_os.Prelude.{
  ℕ, zero, suc, ◌<◌, ◌≡◌, ◌≢◌, ◌⊎◌, inl, inr, refl, true, false, Option, none, some, List, [], ◌∷◌,
  ◌==◌, if◌then◌else◌, Bool-cases, ok, arith,
}
use himu_os.Wait.State.{Scheduler, is_empty, highest_ready_priority}
use himu_os.Dispatch.Schedule.{take_head, take_next}

-- The queues before and after, and the thread taken.
abbrev pub IsChosen : Scheduler → Scheduler → ℕ → Type 0
IsChosen s s' next =
    ((next ≡ s.idle)
      × ((p : ℕ) → p < 3 → s.ready_queues p ≡ [])
      × (s'.ready_queues ≡ s.ready_queues))
    ⊎ ((p : ℕ) × (rest : List ℕ) × (p < 3)
        × (s.ready_queues p ≡ next ∷ rest)
        × ((q : ℕ) → p < q → q < 3 → s.ready_queues q ≡ [])
        × (s'.ready_queues p ≡ rest)
        × ((q : ℕ) → q ≢ p → s'.ready_queues q ≡ s.ready_queues q))

-- What the search for the highest queue finds.
abbrev HighestReady : Scheduler → Option ℕ → Type 0
HighestReady s none = (p : ℕ) → p < 3 → s.ready_queues p ≡ []
HighestReady s (some p) =
    (p < 3)
    × (is_empty (s.ready_queues p) ≡ false)
    × ((q : ℕ) → p < q → q < 3 → s.ready_queues q ≡ [])

pub is_empty_sound : (xs : List ℕ) → is_empty xs ≡ true → xs ≡ []
is_empty_sound [] e = refl
is_empty_sound (x ∷ xs) e = absurd (cc e)

highest_ready_priority-HighestReady : (s : Scheduler) → HighestReady s (highest_ready_priority s)
unfolding highest_ready_priority
highest_ready_priority-HighestReady s = elim (Bool-cases (is_empty (s.ready_queues 2))) [
  | inr two ↦ rw two (omega arith, two, λ q lo hi. absurd (omega arith))
  | inl two ↦ elim (Bool-cases (is_empty (s.ready_queues 1))) [
    | inr one ↦ rw (two, one) (omega arith, one, above_one two)
    | inl one ↦ elim (Bool-cases (is_empty (s.ready_queues 0))) [
      | inr low ↦ rw (two, one, low) (omega arith, low, above_zero one two)
      | inl low ↦ rw (two, one, low) (every low one two)
    ]
  ]
]
  where
    above_one : is_empty (s.ready_queues 2) ≡ true → (q : ℕ) → 1 < q → q < 3 → s.ready_queues q ≡ []
    above_one two q lo hi =
        let here : q ≡ 2 = omega arith in rw here (is_empty_sound (s.ready_queues 2) two)

    every :
        is_empty (s.ready_queues 0) ≡ true
        → is_empty (s.ready_queues 1) ≡ true
        → is_empty (s.ready_queues 2) ≡ true
        → (q : ℕ) → q < 3
        → s.ready_queues q ≡ []
    every low one two zero h = is_empty_sound (s.ready_queues 0) low
    every low one two (suc zero) h = is_empty_sound (s.ready_queues 1) one
    every low one two (suc (suc zero)) h = is_empty_sound (s.ready_queues 2) two
    every low one two (suc (suc (suc q))) h = absurd (omega arith)

    above_zero :
        is_empty (s.ready_queues 1) ≡ true
        → is_empty (s.ready_queues 2) ≡ true
        → (q : ℕ) → 0 < q
        → q < 3
        → s.ready_queues q ≡ []
    above_zero one two zero lo hi = absurd (omega arith)
    above_zero one two (suc zero) lo hi = is_empty_sound (s.ready_queues 1) one
    above_zero one two (suc (suc zero)) lo hi = is_empty_sound (s.ready_queues 2) two
    above_zero one two (suc (suc (suc q))) lo hi = absurd (omega arith)

-- Taking the next thread never fails, and changes only the queue it heads.
abbrev pub Taken : Scheduler → Scheduler × ℕ → Type 0
Taken s (s', next) =
    IsChosen s s' next
    × (s'.threads ≡ s.threads)
    × (s'.timeout_queue ≡ s.timeout_queue)
    × (s'.current ≡ s.current)
    × (s'.idle ≡ s.idle)
    × (s'.dispatchers ≡ s.dispatchers)
    × (s'.sleep_wake_count ≡ s.sleep_wake_count)

take_head-Taken :
    (s : Scheduler) (p : ℕ) (xs : List ℕ)
    → s.ready_queues p ≡ xs
    → p < 3
    → is_empty xs ≡ false
    → ((q : ℕ) → p < q → q < 3 → s.ready_queues q ≡ [])
    → (r : Scheduler × ℕ) × (take_head s p xs ≡ ok r) × Taken s r
unfolding take_head
take_head-Taken s p [] e h some_thread above = absurd (cc some_thread)
take_head-Taken s p (t ∷ ts) e h some_thread above =
    let self : (p == p) ≡ true = ground arith in
    (
      (record s { ready_queues = λ q. if q == p then ts else s.ready_queues q }, t),
      refl,
      (
        inr (
          p,
          ts,
          h,
          e,
          above,
          rw self refl,
          λ q ne. let apart : (q == p) ≡ false = ground arith in rw apart refl,
        ),
        refl,
        refl,
        refl,
        refl,
        refl,
        refl,
      ),
    )

pub take_next-Taken :
    (s : Scheduler)
    → (r : Scheduler × ℕ) × (take_next s (highest_ready_priority s) ≡ ok r) × Taken s r
unfolding take_next
take_next-Taken s = by (highest_ready_priority s) (highest_ready_priority-HighestReady s)
  where
    by :
        (o : Option ℕ) → HighestReady s o → (r : Scheduler × ℕ) × (take_next s o ≡ ok r) × Taken s r
    by none all = ((s, s.idle), refl, (inl (refl, all, refl), refl, refl, refl, refl, refl, refl))
    by (some p) (h, some_thread, above) =
        take_head-Taken s p (s.ready_queues p) refl h some_thread above
