-- ===== src/Dispatch/Quiet.antt =====
-- The loop over the timeouts leaves the current thread alone, and every deadline as it was.
use himu_os.Prelude.{
  ok-injective, ℕ, zero, suc, ◌<◌, ◌≡◌, inl, inr, refl, sym, subst, ap, ◌∙◌, true, false, Option,
  none, some, List, [], ◌∷◌, ◌==◌, ltb, if◌then◌else◌, Bool-cases, Result, ok, err, Status,
  ec_timeout, arith,
}
use mathlib.Core.Option.{some-injective}
use himu_os.Wait.State.{Kthread, ready, Scheduler, contains, insert_tail, remove, priority_count}
use himu_os.Wait.Complete.{
  make_ready, mark_completed, leave_wait_list, leave_timeout_queue, finish_wait, complete_wait,
  deadline_of, wake_round, wake_timeouts,
}
use himu_os.Dispatch.Fair.{IsOff}

-- The current thread is off the queues, and sleeps on no timeout.
abbrev pub IsQuiet : Scheduler → Type 0
IsQuiet s = IsOff s × (contains s.current s.timeout_queue ≡ false)

abbrev pub Kept : Scheduler → Scheduler → Type 0
Kept s s' =
    IsQuiet s'
    × (s'.current ≡ s.current)
    × (s'.idle ≡ s.idle)
    × ((a : ℕ) → deadline_of s' a ≡ deadline_of s a)

contains-insert_tail :
    (a t : ℕ) (xs : List ℕ)
    → (t == a) ≡ false
    → contains a xs ≡ false
    → contains a (insert_tail xs t) ≡ false
contains-insert_tail a t [] other out = ground (arith, other)
contains-insert_tail a t (x ∷ xs) other out =
    ground (arith, out, contains-insert_tail a t xs other (ground (arith, out)))

contains-remove : (a t : ℕ) (xs : List ℕ) → contains a xs ≡ false → contains a (remove t xs) ≡ false
contains-remove a t [] out = refl
contains-remove a t (x ∷ xs) out =
    let rest = contains-remove a t xs (ground (arith, out)) in
    elim (Bool-cases (x == t)) [
      | inl e ↦ rw e (ground (arith, out))
      | inr e ↦ rw e (ground (arith, out, rest))
    ]

put_thread-deadline :
    (threads : ℕ → Kthread) (a t : ℕ) (x : Kthread)
    → x.wait_block.deadline ≡ (threads t).wait_block.deadline
    → (if a == t then x else threads a).wait_block.deadline ≡ (threads a).wait_block.deadline
put_thread-deadline threads a t x e = elim (Bool-cases (a == t)) [
  | inl same ↦
      let here : t ≡ a = ground arith in
      rw same (e ∙ ap (λ b. (threads b).wait_block.deadline) here)
  | inr other ↦ rw other refl
]

-- Whatever left the queues becomes ready.
module _ (s left : Scheduler) (t deadline : ℕ) (status : Status) (quiet : IsQuiet s)
    (other : (t == s.current) ≡ false)
    (threads : left.threads ≡ (mark_completed s t status).threads)
    (queues : left.ready_queues ≡ s.ready_queues)
    (timeouts : left.timeout_queue
      ≡ (if deadline == 0 then s.timeout_queue else remove t s.timeout_queue))
    (current : left.current ≡ s.current) (idle : left.idle ≡ s.idle) where
  make_ready-Kept : Kept s (make_ready left t)
  make_ready-Kept = (((priority, off), out), current, idle, deadlines)
    where
      apart : (left.current == t) ≡ false
      apart = rw current (ground (arith, other))

      unchanged : left.threads left.current ≡ s.threads s.current
      unchanged = ap (λ f. f left.current) threads ∙ (rw apart refl) ∙ ap s.threads current

      deadlines : (a : ℕ) → deadline_of (make_ready left t) a ≡ deadline_of s a
      deadlines a =
          put_thread-deadline left.threads a t (record (left.threads t) { state = ready }) refl
          ∙ ap (λ f. (f a).wait_block.deadline) threads
          ∙ put_thread-deadline s.threads a t
              (record (s.threads t) {
                wait_block = record ((s.threads t).wait_block) {
                  completed = true;
                  completion_status = status;
                };
              })
              refl

      priority : ((make_ready left t).threads (make_ready left t).current).priority < 3
      priority = rw apart (subst (λ x. x.priority < 3) (sym unchanged) quiet.0.0)

      off :
          (q : ℕ)
          → q < 3
          → contains (make_ready left t).current ((make_ready left t).ready_queues q) ≡ false
      off q h = elim (Bool-cases (q == (left.threads t).priority)) [
        | inl e ↦
            rw (e, queues, current)
              (contains-insert_tail s.current t (s.ready_queues q) other (quiet.0.1 q h))
        | inr e ↦ rw (e, queues, current) (quiet.0.1 q h)
      ]

      out : contains left.current left.timeout_queue ≡ false
      out =
          rw (current, timeouts)
            (elim (Bool-cases (deadline == 0)) [
              | inl e ↦ rw e quiet.1
              | inr e ↦ rw e (contains-remove s.current t s.timeout_queue quiet.1)
            ])

finish_wait-Kept :
    (s : Scheduler) (t : ℕ) (dispatcher : Option ℕ) (deadline : ℕ) (status : Status)
    → IsQuiet s
    → (t == s.current) ≡ false
    → Kept s (finish_wait s t dispatcher deadline status)
unfolding finish_wait
finish_wait-Kept s t none deadline status quiet other =
    make_ready-Kept s (leave_timeout_queue (mark_completed s t status) t deadline) t deadline status
      quiet other refl refl refl refl refl
finish_wait-Kept s t (some d) deadline status quiet other =
    make_ready-Kept s
      (leave_timeout_queue (leave_wait_list (mark_completed s t status) t (some d)) t deadline) t
      deadline status quiet other refl refl refl refl refl

Kept-trans : (s s1 s2 : Scheduler) → Kept s s1 → Kept s1 s2 → Kept s s2
Kept-trans s s1 s2 (quiet1, current1, idle1, deadlines1) (quiet2, current2, idle2, deadlines2) =
    (quiet2, current2 ∙ current1, idle2 ∙ idle1, λ a. deadlines2 a ∙ deadlines1 a)

complete_wait-Kept :
    (s s1 : Scheduler) (t : ℕ) (status : Status)
    → IsQuiet s
    → (t == s.current) ≡ false
    → complete_wait s t status ≡ ok s1
    → Kept s s1
unfolding complete_wait
complete_wait-Kept s s1 t status quiet other =
    elim (Bool-cases (s.threads t).wait_block.completed) [
      | inl e ↦ rw e (λ run. subst (Kept s) (ok-injective run) (quiet, refl, refl, λ a. refl))
      | inr e ↦ rw e (elim (Bool-cases (ltb (s.threads t).priority priority_count)) [
        | inr low ↦ rw low (λ run. absurd (cc run))
        | inl legal ↦ rw legal (λ run. subst (Kept s) (ok-injective run) (
            finish_wait-Kept s t (s.threads t).wait_block.dispatcher
              (s.threads t).wait_block.deadline status quiet other))
      ])
    ]

module _ (again : Scheduler → Option (Result Scheduler)) (s s' : Scheduler) (now : ℕ)
    (quiet : IsQuiet s)
    (rest : (s1 : Scheduler) → IsQuiet s1 → again s1 ≡ some (ok s') → Kept s1 s') where
  after-Kept :
      (t : ℕ) (r : Result Scheduler)
      → (t == s.current) ≡ false
      → complete_wait s t ec_timeout ≡ r
      → (elim r [ err e ↦ some (err e) | ok s1 ↦ again s1 ]) ≡ some (ok s')
      → Kept s s'
  after-Kept t (err e) other run more = absurd (cc more)
  after-Kept t (ok s1) other run more =
      let step = complete_wait-Kept s s1 t ec_timeout quiet other run in
      Kept-trans s s1 s' step (rest s1 step.0 more)

  wake_round-Kept :
      (ts : List ℕ)
      → contains s.current ts ≡ false
      → wake_round again s now ts ≡ some (ok s')
      → Kept s s'
  wake_round-Kept [] out =
      λ run. subst (Kept s) (ok-injective (some-injective _ _ run)) (quiet, refl, refl, λ a. refl)
  wake_round-Kept (t ∷ ts) out = elim (Bool-cases (ltb now (deadline_of s t))) [
    | inl later ↦ rw later (λ run.
        subst (Kept s) (ok-injective (some-injective _ _ run)) (quiet, refl, refl, λ a. refl))
    | inr due ↦
        rw due (λ run. after-Kept t (complete_wait s t ec_timeout) (ground (arith, out)) refl run)
  ]

-- The loop over the timeouts, of any length.
pub wake_timeouts-Kept :
    (fuel : ℕ) (s s' : Scheduler) (now : ℕ)
    → IsQuiet s
    → wake_timeouts fuel s now ≡ some (ok s')
    → Kept s s'
unfolding wake_timeouts
wake_timeouts-Kept zero s s' now quiet run = absurd (cc run)
wake_timeouts-Kept (suc fuel) s s' now quiet run =
    wake_round-Kept (λ s1. wake_timeouts fuel s1 now) s s' now quiet
      (λ s1 calm more. wake_timeouts-Kept fuel s1 s' now calm more) s.timeout_queue quiet.1 run
