-- ===== src/Wait/Hang.antt =====
-- A deadline that wraps to zero.
use himu_os.Prelude.{
  ℕ, zero, suc, ◌+◌, ◌%◌, ◌≡◌, ◌≢◌, refl, ap, ◌∙◌, inl, inr, true, false, Option, none, some, List,
  [], ◌∷◌, ltb, ◌==◌, ec_timeout, Result, ok, Bool-cases, u64_mod, arith,
}
use himu_os.Wait.State.{Scheduler, priority_count, wait_infinite}
use himu_os.Wait.Complete.{
  finish_wait, complete_wait, deadline_of, wake_round, wake_timeouts, insert_timeout_queue,
  insert_by_deadline,
}
use himu_os.Wait.Single.{block_on}
use himu_os.Wait.Wake.{complete_wait-pending}

-- The queue starts with a thread whose deadline reads as no timeout.
abbrev Stuck : Scheduler → ℕ → List ℕ → Type 0
Stuck s t ts =
    (s.timeout_queue ≡ t ∷ ts)
    × (deadline_of s t ≡ 0)
    × (ltb (s.threads t).priority priority_count ≡ true)

finish_wait-Stuck :
    (s : Scheduler) (t : ℕ) (ts : List ℕ) (dispatcher : Option ℕ) (deadline : ℕ)
    → s.timeout_queue ≡ t ∷ ts
    → deadline_of s t ≡ 0
    → ltb (s.threads t).priority priority_count ≡ true
    → deadline ≡ 0
    → Stuck (finish_wait s t dispatcher deadline ec_timeout) t ts
unfolding finish_wait
finish_wait-Stuck s t ts none deadline queue untimed legal zero_deadline =
    let self_t : (t == t) ≡ true = ground arith in
    let test : (deadline == 0) ≡ true = ground arith in
    (rw (test, queue) refl, rw (self_t, deadline_of) untimed, rw (self_t) legal)
finish_wait-Stuck s t ts (some d) deadline queue untimed legal zero_deadline =
    let self_t : (t == t) ≡ true = ground arith in
    let test : (deadline == 0) ≡ true = ground arith in
    (rw (test, queue) refl, rw (self_t, deadline_of) untimed, rw (self_t) legal)

-- The completion leaves it there.
complete_wait-Stuck :
    (s : Scheduler) (t : ℕ) (ts : List ℕ)
    → Stuck s t ts
    → (s' : Scheduler) × (complete_wait s t ec_timeout ≡ ok s') × Stuck s' t ts
unfolding complete_wait finish_wait
complete_wait-Stuck s t ts (queue, untimed, legal) =
    elim (Bool-cases (s.threads t).wait_block.completed) [
      | inl over ↦ (s, rw (over, complete_wait) refl, (queue, untimed, legal))
      | inr pending ↦ (
        finish_wait s t (s.threads t).wait_block.dispatcher (s.threads t).wait_block.deadline
            ec_timeout,
        complete_wait-pending s t ec_timeout pending legal,
        finish_wait-Stuck s t ts (s.threads t).wait_block.dispatcher
            (s.threads t).wait_block.deadline queue untimed legal untimed,
      )
    ]

wake_timeouts-Stuck :
    (fuel : ℕ) (s : Scheduler) (t : ℕ) (ts : List ℕ) (now : ℕ)
    → Stuck s t ts
    → wake_timeouts fuel s now ≡ none
unfolding wake_timeouts
wake_timeouts-Stuck zero s t ts now stuck = refl
wake_timeouts-Stuck (suc fuel) s t ts now (queue, untimed, legal) =
    let (s', run, stuck) = complete_wait-Stuck s t ts (queue, untimed, legal) in
    let due : ltb now (deadline_of s t) ≡ false = ground arith in
    let again = λ (x : Scheduler). wake_timeouts fuel x now in
    ap (wake_round again s now) queue
    ∙ round again s s' now t ts due run
    ∙ wake_timeouts-Stuck fuel s' t ts now stuck
  where
    round :
        (again : Scheduler → Option (Result Scheduler)) (x x' : Scheduler) (at u : ℕ) (us : List ℕ)
        → ltb at (deadline_of x u) ≡ false
        → complete_wait x u ec_timeout ≡ ok x'
        → wake_round again x at (u ∷ us) ≡ again x'
    round again x x' at u us due run = rw (due, run) refl

-- A wait whose timeout takes the deadline around to 0 is queued, and no later timer interrupt
-- gets out of its loop over the queue.
pub block_on-hangs :
    (fuel : ℕ) (s : Scheduler) (d timeout now later : ℕ)
    → s.timeout_queue ≡ []
    → ltb (s.threads s.current).priority priority_count ≡ true
    → timeout ≢ wait_infinite
    → (now + timeout) % u64_mod ≡ 0
    → wake_timeouts fuel (block_on s d timeout now) later ≡ none
unfolding block_on insert_timeout_queue insert_by_deadline
block_on-hangs fuel s d timeout now later queue legal finite wraps =
    let test : (timeout == wait_infinite) ≡ false = ground arith in
    let self_t : (s.current == s.current) ≡ true = ground arith in
    wake_timeouts-Stuck fuel (block_on s d timeout now) s.current [] later
      (rw (test, queue) refl, rw (test, self_t, deadline_of) wraps, rw (test, self_t) legal)
