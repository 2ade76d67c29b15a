-- ===== src/Wait/Block.antt =====
-- A thread that blocks joins the queues, which stay well-formed.
use himu_os.Prelude.{
  ℕ, ◌+◌, ◌%◌, ◌≡◌, refl, sym, ap, ◌∙◌, subst, inl, inr, true, false, some, List, [], ◌∷◌, ltb,
  ◌==◌, if◌then◌else◌, Bool-cases, u64_mod, arith,
}
use himu_os.Wait.State.{
  Scheduler, put_thread, WaitBlock, blocked, priority_count, contains, insert_tail,
  initial_wait_block, wait_infinite,
}
use himu_os.Wait.Complete.{insert_timeout_queue, insert_by_deadline, deadline_of}
use himu_os.Wait.Single.{block_on, put_wait_block}
use himu_os.Wait.Wake.{AllWaiting, AllWaiting-same, put_list}

-- The wait block of a thread that waits for `d` at `now`.
abbrev pub blocked_on : ℕ → ℕ → ℕ → WaitBlock
blocked_on d timeout now = record initial_wait_block {
  dispatcher = some d;
  deadline = if timeout == wait_infinite then 0 else (now + timeout) % u64_mod;
}

abbrev pub Blocked : Scheduler → ℕ → ℕ → ℕ → Scheduler → Type 0
Blocked s d timeout now s' =
    (s'.dispatchers d
      ≡ put_list (s.dispatchers d) (insert_tail (s.dispatchers d).wait_list s.current))
    × (s'.threads s.current
        ≡ record (s.threads s.current) { state = blocked; wait_block = blocked_on d timeout now })
    × ((e : ℕ) → (e == d) ≡ false → s'.dispatchers e ≡ s.dispatchers e)
    × (s'.ready_queues ≡ s.ready_queues)
    × (s'.current ≡ s.current)
    × (s'.timeout_queue ≡ (
        if timeout == wait_infinite
        then s.timeout_queue
        else insert_by_deadline (deadline_of s') s.current s.timeout_queue))
    × ((a : ℕ) → (a == s.current) ≡ false → s'.threads a ≡ s.threads a)

pub block_on-Blocked :
    (s : Scheduler) (d timeout now : ℕ) → Blocked s d timeout now (block_on s d timeout now)
unfolding block_on insert_timeout_queue
block_on-Blocked s d timeout now =
    let self_d : (d == d) ≡ true = ground arith in
    let self_t : (s.current == s.current) ≡ true = ground arith in
    elim (Bool-cases (timeout == wait_infinite)) [
      | inl forever ↦ (
        rw (forever, self_d) refl,
        rw (forever, self_t) refl,
        λ e other. rw (forever, other) refl,
        rw forever refl,
        rw forever refl,
        rw (forever) refl,
        λ a other. rw (forever, other) refl,
      )
      | inr finite ↦ (
        rw (finite, self_d) refl,
        rw (finite, self_t) refl,
        λ e other. rw (finite, other) refl,
        rw finite refl,
        rw finite refl,
        rw (finite)
            (ap (λ f. insert_by_deadline f s.current s.timeout_queue) (λ i a. same_deadline a i)),
        λ a other. rw (finite, other) refl,
      )
    ]
  where
    block : WaitBlock
    block = record initial_wait_block { dispatcher = some d; deadline = (now + timeout) % u64_mod }

    before : Scheduler
    before = put_wait_block s s.current block

    after : Scheduler
    after = put_thread before s.current (record (before.threads s.current) { state = blocked })

    same_deadline :
        (a : ℕ) → (before.threads a).wait_block.deadline ≡ (after.threads a).wait_block.deadline
    same_deadline a = elim (Bool-cases (a == s.current)) [
      | inl e ↦ let self : (s.current == s.current) ≡ true = ground arith in rw (e, self) refl
      | inr e ↦ rw e refl
    ]

AllWaiting-insert_tail :
    (s : Scheduler) (d t : ℕ) (ts : List ℕ)
    → AllWaiting s d ts
    → contains t ts ≡ false
    → AllWaiting s d (t ∷ [])
    → AllWaiting s d (insert_tail ts t)
AllWaiting-insert_tail s d t [] all absent last = last
AllWaiting-insert_tail s d t (x ∷ xs) (pending, at, legal, once, rest) absent last = (
  pending,
  at,
  legal,
  contains-insert_tail x t xs once (ground arith),
  AllWaiting-insert_tail s d t xs rest (ground arith) last,
)
  where
    contains-insert_tail :
        (a b : ℕ) (xs : List ℕ)
        → contains a xs ≡ false
        → (b == a) ≡ false
        → contains a (insert_tail xs b) ≡ false
    contains-insert_tail a b [] absent_a other = rw (other) refl
    contains-insert_tail a b (c ∷ cs) absent_a other = ground (arith, contains-insert_tail a b cs)

-- A thread that blocks on an object is its last waiter, and the list is one of waiting threads again.
block_on-AllWaiting :
    (s : Scheduler) (d timeout now : ℕ)
    → AllWaiting s d (s.dispatchers d).wait_list
    → contains s.current (s.dispatchers d).wait_list ≡ false
    → ltb (s.threads s.current).priority priority_count ≡ true
    → AllWaiting (block_on s d timeout now) d ((block_on s d timeout now).dispatchers d).wait_list
      × (((block_on s d timeout now).dispatchers d).wait_list
          ≡ insert_tail (s.dispatchers d).wait_list s.current)
      × (((block_on s d timeout now).threads s.current).state ≡ blocked)
block_on-AllWaiting s d timeout now all absent legal =
    let s' = block_on s d timeout now in
    let (object, thread, objects, ready_now, still, timeouts, others) =
      block_on-Blocked s d timeout now in
    let block = ap (λ x. x.wait_block) thread in
    let priority = ap (λ x. x.priority) thread in
    let list = ap (λ x. x.wait_list) object in
    let last : AllWaiting s' d (s.current ∷ []) = (
      ap (λ b. b.completed) block,
      ap (λ b. b.dispatcher) block,
      ap (λ n. ltb n 3) priority ∙ legal,
      refl,
      tt,
    ) in
    (
      subst (AllWaiting s' d) (sym list) (
          AllWaiting-insert_tail s' d s.current (s.dispatchers d).wait_list
            (AllWaiting-same s s' d s.current (s.dispatchers d).wait_list others absent all) absent
            last),
      list,
      ap (λ x. x.state) thread,
    )
