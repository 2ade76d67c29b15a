-- ===== src/Wait/Deadline.antt =====
-- A thread that blocks with a timeout keeps the timeout queue well-formed.
use himu_os.Prelude.{
  ℕ, ◌+◌, ◌%◌, ◌≡◌, ◌≢◌, refl, sym, ap, ◌∙◌, subst, inl, inr, true, false, List, [], ◌∷◌, ltb, ◌==◌,
  Bool-cases, u64_mod, arith,
}
use himu_os.Wait.State.{Scheduler, priority_count, contains, wait_infinite}
use himu_os.Wait.Complete.{deadline_of, insert_by_deadline}
use himu_os.Wait.Single.{block_on}
use himu_os.Wait.Timeouts.{IsSorted, AllFrom, insert_by_deadline-IsSorted}
use himu_os.Wait.Expire.{AllTimed, AllTimed-same}
use himu_os.Wait.Block.{block_on-Blocked}

AllFrom-same :
    (f g : ℕ → ℕ) (limit t : ℕ) (xs : List ℕ)
    → ((a : ℕ) → (a == t) ≡ false → g a ≡ f a)
    → contains t xs ≡ false
    → AllFrom f limit xs
    → AllFrom g limit xs
AllFrom-same f g limit t [] same absent all = tt
AllFrom-same f g limit t (x ∷ xs) same absent (here, rest) =
    (rw (same x (ground arith)) here, AllFrom-same f g limit t xs same (ground arith) rest)

IsSorted-same :
    (f g : ℕ → ℕ) (t : ℕ) (xs : List ℕ)
    → ((a : ℕ) → (a == t) ≡ false → g a ≡ f a)
    → contains t xs ≡ false
    → IsSorted f xs
    → IsSorted g xs
IsSorted-same f g t [] same absent sorted = tt
IsSorted-same f g t (x ∷ xs) same absent (from, sorted) =
    let here : g x ≡ f x = same x (ground arith) in
    (
      rw (here) (AllFrom-same f g (f x) t xs same (ground arith) from),
      IsSorted-same f g t xs same (ground arith) sorted,
    )

insert_by_deadline-same :
    (f g : ℕ → ℕ) (t : ℕ) (xs : List ℕ)
    → ((a : ℕ) → f a ≡ g a)
    → insert_by_deadline f t xs ≡ insert_by_deadline g t xs
unfolding insert_by_deadline
insert_by_deadline-same f g t [] same = refl
insert_by_deadline-same f g t (x ∷ xs) same =
    rw (same t, same x, insert_by_deadline-same f g t xs same) refl

contains-insert_by_deadline :
    (f : ℕ → ℕ) (a t : ℕ) (xs : List ℕ)
    → contains a xs ≡ false
    → (t == a) ≡ false
    → contains a (insert_by_deadline f t xs) ≡ false
unfolding insert_by_deadline
contains-insert_by_deadline f a t [] absent other = rw (other) refl
contains-insert_by_deadline f a t (x ∷ xs) absent other =
    ground (arith, contains-insert_by_deadline f a t xs)

AllTimed-insert_by_deadline :
    (s : Scheduler) (f : ℕ → ℕ) (t : ℕ) (xs : List ℕ)
    → AllTimed s xs
    → contains t xs ≡ false
    → AllTimed s (t ∷ [])
    → AllTimed s (insert_by_deadline f t xs)
unfolding insert_by_deadline
AllTimed-insert_by_deadline s f t [] all absent last = last
AllTimed-insert_by_deadline s f t (x ∷ xs) (pending, timed, legal, once, rest) absent
      (pending_t, timed_t, legal_t, once_t, end) =
    elim (Bool-cases (ltb (f t) (f x))) [
      | inl early ↦
          rw (early, insert_by_deadline, AllTimed)
            (pending_t, timed_t, legal_t, absent, (pending, timed, legal, once, rest))
      | inr late ↦
          rw (late, insert_by_deadline, AllTimed)
            (
              pending,
              timed,
              legal,
              contains-insert_by_deadline f x t xs once (ground arith),
              AllTimed-insert_by_deadline s f t xs rest (ground arith)
                  (pending_t, timed_t, legal_t, once_t, end),
            )
    ]

-- A wait with a timeout whose deadline does not wrap to 0 keeps the timeout queue sorted, and every
-- entry of it pending with a deadline.
pub block_on-AllTimed :
    (s : Scheduler) (d timeout now : ℕ)
    → AllTimed s s.timeout_queue
    → IsSorted (deadline_of s) s.timeout_queue
    → contains s.current s.timeout_queue ≡ false
    → ltb (s.threads s.current).priority priority_count ≡ true
    → timeout ≢ wait_infinite
    → (now + timeout) % u64_mod ≢ 0
    → AllTimed (block_on s d timeout now) (block_on s d timeout now).timeout_queue
      × IsSorted (deadline_of (block_on s d timeout now)) (block_on s d timeout now).timeout_queue
block_on-AllTimed s d timeout now all sorted absent legal finite nonzero =
    let s' = block_on s d timeout now in
    let t = s.current in
    let test : (timeout == wait_infinite) ≡ false = ground arith in
    let (object, thread, objects, ready_now, still, timeouts, others) =
      block_on-Blocked s d timeout now in
    let block = ap (λ x. x.wait_block) thread in
    let priority = ap (λ x. x.priority) thread in
    let queue : s'.timeout_queue ≡ insert_by_deadline (deadline_of s') t s.timeout_queue =
      timeouts ∙ rw (test) refl in
    let deadline : deadline_of s' t ≡ (now + timeout) % u64_mod =
      ap (λ b. b.deadline) block ∙ rw (test) refl in
    let last : AllTimed s' (t ∷ []) = (
      ap (λ b. b.completed) block,
      rw (deadline) nonzero,
      ap (λ n. ltb n 3) priority ∙ legal,
      refl,
      tt,
    ) in
    let same : (a : ℕ) → (a == t) ≡ false → deadline_of s' a ≡ deadline_of s a =
      λ a other. ap (λ x. x.wait_block.deadline) (others a other) in
    (
      subst (AllTimed s') (sym queue) (
          AllTimed-insert_by_deadline s' (deadline_of s') t s.timeout_queue
            (AllTimed-same s s' t s.timeout_queue others absent all) absent last),
      subst (IsSorted (deadline_of s')) (sym queue) (
          insert_by_deadline-IsSorted (deadline_of s') t s.timeout_queue
            (IsSorted-same (deadline_of s) (deadline_of s') t s.timeout_queue same absent sorted)),
    )
