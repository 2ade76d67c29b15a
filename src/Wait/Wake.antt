-- ===== src/Wait/Wake.antt =====
-- The waiters of an object are woken from the head of its list.
use himu_os.Prelude.{
  ℕ, zero, suc, ◌-◌, ◌≡◌, refl, sym, ap, ◌∙◌, true, false, some, List, [], ◌∷◌, ltb, ◌==◌, length,
  take, drop, Status, ec_success, ok, arith, Bool-cases, inl, inr, ◌++◌, append_assoc, append-nil,
  if◌then◌else◌, Option, none,
}
use himu_os.Wait.State.{Dispatcher, ready, Kthread, Scheduler, priority_count, contains}
use himu_os.Wait.Complete.{
  complete_wait, finish_wait, make_ready, mark_completed, leave_timeout_queue, leave_wait_list,
}
use himu_os.Wait.Sync.{wake_waiters}

-- The threads of the list wait for object `d`, each once.
abbrev pub AllWaiting : Scheduler → ℕ → List ℕ → Type 0
AllWaiting s d [] = Unit {0}
AllWaiting s d (t ∷ ts) =
    ((s.threads t).wait_block.completed ≡ false)
    × ((s.threads t).wait_block.dispatcher ≡ some d)
    × (ltb (s.threads t).priority priority_count ≡ true)
    × (contains t ts ≡ false)
    × AllWaiting s d ts

-- Only threads of the list matter.
pub AllWaiting-same :
    (s s' : Scheduler) (d t : ℕ) (ts : List ℕ)
    → ((a : ℕ) → (a == t) ≡ false → s'.threads a ≡ s.threads a)
    → contains t ts ≡ false
    → AllWaiting s d ts
    → AllWaiting s' d ts
AllWaiting-same s s' d t [] same absent all = tt
AllWaiting-same s s' d t (x ∷ xs) same absent (pending, at, legal, once, rest) =
    let other : (x == t) ≡ false = ground arith in
    let here = same x other in
    (
      rw (here) pending,
      rw (here) at,
      rw (here) legal,
      once,
      AllWaiting-same s s' d t xs same (ground arith) rest,
    )

-- The thread after its wait is over with a status: ready, and else as it was.
abbrev pub woken : Kthread → Status → Kthread
woken x status = record x {
  state = ready;
  wait_block = record (x.wait_block) { completed = true; completion_status = status };
}

-- The threads of the list that have priority `p`, in their order.
abbrev pub of_priority : (ℕ → Kthread) → ℕ → List ℕ → List ℕ
of_priority threads p [] = []
of_priority threads p (t ∷ ts) =
    if p == (threads t).priority then t ∷ of_priority threads p ts else of_priority threads p ts

-- Every thread of the list stands at the end of the ready queue of its priority, in the order of the
-- list, and no ready queue changes else. Priorities stay.
abbrev pub IsQueued : Scheduler → List ℕ → Scheduler → Type 0
IsQueued s ts s' =
    ((p : ℕ) → s'.ready_queues p ≡ s.ready_queues p ++ of_priority s.threads p ts)
    × ((a : ℕ) → (s'.threads a).priority ≡ (s.threads a).priority)

of_priority-same :
    (s s' : Scheduler) (p : ℕ) (ts : List ℕ)
    → ((a : ℕ) → (s'.threads a).priority ≡ (s.threads a).priority)
    → of_priority s'.threads p ts ≡ of_priority s.threads p ts
of_priority-same s s' p [] same = refl
of_priority-same s s' p (t ∷ ts) same = rw (same t, of_priority-same s s' p ts same) refl

pub IsQueued-none : (s : Scheduler) → IsQueued s [] s
IsQueued-none s = (λ p. sym (append-nil (s.ready_queues p)), λ a. refl)

pub IsQueued-next :
    (s s1 s2 : Scheduler) (t : ℕ) (ts : List ℕ)
    → IsQueued s (t ∷ []) s1
    → IsQueued s1 ts s2
    → IsQueued s (t ∷ ts) s2
IsQueued-next s s1 s2 t ts (first, kept) (rest, kept2) = (
  λ p.
      rest p
      ∙ ap (λ xs. xs ++ of_priority s1.threads p ts) (first p)
      ∙ ap (λ xs. (s.ready_queues p ++ of_priority s.threads p (t ∷ [])) ++ xs)
          (of_priority-same s s1 p ts kept)
      ∙ joined p,
  λ a. kept2 a ∙ kept a,
)
  where
    joined :
        (p : ℕ)
        → (s.ready_queues p ++ of_priority s.threads p (t ∷ [])) ++ of_priority s.threads p ts
          ≡ s.ready_queues p ++ of_priority s.threads p (t ∷ ts)
    joined p = elim (Bool-cases (p == (s.threads t).priority)) [
      | inl e ↦ rw e (append_assoc (s.ready_queues p) (t ∷ []) (of_priority s.threads p ts))
      | inr e ↦ rw e (append_assoc (s.ready_queues p) [] (of_priority s.threads p ts))
    ]

-- What came before changed neither queues nor priorities.
pub IsQueued-after :
    (s s1 s2 : Scheduler) (ts : List ℕ)
    → s1.ready_queues ≡ s.ready_queues
    → ((a : ℕ) → (s1.threads a).priority ≡ (s.threads a).priority)
    → IsQueued s1 ts s2
    → IsQueued s ts s2
IsQueued-after s s1 s2 ts queues kept (rest, kept2) = (
  λ p.
      rest p
      ∙ ap (λ f. f p ++ of_priority s1.threads p ts) queues
      ∙ ap (λ xs. s.ready_queues p ++ xs) (of_priority-same s s1 p ts kept),
  λ a. kept2 a ∙ kept a,
)

-- What the completion changes of queues and priorities.
make_ready-IsQueued :
    (s left s' : Scheduler) (t : ℕ)
    → (left.ready_queues ≡ s.ready_queues)
    → ((a : ℕ) → (left.threads a).priority ≡ (s.threads a).priority)
    → (s'.ready_queues ≡ (make_ready left t).ready_queues)
    → (s'.threads ≡ (make_ready left t).threads)
    → IsQueued s (t ∷ []) s'
make_ready-IsQueued s left s' t queues kept ready_now threads =
    (λ p. ap (λ f. f p) ready_now ∙ queue p, λ a. ap (λ f. (f a).priority) threads ∙ priority a)
  where
    queue :
        (p : ℕ)
        → (make_ready left t).ready_queues p ≡ s.ready_queues p ++ of_priority s.threads p (t ∷ [])
    queue p = elim (Bool-cases (p == (s.threads t).priority)) [
      | inl e ↦ rw (kept t, e) (ap (λ f. f p ++ (t ∷ [])) queues)
      | inr e ↦ rw (kept t, e) (ap (λ f. f p) queues ∙ sym (append-nil (s.ready_queues p)))
    ]

    priority : (a : ℕ) → ((make_ready left t).threads a).priority ≡ (s.threads a).priority
    priority a = elim (Bool-cases (a == t)) [
      | inl e ↦ let same : t ≡ a = ground arith in rw (e, same) (kept a)
      | inr e ↦ rw e (kept a)
    ]

pub mark_completed-priority :
    (s : Scheduler) (t : ℕ) (status : Status) (a : ℕ)
    → ((mark_completed s t status).threads a).priority ≡ (s.threads a).priority
mark_completed-priority s t status a = elim (Bool-cases (a == t)) [
  | inl e ↦ let same : t ≡ a = ground arith in rw (e, same) refl
  | inr e ↦ rw e refl
]

pub finish_wait-IsQueued :
    (s : Scheduler) (t : ℕ) (dispatcher : Option ℕ) (deadline : ℕ) (status : Status)
    → IsQueued s (t ∷ []) (finish_wait s t dispatcher deadline status)
unfolding finish_wait
finish_wait-IsQueued s t none deadline status =
    make_ready-IsQueued s (leave_timeout_queue (mark_completed s t status) t deadline)
      (finish_wait s t none deadline status) t refl (mark_completed-priority s t status) refl refl
finish_wait-IsQueued s t (some d) deadline status =
    make_ready-IsQueued s
      (leave_timeout_queue (leave_wait_list (mark_completed s t status) t (some d)) t deadline)
      (finish_wait s t (some d) deadline status) t refl (mark_completed-priority s t status) refl
      refl

pub complete_wait-pending :
    (s : Scheduler) (t : ℕ) (status : Status)
    → (s.threads t).wait_block.completed ≡ false
    → ltb (s.threads t).priority priority_count ≡ true
    → complete_wait s t status
      ≡ ok (
          finish_wait s t
            (s.threads t).wait_block.dispatcher
            (s.threads t).wait_block.deadline
            status)
unfolding complete_wait
complete_wait-pending s t status pending legal = rw (pending, legal, complete_wait) refl

-- The wait at the head of the list completes: it leaves the list, and no other thread changes.
pub complete_wait-head :
    (s : Scheduler) (d t : ℕ) (ts : List ℕ) (status : Status)
    → (s.dispatchers d).wait_list ≡ t ∷ ts
    → AllWaiting s d (t ∷ ts)
    → (s' : Scheduler) × (complete_wait s t status ≡ ok s')
      × (s'.dispatchers d ≡ record (s.dispatchers d) { wait_list = ts })
      × ((a : ℕ) → (a == t) ≡ false → s'.threads a ≡ s.threads a)
      × (s'.threads t ≡ woken (s.threads t) status)
      × IsQueued s (t ∷ []) s'
unfolding complete_wait finish_wait
complete_wait-head s d t ts status head (pending, at, legal, once, rest) =
    let deadline = (s.threads t).wait_block.deadline in
    let self_d : (d == d) ≡ true = ground arith in
    let self_t : (t == t) ≡ true = ground arith in
    (
      finish_wait s t (some d) deadline status,
      complete_wait-pending s t status pending legal
          ∙ ap (λ o. ok (finish_wait s t o deadline status)) at,
      rw (self_d, head, self_t) refl,
      λ a other. rw (other) refl,
      rw (self_t) refl,
      finish_wait-IsQueued s t (some d) deadline status,
    )

-- Every thread of the list is woken.
abbrev pub AllWoken : (ℕ → Kthread) → (ℕ → Kthread) → List ℕ → Status → Type 0
AllWoken threads threads' [] status = Unit {0}
AllWoken threads threads' (t ∷ ts) status =
    (threads' t ≡ woken (threads t) status) × AllWoken threads threads' ts status

pub AllWoken-same :
    (threads threads1 threads2 : ℕ → Kthread) (t : ℕ) (ts : List ℕ) (status : Status)
    → ((a : ℕ) → (a == t) ≡ false → threads1 a ≡ threads a)
    → contains t ts ≡ false
    → AllWoken threads1 threads2 ts status
    → AllWoken threads threads2 ts status
AllWoken-same threads threads1 threads2 t [] status same absent all = tt
AllWoken-same threads threads1 threads2 t (x ∷ xs) status same absent (here, rest) =
    let other : (x == t) ≡ false = ground arith in
    (
      here ∙ ap (λ y. woken y status) (same x other),
      AllWoken-same threads threads1 threads2 t xs status same (ground arith) rest,
    )

-- The first `n` waiters of the list are woken in order: the list loses them and keeps the others,
-- the object keeps its other fields, and no thread but those changes.
abbrev pub Woke : ℕ → Scheduler → ℕ → List ℕ → Scheduler → Type 0
Woke n s d ts s' =
    (s'.dispatchers d ≡ record (s.dispatchers d) { wait_list = drop n ts })
    × AllWoken s.threads s'.threads (take n ts) ec_success
    × IsQueued s (take n ts) s'
    × AllWaiting s' d (drop n ts)
    × ((a : ℕ) → contains a (take n ts) ≡ false → s'.threads a ≡ s.threads a)

pub contains-take : (t n : ℕ) (ts : List ℕ) → contains t ts ≡ false → contains t (take n ts) ≡ false
contains-take t zero ts absent = refl
contains-take t (suc n) [] absent = refl
contains-take t (suc n) (x ∷ xs) absent = ground (arith, contains-take t n xs)

abbrev pub put_list : Dispatcher → List ℕ → Dispatcher
put_list x list = record x { wait_list = list }

next_round :
    (n : ℕ) (s : Scheduler) (d t : ℕ) (ts : List ℕ) (s1 : Scheduler)
    → (s.dispatchers d).wait_list ≡ t ∷ ts
    → complete_wait s t ec_success ≡ ok s1
    → wake_waiters (suc n) s d ≡ wake_waiters n s1 d
unfolding wake_waiters
next_round n s d t ts s1 list run = rw (list, run, wake_waiters) refl

-- The loop of KeSetEvent and KeReleaseSemaphore.
pub wake_waiters-Woke :
    (n : ℕ) (s : Scheduler) (d : ℕ) (ts : List ℕ)
    → (s.dispatchers d).wait_list ≡ ts
    → AllWaiting s d ts
    → (s' : Scheduler) × (wake_waiters n s d ≡ ok (s', n - length ts)) × Woke n s d ts s'
unfolding wake_waiters
wake_waiters-Woke zero s d ts list all =
    let none_left : 0 ≡ 0 - length ts = omega arith in
    (
      s,
      ap (λ n. ok (s, n)) none_left,
      (ap (put_list (s.dispatchers d)) list, tt, IsQueued-none s, all, λ a absent. refl),
    )
wake_waiters-Woke (suc n) s d [] list all =
    let all_left : suc n ≡ suc n - 0 = omega arith in
    (
      s,
      rw (list, wake_waiters) (ap (λ m. ok (s, m)) all_left),
      (ap (put_list (s.dispatchers d)) list, tt, IsQueued-none s, tt, λ a absent. refl),
    )
wake_waiters-Woke (suc n) s d (t ∷ ts) list all =
    let (pending, at, legal, once, rest) = all in
    let (s1, run, object, others, woke, queued) = complete_wait-head s d t ts ec_success list all in
    let waiting = AllWaiting-same s s1 d t ts others once rest in
    let (s2, run2, (object2, woke2, queued2, waiting2, others2)) =
      wake_waiters-Woke n s1 d ts (ap (λ x. x.wait_list) object) waiting in
    let fewer : n - length ts ≡ suc n - suc (length ts) = omega arith in
    let same : (a : ℕ) → contains a (t ∷ take n ts) ≡ false → s2.threads a ≡ s.threads a =
      λ a absent. others2 a (ground arith) ∙ others a (ground arith) in
    let out = contains-take t n ts once in
    (
      s2,
      next_round n s d t ts s1 list run ∙ run2 ∙ ap (λ m. ok (s2, m)) fewer,
      (
        object2 ∙ ap (λ x. put_list x (drop n ts)) object,
        (
          others2 t out ∙ woke,
          AllWoken-same s.threads s1.threads s2.threads t (take n ts) ec_success others out woke2,
        ),
        IsQueued-next s s1 s2 t (take n ts) queued queued2,
        waiting2,
        same,
      ),
    )
