-- ===== src/Wait/Expire.antt =====
-- The timer wakes the waits that are due, and no other.
use himu_os.Prelude.{
  ℕ, zero, suc, ◌<◌, ◌≡◌, ◌≢◌, refl, sym, ap, ◌∙◌, subst, inl, inr, true, false, Option, none, some,
  List, [], ◌∷◌, ltb, ◌==◌, if◌then◌else◌, length, take, drop, ec_timeout, Result, ok, Bool-cases,
  arith,
}
use himu_os.Wait.State.{Scheduler, priority_count, contains}
use himu_os.Wait.Complete.{finish_wait, complete_wait, deadline_of, wake_round, wake_timeouts}
use himu_os.Wait.Wake.{
  woken, AllWoken, AllWoken-same, IsQueued, IsQueued-none, IsQueued-next, finish_wait-IsQueued,
  complete_wait-pending, contains-take,
}
use himu_os.Wait.Timeouts.{AllUpTo, AllBeyond, IsSorted, AllBeyond-from}

-- The threads of the list wait with a deadline, each once.
abbrev pub AllTimed : Scheduler → List ℕ → Type 0
AllTimed s [] = Unit {0}
AllTimed s (t ∷ ts) =
    ((s.threads t).wait_block.completed ≡ false)
    × ((s.threads t).wait_block.deadline ≢ 0)
    × (ltb (s.threads t).priority priority_count ≡ true)
    × (contains t ts ≡ false)
    × AllTimed s ts

pub AllTimed-same :
    (s s' : Scheduler) (t : ℕ) (ts : List ℕ)
    → ((a : ℕ) → (a == t) ≡ false → s'.threads a ≡ s.threads a)
    → contains t ts ≡ false
    → AllTimed s ts
    → AllTimed s' ts
AllTimed-same s s' t [] same absent all = tt
AllTimed-same s s' t (x ∷ xs) same absent (pending, timed, legal, once, rest) =
    let other : (x == t) ≡ false = ground arith in
    let here = same x other in
    (
      rw (here) pending,
      rw (here) timed,
      rw (here) legal,
      once,
      AllTimed-same s s' t xs same (ground arith) rest,
    )

-- What the completion of the first entry does to the queue and to the threads.
abbrev Expired : Scheduler → ℕ → List ℕ → Scheduler → Type 0
Expired s t ts s' =
    (s'.timeout_queue ≡ ts)
    × ((a : ℕ) → (a == t) ≡ false → s'.threads a ≡ s.threads a)
    × (s'.threads t ≡ woken (s.threads t) ec_timeout)
    × IsQueued s (t ∷ []) s'

finish_wait-Expired :
    (s : Scheduler) (t : ℕ) (ts : List ℕ) (dispatcher : Option ℕ) (deadline : ℕ)
    → s.timeout_queue ≡ t ∷ ts
    → deadline ≢ 0
    → Expired s t ts (finish_wait s t dispatcher deadline ec_timeout)
unfolding finish_wait
finish_wait-Expired s t ts none deadline head timed =
    let self_t : (t == t) ≡ true = ground arith in
    let test : (deadline == 0) ≡ false = ground arith in
    (
      rw (head, test, self_t) refl,
      λ a other. rw (other) refl,
      rw (self_t) refl,
      finish_wait-IsQueued s t none deadline ec_timeout,
    )
finish_wait-Expired s t ts (some d) deadline head timed =
    let self_t : (t == t) ≡ true = ground arith in
    let test : (deadline == 0) ≡ false = ground arith in
    (
      rw (head, test, self_t) refl,
      λ a other. rw (other) refl,
      rw (self_t) refl,
      finish_wait-IsQueued s t (some d) deadline ec_timeout,
    )

-- How many entries from the head on are due.
abbrev pub due : (ℕ → ℕ) → ℕ → List ℕ → ℕ
due deadline now [] = 0
due deadline now (t ∷ ts) = if ltb now (deadline t) then 0 else suc (due deadline now ts)

due-lower :
    (deadline : ℕ → ℕ) (now : ℕ) (ts : List ℕ)
    → AllUpTo deadline now (take (due deadline now ts) ts)
due-lower deadline now [] = tt
due-lower deadline now (t ∷ ts) = elim (Bool-cases (ltb now (deadline t))) [
  | inl later ↦ rw (later, AllUpTo) tt
  | inr here ↦ rw (here, AllUpTo) (ground arith, due-lower deadline now ts)
]

due-upper :
    (deadline : ℕ → ℕ) (now : ℕ) (ts : List ℕ)
    → IsSorted deadline ts
    → AllBeyond deadline now (drop (due deadline now ts) ts)
due-upper deadline now [] sorted = tt
due-upper deadline now (t ∷ ts) (from, sorted) = elim (Bool-cases (ltb now (deadline t))) [
  | inl later ↦
      rw (later, AllBeyond)
        (ground arith, AllBeyond-from deadline now (deadline t) ts (ground arith) from)
  | inr here ↦ rw (here, AllBeyond) (due-upper deadline now ts sorted)
]

-- The threads woken are the first entries of the queue; the queue keeps the rest, and no other
-- thread changes.
abbrev pub Woken : ℕ → Scheduler → List ℕ → Scheduler → Type 0
Woken n s ts s' =
    (s'.timeout_queue ≡ drop n ts)
    × AllWoken s.threads s'.threads (take n ts) ec_timeout
    × IsQueued s (take n ts) s'
    × ((a : ℕ) → contains a (take n ts) ≡ false → s'.threads a ≡ s.threads a)

due-same :
    (s s' : Scheduler) (t now : ℕ) (ts : List ℕ)
    → ((a : ℕ) → (a == t) ≡ false → s'.threads a ≡ s.threads a)
    → contains t ts ≡ false
    → due (deadline_of s') now ts ≡ due (deadline_of s) now ts
due-same s s' t now [] same absent = refl
due-same s s' t now (x ∷ xs) same absent =
    let here : deadline_of s' x ≡ deadline_of s x =
      ap (λ y. y.wait_block.deadline) (same x (ground arith)) in
    let rest = due-same s s' t now xs same (ground arith) in
    ap (λ v. if ltb now v then 0 else suc (due (deadline_of s') now xs)) here
    ∙ ap (λ n. if ltb now (deadline_of s x) then 0 else suc n) rest

round_later :
    (again : Scheduler → Option (Result Scheduler)) (s : Scheduler) (now t : ℕ) (ts : List ℕ)
    → ltb now (deadline_of s t) ≡ true
    → wake_round again s now (t ∷ ts) ≡ some (ok s)
round_later again s now t ts later = rw (later) refl

round_due :
    (again : Scheduler → Option (Result Scheduler)) (s s1 : Scheduler) (now t : ℕ) (ts : List ℕ)
    → ltb now (deadline_of s t) ≡ false
    → complete_wait s t ec_timeout ≡ ok s1
    → wake_round again s now (t ∷ ts) ≡ again s1
round_due again s s1 now t ts here run = rw (here, run) refl

due_later :
    (s : Scheduler) (now t : ℕ) (ts : List ℕ)
    → ltb now (deadline_of s t) ≡ true
    → due (deadline_of s) now (t ∷ ts) ≡ 0
due_later s now t ts later = rw (later) refl

due_here :
    (s : Scheduler) (now t : ℕ) (ts : List ℕ)
    → ltb now (deadline_of s t) ≡ false
    → due (deadline_of s) now (t ∷ ts) ≡ suc (due (deadline_of s) now ts)
due_here s now t ts here = rw (here) refl

wake_list :
    (fuel : ℕ) (s : Scheduler) (now : ℕ) (ts : List ℕ)
    → length ts < fuel
    → s.timeout_queue ≡ ts
    → AllTimed s ts
    → (s' : Scheduler) × (wake_timeouts fuel s now ≡ some (ok s'))
      × Woken (due (deadline_of s) now ts) s ts s'
unfolding wake_timeouts
wake_list zero s now ts enough queue all = absurd (omega arith)
wake_list (suc fuel) s now [] enough queue all = (
  s,
  ap (wake_round (λ s'. wake_timeouts fuel s' now) s now) queue,
  (queue, tt, IsQueued-none s, λ a absent. refl),
)
wake_list (suc fuel) s now (t ∷ ts) enough queue (pending, timed, legal, once, rest) =
    let again = λ (s' : Scheduler). wake_timeouts fuel s' now in
    elim (Bool-cases (ltb now (deadline_of s t))) [
      | inl later ↦ (
        s,
        ap (wake_round again s now) queue ∙ round_later again s now t ts later,
        subst (λ n. Woken n s (t ∷ ts) s) (sym (due_later s now t ts later))
            (queue, tt, IsQueued-none s, λ a absent. refl),
      )
      | inr here ↦
          let block = (s.threads t).wait_block in
          let s1 = finish_wait s t block.dispatcher block.deadline ec_timeout in
          let run = complete_wait-pending s t ec_timeout pending legal in
          let (queue1, others, woke, queued) =
            finish_wait-Expired s t ts block.dispatcher block.deadline queue timed in
          let (s2, run2, (queue2, woke2, queued2, others2)) =
            wake_list fuel s1 now ts (omega arith) queue1
              (AllTimed-same s s1 t ts others once rest) in
          let n = due (deadline_of s1) now ts in
          let count : suc n ≡ due (deadline_of s) now (t ∷ ts) =
            ap suc (due-same s s1 t now ts others once) ∙ sym (due_here s now t ts here) in
          let out = contains-take t n ts once in
          let same : (a : ℕ) → contains a (t ∷ take n ts) ≡ false → s2.threads a ≡ s.threads a =
            λ a absent. others2 a (ground arith) ∙ others a (ground arith) in
          (
            s2,
            ap (wake_round again s now) queue ∙ round_due again s s1 now t ts here run ∙ run2,
            subst (λ m. Woken m s (t ∷ ts) s2) count
                (
                  queue2,
                  (
                    others2 t out ∙ woke,
                    AllWoken-same s.threads s1.threads s2.threads t (take n ts) ec_timeout others
                        out woke2,
                  ),
                  IsQueued-next s s1 s2 t (take n ts) queued queued2,
                  same,
                ),
          )
    ]

-- On a queue sorted by deadline, whose threads wait with a deadline, each once and with a legal
-- priority, the loop ends within one round more than the queue is long. The first `n` entries, those
-- due at `now`, are ready with EC_TIMEOUT, their other fields kept, and stand at the end of the ready
-- queues of their priorities in the order of the queue; all that stay in the queue are due later; no
-- other thread and no other entry of a ready queue changes.
pub wake_timeouts-Woken :
    (fuel : ℕ) (s : Scheduler) (now : ℕ)
    → length s.timeout_queue < fuel
    → AllTimed s s.timeout_queue
    → IsSorted (deadline_of s) s.timeout_queue
    → (s' : Scheduler) × (n : ℕ) × (wake_timeouts fuel s now ≡ some (ok s'))
      × Woken n s s.timeout_queue s'
      × AllUpTo (deadline_of s) now (take n s.timeout_queue)
      × AllBeyond (deadline_of s) now (drop n s.timeout_queue)
wake_timeouts-Woken fuel s now enough all sorted =
    let (s', run, woken) = wake_list fuel s now s.timeout_queue enough refl all in
    (
      s',
      due (deadline_of s) now s.timeout_queue,
      run,
      woken,
      due-lower (deadline_of s) now s.timeout_queue,
      due-upper (deadline_of s) now s.timeout_queue sorted,
    )
