-- ===== src/Thread/Interleaving.antt =====
-- Any interleaving of exits, joins, detaches, the critical sections of the reaper and the calls of
-- KiFinalizeThread.
use himu_os.Prelude.{
  count, ℕ, ◌≤◌, ◌<◌, ◌≡◌, ◌≢◌, sym, subst, ◌∙◌, true, false, Option, ok, ok-injective, Status,
  arith,
}
use himu_os.Irql.{passive_level}
use himu_os.Wait.State.{remove}
use himu_os.Thread.Lifecycle.{
  Threads, Joining, is_success, Reclaim, finalize_thread, thread_exit, join_begin, join_end,
  thread_detach, reap_take,
}
use himu_os.Thread.Ended.{World, IsThreads, outcome}
use himu_os.Thread.Claims.{
  thread_exit-IsThreads, join_begin-IsThreads, join_end-IsThreads, thread_detach-IsThreads,
}
use himu_os.Thread.Reaped.{IsReclaim, finalize_thread-IsThreads, taken, reap_take-IsThreads}

-- One critical section, or one call of KiFinalizeThread, of an operation that was called at the passive
-- level. A running thread other than the idle one exits once; a join goes on after its wait if it has
-- waited, and its wait on the completion succeeds only where that is published; the finalization of a
-- thread comes any time after a join or the reaper has consumed its end.
pub data Step (reclaim : Reclaim) (w : World) : World → Type 0 where
  exits :
      (t : ℕ) (s' : Threads)
      → t ≢ w.threads.idle
      → (w.threads.lives t).terminated ≡ false
      → thread_exit passive_level w.threads t 0 ≡ ok s'
      → Step reclaim w (record w { threads = s' })
  joins :
      (current t timeout : ℕ) (r : Joining) (s' : Threads)
      → join_begin passive_level w.threads current t timeout ≡ ok (s', r)
      → Step reclaim w (outcome w w.joiners s' t r)
  wakes :
      (t : ℕ) (status : Status) (r : Joining) (s' : Threads)
      → count t w.joiners ≢ 0
      → (is_success status ≡ true → (w.threads.lives t).published ≡ true)
      → join_end w.threads t status ≡ ok (s', r)
      → Step reclaim w (outcome w (remove t w.joiners) s' t r)
  detaches :
      (t : ℕ) (status : Status) (s' : Threads)
      → t ≢ w.threads.idle
      → thread_detach w.threads t ≡ ok (s', status)
      → Step reclaim w (record w { threads = s' })
  reaps :
      (o : Option ℕ) (s' : Threads)
      → reap_take w.threads ≡ ok (s', o)
      → Step reclaim w (taken w s' o)
  finalization :
      (t : ℕ) (s' : Threads)
      → count t w.pending ≢ 0
      → finalize_thread reclaim w.threads t ≡ ok s'
      → Step reclaim w (record { threads = s'; joiners = w.joiners; pending = remove t w.pending })

pub data Steps (reclaim : Reclaim) (w : World) : World → Type 0 where
  done : Steps reclaim w w
  after : (w' w'' : World) → Steps reclaim w w' → Step reclaim w' w'' → Steps reclaim w w''

-- None of the next steps fails an assertion or panics.
abbrev pub NoPanic : Reclaim → World → Type 0
NoPanic reclaim w =
    ((t : ℕ)
      → t ≢ w.threads.idle
      → (w.threads.lives t).terminated ≡ false
      → (s' : Threads) × (thread_exit passive_level w.threads t 0 ≡ ok s'))
    × ((current t timeout : ℕ)
        → (s' : Threads) × (r : Joining) × (join_begin passive_level w.threads current t timeout
            ≡ ok (s', r)))
    × ((t : ℕ) (status : Status)
        → count t w.joiners ≢ 0
        → (is_success status ≡ true → (w.threads.lives t).published ≡ true)
        → (s' : Threads) × (r : Joining) × (join_end w.threads t status ≡ ok (s', r)))
    × ((t : ℕ)
        → t ≢ w.threads.idle
        → (s' : Threads) × (status : Status) × (thread_detach w.threads t ≡ ok (s', status)))
    × ((s' : Threads) × (o : Option ℕ) × (reap_take w.threads ≡ ok (s', o)))
    × ((t : ℕ)
        → count t w.pending ≢ 0
        → (s' : Threads) × (finalize_thread reclaim w.threads t ≡ ok s'))

module _ (reclaim : Reclaim) (promise : IsReclaim reclaim) where
  IsThreads-NoPanic : (w : World) → IsThreads w → NoPanic reclaim w
  IsThreads-NoPanic w v = (
    λ t ne runs. let (s', run, _) = thread_exit-IsThreads w t v ne runs in (s', run),
    λ current t timeout.
        let (s', r, run, _) = join_begin-IsThreads w t current timeout v in (s', r, run),
    λ t status waiting told.
        let (s', r, run, _) = join_end-IsThreads w t status v waiting told in (s', r, run),
    λ t ne. let (s', status, run, _) = thread_detach-IsThreads w t v ne in (s', status, run),
    let (s', o, run, _) = reap_take-IsThreads w v in (s', o, run),
    λ t waiting.
        let (s', run, _, _) = finalize_thread-IsThreads reclaim w t promise v waiting in (s', run),
  )

  Step-IsThreads : (w w' : World) → IsThreads w → Step reclaim w w' → IsThreads w'
  Step-IsThreads w w' v (exits t _ ne runs e) =
      let (s'', run, v') = thread_exit-IsThreads w t v ne runs in
      subst (λ s. IsThreads (record w { threads = s })) (ok-injective (sym run ∙ e)) v'
  Step-IsThreads w w' v (joins current t timeout r _ e) =
      let (s'', r', run, v') = join_begin-IsThreads w t current timeout v in
      subst (λ p. IsThreads (outcome w w.joiners p.0 t p.1)) (ok-injective (sym run ∙ e)) v'
  Step-IsThreads w w' v (wakes t status r _ waiting told e) =
      let (s'', r', run, v') = join_end-IsThreads w t status v waiting told in
      subst (λ p. IsThreads (outcome w (remove t w.joiners) p.0 t p.1)) (ok-injective (sym run ∙ e))
        v'
  Step-IsThreads w w' v (detaches t status _ ne e) =
      let (s'', status', run, v') = thread_detach-IsThreads w t v ne in
      subst (λ p. IsThreads (record w { threads = p.0 })) (ok-injective (sym run ∙ e)) v'
  Step-IsThreads w w' v (reaps o _ e) =
      let (s'', o', run, v') = reap_take-IsThreads w v in
      subst (λ p. IsThreads (taken w p.0 p.1)) (ok-injective (sym run ∙ e)) v'
  Step-IsThreads w w' v (finalization t _ waiting e) =
      let (s'', run, is, v') = finalize_thread-IsThreads reclaim w t promise v waiting in
      subst
        (λ s. IsThreads (record { threads = s; joiners = w.joiners; pending = remove t w.pending }))
        (ok-injective (sym run ∙ e)) v'

  Steps-IsThreads : (w w' : World) → IsThreads w → Steps reclaim w w' → IsThreads w'
  Steps-IsThreads w w' v done = v
  Steps-IsThreads w w'' v (after w' _ before step) =
      Step-IsThreads w' w'' (Steps-IsThreads w w' v before) step

-- Where the finalize hook and the stack releases succeed, whatever exits, joins, ends of their waits,
-- detaches, rounds of the reaper and finalizations came before, in any order: the invariant holds, no
-- thread has been finalized twice, one that has been finalized has ended, no two joins wait for one
-- thread, and no assertion of the next step fails and no finalization panics.
pub Steps-NoPanic :
    (reclaim : Reclaim) (w w' : World)
    → IsReclaim reclaim
    → IsThreads w
    → Steps reclaim w w'
    → IsThreads w'
      × ((t : ℕ) → count t w'.threads.finalized ≤ 1)
      × ((t : ℕ) → 0 < count t w'.threads.finalized → (w'.threads.lives t).terminated ≡ true)
      × ((t : ℕ) → count t w'.joiners ≤ 1)
      × NoPanic reclaim w'
Steps-NoPanic reclaim w w' promise v steps =
    let v' = Steps-IsThreads reclaim promise w w' v steps in
    (
      v',
      λ t. ground (arith, (v'.each t).4),
      λ t freed. ground (arith, (v'.each t).4, (v'.each t).2, freed),
      λ t. ground (arith, (v'.each t).5),
      IsThreads-NoPanic reclaim promise w' v',
    )
