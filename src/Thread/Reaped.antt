-- ===== src/Thread/Reaped.antt =====
-- The reaper's rounds and KiFinalizeThread: each thread of the list is finalized once, without a panic.
use himu_os.Prelude.{
  count, ℕ, suc, ◌+◌, ◌≡◌, ◌≢◌, refl, sym, ap, ◌∙◌, subst, inl, inr, true, false, ◌&&◌, not, List,
  [], ◌∷◌, ◌==◌, if◌then◌else◌, Option, none, some, length, Result, ok, Status, ec_success,
  Bool-cases, arith,
}
use himu_os.Wait.State.{remove}
use himu_os.Thread.Lifecycle.{
  Life, Threads, consumed, is_detached, is_consumed, put_life, Reclaim, finalize_user_runtime,
  release_stack_range, finalize_thread, mark_thread_termination_consumed, reap_first, reap_take,
  reap_round, reap_terminated_threads,
}
use himu_os.Thread.Ended.{
  World, IsThreads, IsOnly, IsOnly-same, IsOnly-more, IsOnly-less, IsOnly-removed, count-remove,
  written-IsThreads, changed-IsThreads, self-true,
}

-- What the rest of the kernel promises to KiFinalizeThread: the user runtime that owns a thread has
-- registered a hook, which succeeds for the thread, and a stack is released.
pub record IsReclaim (reclaim : Reclaim) : Type 0 where
  pub finalizes_owned :
      (t : ℕ)
      → reclaim.owns_thread t ≡ true
      → (hook : ℕ → Status) × (reclaim.finalize_hook ≡ some hook) × (hook t ≡ ec_success)
  pub releases_owned :
      (t : ℕ) → reclaim.stack_owned_by_kva t ≡ true → reclaim.release_stack t ≡ ec_success

module _ (reclaim : Reclaim) (promise : IsReclaim reclaim) (t : ℕ) where
  finalize_user_runtime-ok : finalize_user_runtime reclaim t ≡ ok tt
  unfolding finalize_user_runtime
  finalize_user_runtime-ok = elim (Bool-cases (reclaim.owns_thread t)) [
    | inr e ↦ rw e refl
    | inl e ↦
        let (hook, registered, done) = promise.finalizes_owned t e in rw (e, registered, done) refl
  ]

  release_stack_range-ok : release_stack_range reclaim t ≡ ok tt
  unfolding release_stack_range
  release_stack_range-ok = elim (Bool-cases (reclaim.stack_owned_by_kva t)) [
    | inr e ↦ rw e refl
    | inl e ↦ rw (e, promise.releases_owned t e) refl
  ]

-- A thread that waits for its KiFinalizeThread is finalized.
pub finalize_thread-IsThreads :
    (reclaim : Reclaim) (w : World) (t : ℕ)
    → IsReclaim reclaim
    → IsThreads w
    → count t w.pending ≢ 0
    → (s' : Threads) × (finalize_thread reclaim w.threads t ≡ ok s')
      × (s' ≡ record (w.threads) { finalized = t ∷ w.threads.finalized })
      × IsThreads (record { threads = s'; joiners = w.joiners; pending = remove t w.pending })
unfolding finalize_thread
finalize_thread-IsThreads reclaim w t promise v waiting =
    let x = w.threads.lives t in
    let (pub_same, no_join, alive, listed, given, joins) = v.each t in
    let dead : is_consumed x.claim ≡ true = ground (arith, waiting, given) in
    let ended : x.terminated ≡ true = ground (arith, dead, alive) in
    let ne : t ≢ w.threads.idle = λ same.
      cc (ended, subst (λ i. (w.threads.lives i).terminated ≡ false) (sym same) v.idle_runs) in
    let other : (t == w.threads.idle) ≡ false = ground (arith, ne) in
    let user = finalize_user_runtime-ok reclaim promise t in
    let stack = release_stack_range-ok reclaim promise t in
    let self : (t == t) ≡ true = self-true t in
    let s' : Threads = record (w.threads) { finalized = t ∷ w.threads.finalized } in
    let moved : count t (remove t w.pending) + suc (count t w.threads.finalized)
        ≡ count t w.pending + count t w.threads.finalized =
      omega (arith, count-remove t w.pending, waiting) in
    (
      s',
      rw (other, ended, dead, user, stack) refl,
      refl,
      changed-IsThreads w
          (record { threads = s'; joiners = w.joiners; pending = remove t w.pending }) t v ne refl
          (λ a apart. refl) (IsOnly-same t w.threads.terminated_list)
          (IsOnly-more t w.threads.finalized) (IsOnly-same t w.joiners) (IsOnly-removed t w.pending)
          (pub_same, no_join, alive, listed, rw self (moved ∙ given), joins),
    )

-- The world after the critical section of a round.
abbrev pub taken : World → Threads → Option ℕ → World
taken w s none = record w { threads = s }
taken w s (some t) = record { threads = s; joiners = w.joiners; pending = t ∷ w.pending }

reap_one-IsThreads :
    (w : World) (t : ℕ) (ts : List ℕ)
    → IsThreads w
    → w.threads.terminated_list ≡ t ∷ ts
    → (s' : Threads) × (reap_first w.threads (t ∷ ts) ≡ ok (s', some t))
      × IsThreads (taken w s' (some t))
      × (s'.finalized ≡ w.threads.finalized)
      × (s'.terminated_list ≡ ts)
unfolding reap_first mark_thread_termination_consumed
reap_one-IsThreads w t ts v e =
    let x = w.threads.lives t in
    let (pub_same, no_join, alive, listed, given, joins) = v.each t in
    let self : (t == t) ≡ true = self-true t in
    let here : count t w.threads.terminated_list ≡ suc (count t ts) = rw (e, self) refl in
    let one : suc (count t ts)
        ≡ (if x.terminated && (is_detached x.mode && not (is_consumed x.claim)) then 1 else 0) =
      sym here ∙ listed in
    let ended : x.terminated ≡ true = ground (arith, one) in
    let goes : is_detached x.mode ≡ true = ground (arith, one) in
    let fresh : is_consumed x.claim ≡ false = ground (arith, one) in
    let absent : count t ts ≡ 0 = ground (arith, one) in
    let ne : t ≢ w.threads.idle = λ same.
      cc (ended, subst (λ i. (w.threads.lives i).terminated ≡ false) (sym same) v.idle_runs) in
    let l : Life = record x { claim = consumed } in
    let s' : Threads = record (put_life w.threads t l) { terminated_list = ts } in
    (
      s',
      rw fresh refl,
      written-IsThreads w t v ne l ts w.threads.finalized w.joiners (t ∷ w.pending)
          (subst (IsOnly t ts) (sym e) (IsOnly-less t ts)) (IsOnly-same t w.threads.finalized)
          (IsOnly-same t w.joiners) (IsOnly-more t w.pending)
          (
            pub_same,
            ground (arith, goes),
            ground (arith, ended),
            ground (arith, ended, absent),
            rw self (ground (arith, fresh, given)),
            ground (arith, goes, no_join, joins),
          ),
      refl,
      refl,
    )

-- The critical section of a round, on every branch.
pub reap_take-IsThreads :
    (w : World)
    → IsThreads w
    → (s' : Threads) × (o : Option ℕ) × (reap_take w.threads ≡ ok (s', o))
      × IsThreads (taken w s' o)
unfolding reap_take reap_first
reap_take-IsThreads w v = from w.threads.terminated_list refl
  where
    from :
        (xs : List ℕ)
        → w.threads.terminated_list ≡ xs
        → (s' : Threads) × (o : Option ℕ) × (reap_first w.threads xs ≡ ok (s', o))
          × IsThreads (taken w s' o)
    from [] e = (w.threads, none, refl, v)
    from (t ∷ ts) e =
        let (s', run, v', same, left) = reap_one-IsThreads w t ts v e in (s', some t, run, v')

-- What a run of the reaper without another operation between its rounds comes to.
abbrev pub Reaps : World → Option (Result Threads) → Type 0
Reaps w r =
    (s' : Threads) × (r ≡ some (ok s'))
    × IsThreads (record w { threads = s' })
    × (s'.terminated_list ≡ [])
    × ((a : ℕ)
        → count a s'.finalized ≡ count a w.threads.finalized + count a w.threads.terminated_list)

round_done :
    (reclaim : Reclaim) (again : Threads → Option (Result Threads)) (s1 s2 : Threads) (t : ℕ)
    → finalize_thread reclaim s1 t ≡ ok s2
    → reap_round reclaim again (ok (s1, some t)) ≡ again s2
unfolding reap_round
round_done reclaim again s1 s2 t run = rw (reap_round, run) refl

module _ (reclaim : Reclaim) (promise : IsReclaim reclaim) where
  reap-Reaps :
      (xs : List ℕ) (w : World)
      → IsThreads w
      → w.threads.terminated_list ≡ xs
      → Reaps w (reap_terminated_threads reclaim (suc (length xs)) w.threads)
  unfolding reap_terminated_threads reap_round reap_take reap_first
  reap-Reaps [] w v e = (
    w.threads,
    ap (λ xs. reap_round reclaim (reap_terminated_threads reclaim 0) (reap_first w.threads xs)) e,
    v,
    e,
    λ a.
        let none_listed : count a w.threads.terminated_list ≡ 0 = ap (count a) e in
        omega (arith, none_listed),
  )
  reap-Reaps (t ∷ ts) w v e =
      let again = reap_terminated_threads reclaim (suc (length ts)) in
      let (s1, run, v1, same, left) = reap_one-IsThreads w t ts v e in
      let self : (t == t) ≡ true = self-true t in
      let (s2, run2, is, v2) =
        finalize_thread-IsThreads reclaim (taken w s1 (some t)) t promise v1
          (rw self (λ q. absurd (omega arith))) in
      let back : remove t (t ∷ w.pending) ≡ w.pending = rw self refl in
      let w2 : World = record w { threads = s2 } in
      let (s', run3, v', gone, counts) =
        reap-Reaps ts w2
          (subst (λ p. IsThreads (record { threads = s2; joiners = w.joiners; pending = p })) back
            v2)
          (ap (λ z. z.terminated_list) is ∙ left) in
      let ended = round_done reclaim again s1 s2 t run2 in
      (
        s',
        ap (λ xs. reap_round reclaim again (reap_first w.threads xs)) e
            ∙ ap (reap_round reclaim again) run
            ∙ ended
            ∙ run3,
        v',
        gone,
        λ a.
            let here : count a w.threads.terminated_list ≡ count a (t ∷ ts) = ap (count a) e in
            let rest : count a s2.terminated_list ≡ count a ts =
              ap (λ z. count a z.terminated_list) is ∙ ap (count a) left in
            let given : count a s2.finalized ≡ count a (t ∷ w.threads.finalized) =
              ap (λ z. count a z.finalized) is ∙ ap (λ f. count a (t ∷ f)) same in
            ground (arith, here, rest, given, counts a),
      )

  -- Where the rest of the kernel keeps its promise, the reaper ends with one round more than its list has
  -- entries, with no assertion failed and no panic of KiFinalizeThread: its list is empty, and each
  -- thread has been finalized as often as before and once more where it was listed.
  pub reap_terminated_threads-Reaps :
      (w : World)
      → IsThreads w
      → Reaps w (reap_terminated_threads reclaim (suc (length w.threads.terminated_list)) w.threads)
  reap_terminated_threads-Reaps w v = reap-Reaps w.threads.terminated_list w v refl
