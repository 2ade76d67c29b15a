-- ===== src/Thread/Claims.antt =====
-- The operations around the end of a thread keep what holds of its life, and fail no assertion.
use himu_os.Prelude.{
  count, ℕ, ◌≡◌, ◌≢◌, inl, inr, refl, sym, ◌∙◌, true, false, ◌||◌, ◌==◌, Bool-cases, ok, Status,
  ec_success, ec_invalid_state, ec_timeout, arith, ◌++◌, List, [], ◌∷◌, ◌+◌, subst,
}
use himu_os.Irql.{passive_level}
use himu_os.Wait.State.{remove}
use himu_os.Thread.Lifecycle.{
  detached, unclaimed, join_in_progress, consumed, Life, Threads, is_detached, is_consumed,
  is_join_in_progress, put_life, is_completed, queue_detached_thread_for_reaper,
  mark_thread_termination_consumed, release_thread_join_claim, thread_exit, Joining, returns, waits,
  finalizes, consume, give_up, join_claimed, join_begin, is_success, join_end, thread_detach,
}
use himu_os.Thread.Ended.{
  World, LifeOk, IsThreads, IsOnly, IsOnly-same, IsOnly-more, IsOnly-less, IsOnly-append,
  IsOnly-removed, count-append, count-remove, written-IsThreads, outcome, self-true,
  in_progress-fresh,
}

-- The threads with a life written, and with the thread at the end of the reaper's list.
abbrev listed_too : Threads → ℕ → Life → Threads
listed_too s t l = record (put_life s t l) { terminated_list = s.terminated_list ++ (t ∷ []) }

module _ (w : World) (t : ℕ) (v : IsThreads w) (ne : t ≢ w.threads.idle) where
  -- The handing over to the reaper passes its assertions.
  queued :
      (l : Life)
      → l.terminated ≡ true
      → l.published ≡ true
      → is_detached l.mode ≡ true
      → is_join_in_progress l.claim ≡ false
      → is_consumed l.claim ≡ false
      → count t w.threads.terminated_list ≡ 0
      → queue_detached_thread_for_reaper (put_life w.threads t l) t ≡ ok (listed_too w.threads t l)
  unfolding queue_detached_thread_for_reaper
  queued l ended told goes free_claim claim absent =
      let self : (t == t) ≡ true = self-true t in
      let other : (t == w.threads.idle) ≡ false = ground arith in
      rw (other, self, ended, told, goes, free_claim, claim, absent) refl

  -- The life alone is written.
  put_life-IsThreads :
      (l : Life) (rest : List ℕ)
      → IsOnly t rest w.joiners
      → LifeOk l
          (count t w.threads.terminated_list)
          (count t w.pending + count t w.threads.finalized)
          (count t rest)
      → IsThreads (record { threads = put_life w.threads t l; joiners = rest; pending = w.pending })
  put_life-IsThreads l rest joins good =
      written-IsThreads w t v ne l w.threads.terminated_list w.threads.finalized rest w.pending
        (IsOnly-same t w.threads.terminated_list) (IsOnly-same t w.threads.finalized) joins
        (IsOnly-same t w.pending) good

  -- The thread is listed too.
  listed_too-IsThreads :
      (l : Life)
      → LifeOk l
          (count t w.threads.terminated_list + 1)
          (count t w.pending + count t w.threads.finalized)
          (count t w.joiners)
      → IsThreads (record w { threads = listed_too w.threads t l })
  listed_too-IsThreads l good =
      written-IsThreads w t v ne l (w.threads.terminated_list ++ (t ∷ [])) w.threads.finalized
        w.joiners w.pending (IsOnly-append t w.threads.terminated_list)
        (IsOnly-same t w.threads.finalized) (IsOnly-same t w.joiners) (IsOnly-same t w.pending)
        (rw (count-append t t w.threads.terminated_list, self-true t) good)

  -- An exit of a thread that runs and owns no mutex succeeds and keeps the invariant.
  pub thread_exit-IsThreads :
      (w.threads.lives t).terminated ≡ false
      → (s' : Threads) × (thread_exit passive_level w.threads t 0 ≡ ok s')
        × IsThreads (record w { threads = s' })
  unfolding thread_exit
  thread_exit-IsThreads runs =
      let x = w.threads.lives t in
      let l : Life = record x { terminated = true; published = true } in
      let other : (t == w.threads.idle) ≡ false = ground arith in
      let (pub_same, no_join, alive, listed, given, joins) = v.each t in
      let claim : is_consumed x.claim ≡ false = ground (arith, runs, alive) in
      let absent : count t w.threads.terminated_list ≡ 0 = ground (arith, runs, listed) in
      elim (Bool-cases (is_detached x.mode)) [
        | inr stays ↦ (
          put_life w.threads t l,
          rw (other, stays) refl,
          put_life-IsThreads l w.joiners (IsOnly-same t w.joiners)
              (refl, no_join, ground (arith, claim), ground (arith, stays, absent), given, joins),
        )
        | inl goes ↦
            let free_claim : is_join_in_progress x.claim ≡ false = ground (arith, goes, no_join) in
            (
              listed_too w.threads t l,
              rw (other, goes, queued l refl refl goes free_claim claim absent) refl,
              listed_too-IsThreads l (
                refl,
                no_join,
                ground (arith, claim),
                ground (arith, goes, claim, absent),
                given,
                joins,
              ),
            )
      ]

  module _ (rest : List ℕ) (only : IsOnly t rest w.joiners) (alone : count t rest ≡ 0)
      (claimed : is_join_in_progress (w.threads.lives t).claim ≡ true) where
    -- The end is consumed by the join, which finalizes the thread next.
    consume-IsThreads :
        (w.threads.lives t).terminated ≡ true
        → (s' : Threads) × (consume w.threads t ≡ ok (s', finalizes))
          × IsThreads (outcome w rest s' t finalizes)
    unfolding consume mark_thread_termination_consumed
    consume-IsThreads ended =
        let x = w.threads.lives t in
        let l : Life = record x { claim = consumed } in
        let (pub_same, no_join, alive, listed, given, joins) = v.each t in
        let fresh : is_consumed x.claim ≡ false = in_progress-fresh x.claim claimed in
        let stays : is_detached x.mode ≡ false = ground (arith, claimed, no_join) in
        let self : (t == t) ≡ true = self-true t in
        (
          put_life w.threads t l,
          rw fresh refl,
          written-IsThreads w t v ne l w.threads.terminated_list w.threads.finalized rest
              (t ∷ w.pending) (IsOnly-same t w.threads.terminated_list)
              (IsOnly-same t w.threads.finalized) only (IsOnly-more t w.pending)
              (
                pub_same,
                ground (arith, stays),
                ground (arith, ended),
                ground (arith, stays, listed),
                rw self (ground (arith, fresh, given)),
                alone,
              ),
        )

    -- A claim given up.
    give_up-IsThreads :
        (status : Status)
        → (s' : Threads) × (give_up w.threads t status ≡ ok (s', returns status))
          × IsThreads (outcome w rest s' t (returns status))
    unfolding give_up release_thread_join_claim
    give_up-IsThreads status =
        let x = w.threads.lives t in
        let l : Life = record x { claim = unclaimed } in
        let (pub_same, no_join, alive, listed, given, joins) = v.each t in
        let fresh : is_consumed x.claim ≡ false = in_progress-fresh x.claim claimed in
        let stays : is_detached x.mode ≡ false = ground (arith, claimed, no_join) in
        (
          put_life w.threads t l,
          rw claimed refl,
          put_life-IsThreads l rest only (
            pub_same,
            ground (arith, stays),
            refl,
            ground (arith, stays, listed),
            ground (arith, fresh, given),
            alone,
          ),
        )

  -- A detach, on every branch.
  pub thread_detach-IsThreads :
      (s' : Threads) × (status : Status) × (thread_detach w.threads t ≡ ok (s', status))
      × IsThreads (record w { threads = s' })
  unfolding thread_detach
  thread_detach-IsThreads =
      let x = w.threads.lives t in
      elim (Bool-cases (
        (t == w.threads.idle)
        || (is_detached x.mode || (is_consumed x.claim || is_join_in_progress x.claim)))) [
          | inl e ↦ (w.threads, ec_invalid_state, rw e refl, v)
          | inr e ↦
              let l : Life = record x { mode = detached } in
              let stays : is_detached x.mode ≡ false = ground (arith, e) in
              let claim : is_consumed x.claim ≡ false = ground (arith, e) in
              let free_claim : is_join_in_progress x.claim ≡ false = ground (arith, e) in
              let (pub_same, no_join, alive, listed, given, joins) = v.each t in
              let absent : count t w.threads.terminated_list ≡ 0 = ground (arith, stays, listed) in
              elim (Bool-cases x.terminated) [
                | inl ended ↦
                    let told : x.published ≡ true = pub_same ∙ ended in
                    let done : is_completed x ≡ true = ground (arith, ended, told) in
                    (
                      listed_too w.threads t l,
                      ec_success,
                      rw (e, done, queued l ended told refl free_claim claim absent) refl,
                      listed_too-IsThreads l (
                        pub_same,
                        free_claim,
                        alive,
                        ground (arith, ended, claim, absent),
                        given,
                        joins,
                      ),
                    )
                | inr runs ↦ (
                  put_life w.threads t l,
                  ec_success,
                  rw (e, runs) refl,
                  put_life-IsThreads l w.joiners (IsOnly-same t w.joiners)
                      (pub_same, free_claim, alive, ground (arith, runs, absent), given, joins),
                )
              ]
        ]

-- A join with its claim, the first of `joiners`, on every branch.
join_claimed-IsThreads :
    (w : World) (t : ℕ) (rest : List ℕ) (timeout : ℕ)
    → IsThreads (record w { joiners = t ∷ rest })
    → t ≢ w.threads.idle
    → is_join_in_progress (w.threads.lives t).claim ≡ true
    → (s' : Threads) × (r : Joining) × (join_claimed w.threads t timeout ≡ ok (s', r))
      × IsThreads (outcome w rest s' t r)
unfolding join_claimed
join_claimed-IsThreads w t rest timeout v ne claimed =
    let w1 : World = record w { joiners = t ∷ rest } in
    let x = w.threads.lives t in
    let (pub_same, no_join, alive, listed, given, joins) = v.each t in
    let self : (t == t) ≡ true = self-true t in
    let alone : count t rest ≡ 0 = ground (arith, self, claimed, joins) in
    elim (Bool-cases (is_completed x)) [
      | inl done ↦
          let ended : x.terminated ≡ true = ground (arith, done) in
          let (s', run, v') =
            consume-IsThreads w1 t v ne rest (IsOnly-less t rest) alone claimed ended in
          (s', finalizes, rw (done, run) refl, v')
      | inr later ↦ elim (Bool-cases (timeout == 0)) [
        | inl z ↦
            let (s', run, v') =
              give_up-IsThreads w1 t v ne rest (IsOnly-less t rest) alone claimed ec_timeout in
            (s', returns ec_timeout, rw (later, z, run) refl, v')
        | inr z ↦ (w.threads, waits, rw (later, z) refl, v)
      ]
    ]

-- A join up to its wait, on every branch.
pub join_begin-IsThreads :
    (w : World) (t current timeout : ℕ)
    → IsThreads w
    → (s' : Threads) × (r : Joining) × (join_begin passive_level w.threads current t timeout
        ≡ ok (s', r))
      × IsThreads (outcome w w.joiners s' t r)
unfolding join_begin
join_begin-IsThreads w t current timeout v =
    let x = w.threads.lives t in
    elim (Bool-cases (
      (t == current)
      || ((current == w.threads.idle)
          || ((t == w.threads.idle)
              || (is_detached x.mode || (is_consumed x.claim || is_join_in_progress x.claim)))))) [
                | inl e ↦ (w.threads, returns ec_invalid_state, rw e refl, v)
                | inr e ↦
                    let l : Life = record x { claim = join_in_progress } in
                    let ne : t ≢ w.threads.idle = ground (arith, e) in
                    let stays : is_detached x.mode ≡ false = ground (arith, e) in
                    let claim : is_consumed x.claim ≡ false = ground (arith, e) in
                    let free_claim : is_join_in_progress x.claim ≡ false = ground (arith, e) in
                    let (pub_same, no_join, alive, listed, given, joins) = v.each t in
                    let self : (t == t) ≡ true = self-true t in
                    let claimed =
                      put_life-IsThreads w t v ne l (t ∷ w.joiners) (IsOnly-more t w.joiners) (
                        pub_same,
                        ground (arith, stays),
                        refl,
                        ground (arith, stays, listed),
                        ground (arith, claim, given),
                        ground (arith, self, free_claim, joins),
                      ) in
                    rw e (
                      join_claimed-IsThreads (record w { threads = put_life w.threads t l }) t
                        w.joiners timeout claimed ne (rw self refl))
              ]

-- A join after its wait: it still holds the claim, and a wait that succeeds found the thread ended.
pub join_end-IsThreads :
    (w : World) (t : ℕ) (status : Status)
    → IsThreads w
    → count t w.joiners ≢ 0
    → (is_success status ≡ true → (w.threads.lives t).published ≡ true)
    → (s' : Threads) × (r : Joining) × (join_end w.threads t status ≡ ok (s', r))
      × IsThreads (outcome w (remove t w.joiners) s' t r)
unfolding join_end
join_end-IsThreads w t status v waiting signaled =
    let x = w.threads.lives t in
    let (pub_same, no_join, alive, listed, given, joins) = v.each t in
    let claimed : is_join_in_progress x.claim ≡ true = ground (arith, waiting, joins) in
    let stays : is_detached x.mode ≡ false = ground (arith, claimed, no_join) in
    let ne : t ≢ w.threads.idle = λ same. cc (
      claimed,
      subst (λ i. is_join_in_progress (w.threads.lives i).claim ≡ false) (sym same) v.idle_free,
    ) in
    let only = IsOnly-removed t w.joiners in
    let alone : count t (remove t w.joiners) ≡ 0 =
      count-remove t w.joiners ∙ ground (arith, claimed, joins) in
    elim (Bool-cases (is_success status)) [
      | inr e ↦
          let (s', run, v') =
            give_up-IsThreads w t v ne (remove t w.joiners) only alone claimed status in
          (s', returns status, rw (e, claimed, run) refl, v')
      | inl e ↦
          let told = signaled e in
          let ended : x.terminated ≡ true = sym pub_same ∙ told in
          let (s', run, v') =
            consume-IsThreads w t v ne (remove t w.joiners) only alone claimed ended in
          (s', finalizes, rw (e, stays, ended, told, claimed, run) refl, v')
    ]
