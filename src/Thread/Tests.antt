-- ===== src/Thread/Tests.antt =====
-- The theorems at a thread that ends and is joined, and at one that ends detached.
use himu_os.Prelude.{
  some, count, ℕ, suc, ◌≤◌, ◌<◌, ◌≡◌, ◌==◌, refl, inl, inr, Bool-cases, true, false, [], ◌∷◌,
  length, if◌then◌else◌, ok, ec_success, arith,
}
use himu_os.Irql.{passive_level}
use himu_os.Thread.Lifecycle.{
  joinable, detached, unclaimed, join_in_progress, consumed, Life, Threads, put_life, waits,
  finalizes, thread_exit, join_begin, join_claimed, join_end, consume,
  mark_thread_termination_consumed, Reclaim, finalize_thread, finalize_user_runtime,
  release_stack_range, reap_terminated_threads,
}
use himu_os.Thread.Ended.{World, IsThreads}
use himu_os.Thread.Reaped.{IsReclaim, Reaps, reap_terminated_threads-Reaps}
use himu_os.Thread.Interleaving.{
  Steps, done, after, exits, joins, wakes, finalization, NoPanic, Steps-NoPanic,
}

abbrev running : Life
running = record { terminated = false; published = false; mode = joinable; claim = unclaimed }

abbrev started : Threads
started = record { lives = λ t. running; terminated_list = []; finalized = []; idle = 0 }

abbrev at_rest : Threads → World
at_rest s = record { threads = s; joiners = []; pending = [] }

started-IsThreads : IsThreads (at_rest started)
started-IsThreads = record {
  each = λ t. (refl, refl, refl, refl, refl, refl);
  idle_runs = refl;
  idle_free = refl;
}

-- The user runtime owns thread 1, whose stack is of the kernel's virtual allocator.
abbrev kernel : Reclaim
kernel = record {
  owns_thread = λ t. t == 1;
  finalize_hook = some (λ t. ec_success);
  stack_owned_by_kva = λ t. t == 1;
  release_stack = λ t. ec_success;
}

kernel-IsReclaim : IsReclaim kernel
kernel-IsReclaim = record {
  finalizes_owned = λ t e. (λ x. ec_success, refl, refl);
  releases_owned = λ t e. refl;
}

-- Thread 2 joins thread 1, which then ends; the join's wait ends, and thread 1 is finalized.
abbrev claimed : Threads
claimed = put_life started 1 (record running { claim = join_in_progress })

abbrev exited : Threads
exited =
    put_life claimed 1
      (record running { claim = join_in_progress; terminated = true; published = true })

abbrev joined : Threads
joined =
    put_life exited 1 (record running { claim = consumed; terminated = true; published = true })

abbrev freed : Threads
freed = record joined { finalized = 1 ∷ [] }

one_join : join_begin passive_level started 2 1 5 ≡ ok (claimed, waits)
unfolding join_begin join_claimed
one_join = refl

one_exit : thread_exit passive_level claimed 1 0 ≡ ok exited
unfolding thread_exit
one_exit = refl

one_wake : join_end exited 1 ec_success ≡ ok (joined, finalizes)
unfolding join_end consume mark_thread_termination_consumed
one_wake = refl

one_finalization : finalize_thread kernel joined 1 ≡ ok freed
unfolding finalize_thread finalize_user_runtime release_stack_range
one_finalization = refl

life_of_one : Steps kernel (at_rest started) (at_rest freed)
life_of_one =
    after (record { threads = joined; joiners = []; pending = 1 ∷ [] }) (at_rest freed)
      (after (record { threads = exited; joiners = 1 ∷ []; pending = [] })
        (record { threads = joined; joiners = []; pending = 1 ∷ [] })
        (after (record { threads = claimed; joiners = 1 ∷ []; pending = [] })
          (record { threads = exited; joiners = 1 ∷ []; pending = [] })
          (after (at_rest started) (record { threads = claimed; joiners = 1 ∷ []; pending = [] })
            done (joins 2 1 5 waits claimed one_join))
          (exits 1 exited (omega arith) refl one_exit))
        (wakes 1 ec_success finalizes joined (λ q. absurd (omega arith)) (λ e. refl) one_wake))
      (finalization 1 freed (λ q. absurd (omega arith)) one_finalization)

Steps-NoPanic_example :
    IsThreads (at_rest freed)
    × ((t : ℕ) → count t freed.finalized ≤ 1)
    × ((t : ℕ) → 0 < count t freed.finalized → (freed.lives t).terminated ≡ true)
    × ((t : ℕ) → count t [] ≤ 1)
    × NoPanic kernel (at_rest freed)
Steps-NoPanic_example =
    Steps-NoPanic kernel (at_rest started) (at_rest freed) kernel-IsReclaim started-IsThreads
      life_of_one

-- Thread 3 has ended detached.
abbrev left : Threads
left = record {
  lives = λ t.
      if t == 3
      then record { terminated = true; published = true; mode = detached; claim = unclaimed }
      else running;
  terminated_list = 3 ∷ [];
  finalized = [];
  idle = 0;
}

left-IsThreads : IsThreads (at_rest left)
left-IsThreads = record {
  each = λ t. elim (Bool-cases (t == 3)) [
    | inl e ↦
        let there : (3 == t) ≡ true = ground arith in
        rw (e, there) (refl, refl, refl, refl, refl, refl)
    | inr e ↦
        let there : (3 == t) ≡ false = ground arith in
        rw (e, there) (refl, refl, refl, refl, refl, refl)
  ];
  idle_runs = refl;
  idle_free = refl;
}

reap_terminated_threads-Reaps_example :
    Reaps (at_rest left) (reap_terminated_threads kernel (suc (length left.terminated_list)) left)
reap_terminated_threads-Reaps_example =
    reap_terminated_threads-Reaps kernel kernel-IsReclaim (at_rest left) left-IsThreads
