-- ===== src/Thread/Ended.antt =====
-- What holds of every thread around its end, and the writes that keep it.
use himu_os.Prelude.{
  count, ℕ, ◌+◌, ◌-◌, ◌≡◌, ◌≢◌, inl, inr, refl, sym, subst, ap, ◌∙◌, true, false, ◌&&◌, not, List,
  [], ◌∷◌, ◌++◌, ◌==◌, if◌then◌else◌, Bool-cases, arith,
}
use himu_os.Wait.State.{remove}
use himu_os.Thread.Lifecycle.{
  ClaimState, unclaimed, join_in_progress, consumed, Life, Threads, is_detached, is_consumed,
  is_join_in_progress, Joining, returns, waits, finalizes,
}

-- The threads, with what is under way between the critical sections: `joiners` has the thread of every
-- join that waits, `pending` the thread of every call of KiFinalizeThread that is still to come.
pub record World : Type 0 where
  pub threads : Threads
  pub joiners : List ℕ
  pub pending : List ℕ

-- A life, with how often its thread is in the reaper's list, was or will be finalized, and is waited for
-- by a join. A completion is published with the end, a detached thread has no join in progress, only
-- ended threads are consumed; the reaper's list has the detached ones that ended and are not consumed,
-- once; exactly the consumed ones are finalized, once; one join waits where one is in progress.
abbrev pub LifeOk : Life → ℕ → ℕ → ℕ → Type 0
LifeOk l listed given joins =
    (l.published ≡ l.terminated)
    × ((is_detached l.mode && is_join_in_progress l.claim) ≡ false)
    × ((is_consumed l.claim && not l.terminated) ≡ false)
    × (listed
        ≡ (if l.terminated && (is_detached l.mode && not (is_consumed l.claim)) then 1 else 0))
    × (given ≡ (if is_consumed l.claim then 1 else 0))
    × (joins ≡ (if is_join_in_progress l.claim then 1 else 0))

abbrev pub IsLife : World → ℕ → Type 0
IsLife w t =
    LifeOk (w.threads.lives t) (count t w.threads.terminated_list)
      (count t w.pending + count t w.threads.finalized) (count t w.joiners)

pub record IsThreads (w : World) : Type 0 where
  pub each : (t : ℕ) → IsLife w t
  pub idle_runs : (w.threads.lives w.threads.idle).terminated ≡ false
  pub idle_free : is_join_in_progress (w.threads.lives w.threads.idle).claim ≡ false

-- Two lists differ in how often they have `t`, and in no other entry.
abbrev pub IsOnly : ℕ → List ℕ → List ℕ → Type 0
IsOnly t xs ys = (a : ℕ) → a ≢ t → count a xs ≡ count a ys

pub IsOnly-same : (t : ℕ) (xs : List ℕ) → IsOnly t xs xs
IsOnly-same t xs a ne = refl

pub IsOnly-more : (t : ℕ) (xs : List ℕ) → IsOnly t (t ∷ xs) xs
IsOnly-more t xs a ne = let apart : (t == a) ≡ false = ground arith in rw apart refl

pub IsOnly-less : (t : ℕ) (xs : List ℕ) → IsOnly t xs (t ∷ xs)
IsOnly-less t xs a ne = let apart : (t == a) ≡ false = ground arith in rw apart refl

pub count-append :
    (t x : ℕ) (xs : List ℕ) → count t (xs ++ (x ∷ [])) ≡ count t xs + (if x == t then 1 else 0)
count-append t x [] = ground arith
count-append t x (y ∷ ys) = ground (arith, count-append t x ys)

pub IsOnly-append : (t : ℕ) (xs : List ℕ) → IsOnly t (xs ++ (t ∷ [])) xs
IsOnly-append t xs a ne =
    let apart : (t == a) ≡ false = ground arith in count-append a t xs ∙ rw apart (omega arith)

pub count-remove : (t : ℕ) (xs : List ℕ) → count t (remove t xs) ≡ count t xs - 1
count-remove t [] = omega arith
count-remove t (x ∷ xs) = elim (Bool-cases (x == t)) [
  | inl e ↦ rw e (omega arith)
  | inr e ↦ rw (e, e) (count-remove t xs)
]

pub IsOnly-removed : (t : ℕ) (xs : List ℕ) → IsOnly t (remove t xs) xs
IsOnly-removed t [] a ne = refl
IsOnly-removed t (x ∷ xs) a ne = elim (Bool-cases (x == t)) [
  | inl e ↦ let apart : (x == a) ≡ false = ground (arith, e) in rw (e, apart) refl
  | inr e ↦ rw e (ground (arith, IsOnly-removed t xs a ne))
]

-- The world after the writes of one thread.
abbrev pub written : World → ℕ → Life → List ℕ → List ℕ → List ℕ → List ℕ → World
written w t l listed finalized joiners pending = record {
  threads = record (w.threads) {
    lives = λ a. if a == t then l else w.threads.lives a;
    terminated_list = listed;
    finalized = finalized;
  };
  joiners = joiners;
  pending = pending;
}

pub self-true : (t : ℕ) → (t == t) ≡ true
self-true t = ground arith

-- The invariant after an operation on one thread.
pub changed-IsThreads :
    (w w' : World) (t : ℕ)
    → IsThreads w
    → t ≢ w.threads.idle
    → w'.threads.idle ≡ w.threads.idle
    → ((a : ℕ) → a ≢ t → w'.threads.lives a ≡ w.threads.lives a)
    → IsOnly t w'.threads.terminated_list w.threads.terminated_list
    → IsOnly t w'.threads.finalized w.threads.finalized
    → IsOnly t w'.joiners w.joiners
    → IsOnly t w'.pending w.pending
    → IsLife w' t
    → IsThreads w'
changed-IsThreads w w' t v ne idle lives lists gives joins pends good = record {
  each = each;
  idle_runs = rw idle (ap (λ l. l.terminated) kept ∙ v.idle_runs);
  idle_free = rw idle (ap (λ l. is_join_in_progress l.claim) kept ∙ v.idle_free);
}
  where
    kept : w'.threads.lives w.threads.idle ≡ w.threads.lives w.threads.idle
    kept = lives w.threads.idle (λ e. ne (sym e))

    each : (a : ℕ) → IsLife w' a
    each a = elim (Bool-cases (a == t)) [
      | inl e ↦ let same : a ≡ t = ground arith in subst (IsLife w') (sym same) good
      | inr e ↦
          let other : a ≢ t = ground arith in
          rw (lives a other, lists a other, gives a other, joins a other, pends a other) (v.each a)
    ]

-- The invariant after the writes of one thread.
pub written-IsThreads :
    (w : World) (t : ℕ)
    → IsThreads w
    → t ≢ w.threads.idle
    → (l : Life) (listed finalized joiners pending : List ℕ)
    → IsOnly t listed w.threads.terminated_list
    → IsOnly t finalized w.threads.finalized
    → IsOnly t joiners w.joiners
    → IsOnly t pending w.pending
    → LifeOk l (count t listed) (count t pending + count t finalized) (count t joiners)
    → IsThreads (written w t l listed finalized joiners pending)
written-IsThreads w t v ne l listed finalized joiners pending lists gives joins pends good =
    changed-IsThreads w (written w t l listed finalized joiners pending) t v ne refl
      (λ a other. let apart : (a == t) ≡ false = ground arith in rw apart refl) lists gives joins
      pends (rw (self-true t) good)

-- The world after a step of a join on `t`, where `rest` has the joins that wait besides it.
abbrev pub outcome : World → List ℕ → Threads → ℕ → Joining → World
outcome w rest s t (returns status) = record { threads = s; joiners = rest; pending = w.pending }
outcome w rest s t waits = record { threads = s; joiners = t ∷ rest; pending = w.pending }
outcome w rest s t finalizes = record { threads = s; joiners = rest; pending = t ∷ w.pending }

pub in_progress-fresh : (c : ClaimState) → is_join_in_progress c ≡ true → is_consumed c ≡ false
in_progress-fresh unclaimed e = refl
in_progress-fresh join_in_progress e = refl
in_progress-fresh consumed e = absurd (cc e)
