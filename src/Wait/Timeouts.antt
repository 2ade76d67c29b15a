-- ===== src/Wait/Timeouts.antt =====
-- The timeout queue stays sorted, and what is due is woken from its head.
use himu_os.Prelude.{
  ℕ, ◌≤◌, ◌<◌, ◌≡◌, refl, ap, inl, inr, List, [], ◌∷◌, ◌++◌, ltb, Bool-cases, arith,
}
use himu_os.Wait.State.{Scheduler}
use himu_os.Wait.Complete.{insert_by_deadline, insert_timeout_queue, deadline_of}

-- Every entry of the list has a deadline at most, or beyond, a limit.
abbrev pub AllUpTo : (ℕ → ℕ) → ℕ → List ℕ → Type 0
AllUpTo deadline limit [] = Unit {0}
AllUpTo deadline limit (x ∷ xs) = (deadline x ≤ limit) × AllUpTo deadline limit xs

abbrev pub AllBeyond : (ℕ → ℕ) → ℕ → List ℕ → Type 0
AllBeyond deadline limit [] = Unit {0}
AllBeyond deadline limit (x ∷ xs) = (limit < deadline x) × AllBeyond deadline limit xs

abbrev pub AllFrom : (ℕ → ℕ) → ℕ → List ℕ → Type 0
AllFrom deadline limit [] = Unit {0}
AllFrom deadline limit (x ∷ xs) = (limit ≤ deadline x) × AllFrom deadline limit xs

-- No entry has a later one before it.
abbrev pub IsSorted : (ℕ → ℕ) → List ℕ → Type 0
IsSorted deadline [] = Unit {0}
IsSorted deadline (x ∷ xs) = AllFrom deadline (deadline x) xs × IsSorted deadline xs

pub AllBeyond-from :
    (deadline : ℕ → ℕ) (limit first : ℕ) (xs : List ℕ)
    → limit < first
    → AllFrom deadline first xs
    → AllBeyond deadline limit xs
AllBeyond-from deadline limit first [] beyond all = tt
AllBeyond-from deadline limit first (x ∷ xs) beyond (here, rest) =
    (omega arith, AllBeyond-from deadline limit first xs beyond rest)

pub AllFrom-lower :
    (deadline : ℕ → ℕ) (limit first : ℕ) (xs : List ℕ)
    → limit ≤ first
    → AllFrom deadline first xs
    → AllFrom deadline limit xs
AllFrom-lower deadline limit first [] below all = tt
AllFrom-lower deadline limit first (x ∷ xs) below (here, rest) =
    (omega arith, AllFrom-lower deadline limit first xs below rest)

-- The new entry stands behind those with the same or an earlier deadline, and before the later.
abbrev pub InsertedAt : (ℕ → ℕ) → ℕ → List ℕ → List ℕ → Type 0
InsertedAt deadline t xs ys =
    (before : List ℕ) × (behind : List ℕ) × (xs ≡ before ++ behind)
    × (ys ≡ before ++ (t ∷ behind))
    × AllUpTo deadline (deadline t) before
    × AllBeyond deadline (deadline t) behind

insert_by_deadline-InsertedAt :
    (deadline : ℕ → ℕ) (t : ℕ) (xs : List ℕ)
    → IsSorted deadline xs
    → InsertedAt deadline t xs (insert_by_deadline deadline t xs)
unfolding insert_by_deadline
insert_by_deadline-InsertedAt deadline t [] sorted = ([], [], refl, refl, tt, tt)
insert_by_deadline-InsertedAt deadline t (x ∷ xs) (from, sorted) =
    elim (Bool-cases (ltb (deadline t) (deadline x))) [
      | inl early ↦ (
        [],
        x ∷ xs,
        refl,
        rw (early, insert_by_deadline) refl,
        tt,
        (ground arith, AllBeyond-from deadline (deadline t) (deadline x) xs (ground arith) from),
      )
      | inr late ↦
          let (before, behind, split, at, low, high) =
            insert_by_deadline-InsertedAt deadline t xs sorted in
          (
            x ∷ before,
            behind,
            ap (λ l. x ∷ l) split,
            rw (late, insert_by_deadline) (ap (λ l. x ∷ l) at),
            (ground arith, low),
            high,
          )
    ]

insert_by_deadline-AllFrom :
    (deadline : ℕ → ℕ) (limit t : ℕ) (xs : List ℕ)
    → limit ≤ deadline t
    → AllFrom deadline limit xs
    → AllFrom deadline limit (insert_by_deadline deadline t xs)
unfolding insert_by_deadline
insert_by_deadline-AllFrom deadline limit t [] low all = (low, tt)
insert_by_deadline-AllFrom deadline limit t (x ∷ xs) low (here, rest) =
    elim (Bool-cases (ltb (deadline t) (deadline x))) [
      | inl early ↦ rw (early, insert_by_deadline, AllFrom) (low, (here, rest))
      | inr late ↦
          rw (late, insert_by_deadline, AllFrom)
            (here, insert_by_deadline-AllFrom deadline limit t xs low rest)
    ]

pub insert_by_deadline-IsSorted :
    (deadline : ℕ → ℕ) (t : ℕ) (xs : List ℕ)
    → IsSorted deadline xs
    → IsSorted deadline (insert_by_deadline deadline t xs)
unfolding insert_by_deadline
insert_by_deadline-IsSorted deadline t [] sorted = (tt, tt)
insert_by_deadline-IsSorted deadline t (x ∷ xs) (from, sorted) =
    elim (Bool-cases (ltb (deadline t) (deadline x))) [
      | inl early ↦
          rw (early, insert_by_deadline, IsSorted)
            (
              (
                ground arith,
                AllFrom-lower deadline (deadline t) (deadline x) xs (ground arith) from,
              ),
              (from, sorted),
            )
      | inr late ↦
          rw (late, insert_by_deadline, IsSorted)
            (
              insert_by_deadline-AllFrom deadline (deadline x) t xs (ground arith) from,
              insert_by_deadline-IsSorted deadline t xs sorted,
            )
    ]

-- KiInsertTimeoutQueue keeps the queue sorted, and puts the thread behind those that are due no
-- later and before those that are due later; both keep their order.
insert_timeout_queue-IsSorted :
    (s : Scheduler) (t : ℕ)
    → IsSorted (deadline_of s) s.timeout_queue
    → IsSorted (deadline_of s) (insert_timeout_queue s t).timeout_queue
      × InsertedAt (deadline_of s) t s.timeout_queue (insert_timeout_queue s t).timeout_queue
unfolding insert_timeout_queue
insert_timeout_queue-IsSorted s t sorted = (
  insert_by_deadline-IsSorted (deadline_of s) t s.timeout_queue sorted,
  insert_by_deadline-InsertedAt (deadline_of s) t s.timeout_queue sorted,
)
