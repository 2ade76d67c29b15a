-- ===== src/Kva/HeapStarted.antt =====
-- The state that KeKvaInit sets up is one of the heap, where nothing of the heap is mapped.
use himu_os.Prelude.{ℕ, ◌+◌, ◌*◌, ◌≤◌, ◌<◌, ◌≡◌, ◌≢◌, ◌⊎◌, inl, inr, refl, ◌==◌, Bool-cases, arith}
use himu_os.Kva.State.{Kva, arena_at}
use himu_os.Kva.Machine.{Machine}
use himu_os.Kva.Init.{ready}
use himu_os.Kva.Started.{ready-IsKva, number_records-in_use}
use himu_os.Kva.Clear.{FreeUnmapped}
use himu_os.Kva.HeapState.{IsHeap}

-- The other arenas lie in front of the heap.
arenas_apart :
    (s : Kva) (t : ℕ)
    → t < 3
    → t ≢ 2
    → ((arena_at (ready s) t).base_address + (arena_at (ready s) t).page_count * 4096
        ≤ (arena_at (ready s) 2).base_address)
      ⊎ ((arena_at (ready s) 2).base_address + (arena_at (ready s) 2).page_count * 4096
          ≤ (arena_at (ready s) t).base_address)
unfolding ready
arenas_apart s t small other = elim (Bool-cases (t == 0)) [
  | inl e ↦ let here : t ≡ 0 = ground arith in rw here (inl (omega arith))
  | inr e ↦ let here : t ≡ 1 = ground arith in rw here (inr (omega arith))
]

pub ready-IsHeap :
    {M : Type 0} (os : Machine M) (backed : M → ℕ → Type 0) (s : Kva) (m : M)
    → FreeUnmapped os (ready s) m
    → IsHeap os backed (ready s) m
unfolding ready
ready-IsHeap os backed s m clear = record {
  valid = ready-IsKva s;
  on = refl;
  clear = clear;
  aligned = (omega arith, omega arith);
  apart = arenas_apart s;
  full = λ i used heap. absurd (cc (used, number_records-in_use 512 0 i));
}
