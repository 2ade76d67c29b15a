-- ===== src/Pool/Machine.antt =====
-- The pages behind a pool: KeHeapAllocPages(1) and KeHeapFreePages, as operations on a state of any
-- type, with what the pool relies on.
use himu_os.Prelude.{
  ℕ, ◌+◌, ◌-◌, ◌%◌, ◌^◌, ◌≤◌, ◌<◌, ◌≡◌, Status, ec_success, Result, ok, err, ◌==◌, if◌then◌else◌,
}

pub record Pages (M : Type 0) : Type 0 where
  pub alloc_page : M → Result ℕ × M
  pub free_page : M → ℕ → Status × M

-- What an allocation that gave a page did, by how often each page is handed out.
abbrev pub IsGiven : {M : Type 0} → (M → ℕ → ℕ) → M → ℕ → M → Type 0
IsGiven held m b m' =
    (b % 4096 ≡ 0)
    × (0 < b)
    × (b + 4096 ≤ 2 ^ 64)
    × (◌≡◌ {A = ℕ} (held m b) 0)
    × ((a : ℕ) → held m' a ≡ (if b == a then 1 else held m a))

-- An allocation gives an aligned page that is not handed out, or nothing changes; a page handed out
-- can be given back, once.
pub record IsPages {M : Type 0} (os : Pages M) (held : M → ℕ → ℕ) : Type 0 where
  pub gives : (m m' : M) (b : ℕ) → os.alloc_page m ≡ (ok b, m') → IsGiven held m b m'
  pub fails :
      (m m' : M) (e : Status) → os.alloc_page m ≡ (err e, m') → (a : ℕ) → held m' a ≡ held m a
  pub takes :
      (m : M) (b : ℕ)
      → 0 < held m b
      → (m' : M) × (os.free_page m b ≡ (ec_success, m'))
        × ((a : ℕ) → held m' a ≡ (if b == a then held m a - 1 else held m a))
