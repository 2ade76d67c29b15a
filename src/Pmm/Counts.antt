-- ===== src/Pmm/Counts.antt =====
-- How many pages are in each state, and how an update of a range moves pages between the counts.
use himu_os.Prelude.{ℕ, zero, suc, ◌+◌, ◌*◌, ◌≤◌, ◌<◌, ◌≡◌, refl, ◌==◌, if◌then◌else◌, arith}
use himu_os.Pmm.Bitmap.{Context, get_state, set_state, set_range}
use himu_os.Pmm.Pages.{
  IsBuffer, get_state-lt, get_state-set_state, set_state-IsBuffer, total-set_state,
}

-- 1 where the states agree.
abbrev pub hit : ℕ → ℕ → ℕ
hit s t = if s == t then 1 else 0

-- The pages below `n` in state `s`.
unfoldable pub count_state : Context → ℕ → ℕ → ℕ
count_state ctx s zero = 0
count_state ctx s (suc n) = hit (get_state ctx n) s + count_state ctx s n

pub count_state-le : (ctx : Context) (s n : ℕ) → count_state ctx s n ≤ n
unfolding count_state
count_state-le ctx s zero = omega arith
count_state-le ctx s (suc n) = ground (arith, count_state-le ctx s n)

-- Every page is in one of four states.
pub count_states :
    (ctx : Context) (n : ℕ)
    → IsBuffer ctx
    → count_state ctx 0 n + count_state ctx 1 n + count_state ctx 2 n + count_state ctx 3 n ≡ n
unfolding count_state
count_states ctx zero b = refl
count_states ctx (suc n) b = ground (arith, count_states ctx n b, get_state-lt ctx n b)

module _ (ctx : Context) (i s t : ℕ) (b : IsBuffer ctx) (inside : i < ctx.total_managed_pages)
    (legal : s < 4) where
  count-beyond : (n : ℕ) → n ≤ i → count_state (set_state ctx i s) t n ≡ count_state ctx t n
  unfolding count_state
  count-beyond zero h = refl
  count-beyond (suc n) h =
      ground (arith, count-beyond n, get_state-set_state ctx i s n b inside legal)

  count-set_state :
      (n : ℕ)
      → i < n
      → count_state (set_state ctx i s) t n + hit (get_state ctx i) t
        ≡ count_state ctx t n + hit s t
  unfolding count_state
  count-set_state zero h = absurd (omega arith)
  count-set_state (suc n) h =
      ground
        (arith, count-set_state n, count-beyond n, get_state-set_state ctx i s n b inside legal)

-- Turning `k` pages from state `a` into state `s` moves `k` pages between the two counts.
pub count-set_range :
    (ctx : Context) (start k a s t n : ℕ)
    → IsBuffer ctx
    → start + k ≤ n
    → n ≤ ctx.total_managed_pages
    → s < 4
    → ((j : ℕ) → start ≤ j → j < start + k → get_state ctx j ≡ a)
    → count_state (set_range ctx start k s) t n + k * hit a t ≡ count_state ctx t n + k * hit s t
unfolding set_range
count-set_range ctx start zero a s t n b fits small legal all = omega arith
count-set_range ctx start (suc k) a s t n b fits small legal all = ground (
  arith,
  count-set_range (set_state ctx start s) (start + 1) k a s t n
      (set_state-IsBuffer ctx start s b legal) (omega arith)
      (omega (arith, total-set_state ctx start s)) legal
      (λ j lo hi. ground (
        arith,
        get_state-set_state ctx start s j b (omega arith) legal,
        all j (omega arith) (omega arith),
      )),
  count-set_state ctx start s t b (omega arith) legal n (omega arith),
  all start (omega arith) (omega arith),
)
