-- ===== src/Pool/GivenBack.antt =====
-- Giving back the pages of a list, one by one.
use himu_os.Prelude.{ℕ, ◌+◌, ◌≤◌, ◌<◌, ◌≡◌, refl, ap, ◌∙◌, true, List, [], ◌∷◌, ◌==◌, count, arith}
use himu_os.Pool.Machine.{Pages, IsPages}
use himu_os.Pool.Operations.{Run, then_freed}
use himu_os.Pool.Start.{free_pages}

-- The pages of the list are handed out less often, by how often they stand in it.
abbrev pub IsGivenBack : {M : Type 0} → (M → ℕ → ℕ) → M → List ℕ → M → Type 0
IsGivenBack held m bs m' = (c : ℕ) → held m' c + count c bs ≡ held m c

module _ {M : Type 0} (os : Pages M) (held : M → ℕ → ℕ) (laws : IsPages os held) where
  pub free_page-IsGivenBack :
      {A : Type 0} (m : M) (b : ℕ) (next : M → Run M A)
      → 0 < held m b
      → (m' : M) × (then_freed (os.free_page m b) next ≡ next m') × IsGivenBack held m (b ∷ []) m'
  free_page-IsGivenBack m b next has =
      let (m', run, after) = laws.takes m b has in
      (m', ap (λ r. then_freed r next) run, λ c. ground (arith, after c, has))

  pub free_pages-IsGivenBack :
      {A : Type 0} (bs : List ℕ) (m : M) (next : M → Run M A)
      → ((c : ℕ) → count c bs ≤ held m c)
      → (m' : M) × (free_pages os bs next m ≡ next m') × IsGivenBack held m bs m'
  unfolding free_pages
  free_pages-IsGivenBack [] m next has = (m, refl, λ c. omega arith)
  free_pages-IsGivenBack (b ∷ bs) m next has =
      let self : (b == b) ≡ true = ground arith in
      let (m1, run1, back1) =
        free_page-IsGivenBack m b (free_pages os bs next) (ground (arith, has b, self)) in
      let (m2, run2, back2) =
        free_pages-IsGivenBack bs m1 next (λ c. ground (arith, has c, back1 c)) in
      (m2, run1 ∙ run2, λ c. ground (arith, back1 c, back2 c))
