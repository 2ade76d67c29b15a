-- ===== src/Pmm/Audit.antt =====
-- `check_invariants` recounts the pages: it succeeds exactly when the counters are right.
use native.Mathlib.Numerals.{add-one}
use himu_os.Prelude.{
  ℕ, zero, suc, ◌+◌, ◌≤◌, ◌<◌, ◌≡◌, ◌↔◌, refl, Result, ok, err, ◌>>=◌, ap, ec_invalid_state, arith,
}
use himu_os.Pmm.Bitmap.{Context, get_state}
use himu_os.Pmm.Sink.{Tally, no_pages, tally_page, tally_from, compare_counts, check_invariants}
use himu_os.Pmm.Pages.{IsBuffer, get_state-lt}
use himu_os.Pmm.Counts.{hit, count_state, count_states}

-- The counters are the numbers of pages in the three states, and no page is in the fourth.
abbrev pub CountsMatch : Context → Type 0
CountsMatch ctx =
    (count_state ctx 3 ctx.total_managed_pages ≡ 0)
    × (count_state ctx 0 ctx.total_managed_pages ≡ ctx.free_pages)
    × (count_state ctx 1 ctx.total_managed_pages ≡ ctx.allocated_pages)
    × (count_state ctx 2 ctx.total_managed_pages ≡ ctx.reserved_pages)

-- The counters after the first `i` pages.
record Agrees (ctx : Context) (i : ℕ) (t : Tally) : Type 0 where
  legal : count_state ctx 3 i ≡ 0
  free : t.free ≡ count_state ctx 0 i
  allocated : t.allocated ≡ count_state ctx 1 i
  reserved : t.reserved ≡ count_state ctx 2 i

module _ (ctx : Context) (b : IsBuffer ctx) where
  count-next : (s i : ℕ) → count_state ctx s (i + 1) ≡ hit (get_state ctx i) s + count_state ctx s i
  unfolding count_state
  count-next s i = rw add-one refl

  count_mono : (s i n : ℕ) → count_state ctx s i ≤ count_state ctx s (i + n)
  count_mono s i zero = let e : i + 0 ≡ i = omega arith in rw e (omega arith)
  count_mono s i (suc n) =
      let e : i + suc n ≡ i + 1 + n = omega arith in
      rw e (omega (arith, count_mono s (i + 1) n, count-next s i))

  -- A round keeps the agreement, and fails only on a page in the fourth state.
  abbrev Round : ℕ → Result Tally → Type 0
  Round i (ok t) = Agrees ctx (i + 1) t
  Round i (err e) = (e ≡ ec_invalid_state) × (get_state ctx i ≡ 3)

  tally_page-Round : (i : ℕ) (t : Tally) → Agrees ctx i t → Round i (tally_page (get_state ctx i) t)
  unfolding tally_page
  tally_page-Round i t a =
      ground (
        arith,
        get_state-lt ctx i b,
        count-next 0 i,
        count-next 1 i,
        count-next 2 i,
        count-next 3 i,
      )

  -- So the loop ends with the counts, or the error when some page is in the fourth state.
  abbrev Loop : ℕ → Result Tally → Type 0
  Loop end (ok t) = Agrees ctx end t
  Loop end (err e) = (e ≡ ec_invalid_state) × (0 < count_state ctx 3 end)

  go_on :
      (n i : ℕ) (r : Result Tally)
      → Round i r
      → ((t : Tally) → Agrees ctx (i + 1) t → Loop (i + 1 + n) (tally_from n ctx (i + 1) t))
      → Loop (i + 1 + n) (r >>= tally_from n ctx (i + 1))
  go_on n i (ok t) a rest = rest t a
  go_on n i (err e) (is, bad) rest =
      (is, omega (arith, count_mono 3 (i + 1) n, count-next 3 i, ap (λ (x : ℕ). hit x 3) bad))

  tally_from-Loop : (n i : ℕ) (t : Tally) → Agrees ctx i t → Loop (i + n) (tally_from n ctx i t)
  unfolding tally_from
  tally_from-Loop zero i t a = let e : i + 0 ≡ i = omega arith in rw e a
  tally_from-Loop (suc n) i t a =
      let e : i + suc n ≡ i + 1 + n = omega arith in
      rw e (go_on n i _ (tally_page-Round i t a) (λ u. tally_from-Loop n (i + 1) u))

  none-Agrees : Agrees ctx 0 no_pages
  unfolding count_state
  none-Agrees = record { legal = refl; free = refl; allocated = refl; reserved = refl }

  verdict :
      (r : Result Tally)
      → Loop ctx.total_managed_pages r
      → ((r >>= compare_counts ctx) ≡ ok tt) ↔ CountsMatch ctx
  unfolding compare_counts
  verdict (ok t) a =
      (λ h. ground arith, λ m. ground (arith, count_states ctx ctx.total_managed_pages b))
  verdict (err e) (is, bad) = (λ h. cc, λ m. absurd (omega (arith, m.0)))

  -- Over a buffer of bytes that covers the managed pages, the audit succeeds exactly when no page
  -- is in the fourth state and the three counters are the numbers of free, allocated and reserved
  -- pages.
  pub check_invariants_iff : (check_invariants ctx ≡ ok tt) ↔ CountsMatch ctx
  unfolding check_invariants
  check_invariants_iff =
      let e : 0 + ctx.total_managed_pages ≡ ctx.total_managed_pages = omega arith in
      verdict (tally_from ctx.total_managed_pages ctx 0 no_pages)
        (rw e at (tally_from-Loop ctx.total_managed_pages 0 no_pages none-Agrees))
