-- ===== src/Pmm/Invariant.antt =====
-- The invariant of the bitmap sink, and that marking a run of pages keeps it.
use himu_os.Prelude.{
  ℕ, suc, zero, ◌+◌, ◌*◌, ◌%◌, ◌^◌, ◌≤◌, ◌<◌, ◌≡◌, refl, ap, ◌∙◌, arith, leb, ltb, ◌&&◌,
  if◌then◌else◌,
}
use himu_os.Pmm.Bitmap.{Context, get_state, set_range}
use himu_os.Pmm.Sink.{mark_allocated, mark_free, mark_reserved}
use himu_os.Pmm.Pages.{IsBuffer, set_range-SameFields, set_range-IsBuffer, get_state-set_range}
use himu_os.Pmm.Counts.{hit, count_state, count_state-le, count-set_range}

-- The managed pages lie in the 64-bit address space, on page boundaries; no page is in the fourth
-- state; and the three counters are the numbers of pages in the three states.
pub record IsValid (ctx : Context) : Type 0 where
  pub buffer : IsBuffer ctx
  pub aligned : ctx.managed_base_phys % 4096 ≡ 0
  pub reach : ctx.managed_base_phys + ctx.total_managed_pages * 4096 ≤ 2 ^ 64
  pub legal : count_state ctx 3 ctx.total_managed_pages ≡ 0
  pub free : count_state ctx 0 ctx.total_managed_pages ≡ ctx.free_pages
  pub allocated : count_state ctx 1 ctx.total_managed_pages ≡ ctx.allocated_pages
  pub reserved : count_state ctx 2 ctx.total_managed_pages ≡ ctx.reserved_pages

-- All pages of a run are in one state.
abbrev pub AllIn : Context → ℕ → ℕ → ℕ → Type 0
AllIn ctx start n s = (j : ℕ) → start ≤ j → j < start + n → get_state ctx j ≡ s

-- The pages of a run end up in state `s`, the others as before, over the same managed pages.
pub record Puts (ctx : Context) (start count s : ℕ) (ctx' : Context) : Type 0 where
  pub base : ctx'.managed_base_phys ≡ ctx.managed_base_phys
  pub total : ctx'.total_managed_pages ≡ ctx.total_managed_pages
  pub states :
      (j : ℕ)
      → get_state ctx' j ≡ (if leb start j && ltb j (start + count) then s else get_state ctx j)

-- The counters are not read by `get_state`.
module _ (ctx : Context) (f a r : ℕ) where
  abbrev recount : Context
  recount = record ctx { free_pages = f; allocated_pages = a; reserved_pages = r }

  get_state-recount : (i : ℕ) → get_state recount i ≡ get_state ctx i
  unfolding get_state
  get_state-recount i = refl

  count-recount : (s n : ℕ) → count_state recount s n ≡ count_state ctx s n
  unfolding count_state
  count-recount s zero = refl
  count-recount s (suc n) = ground (arith, count-recount s n, get_state-recount n)

-- A run of `k` pages, all in state `a`, is put into state `s`.
module _ (ctx : Context) (start k a s : ℕ) (v : IsValid ctx)
    (inside : start + k ≤ ctx.total_managed_pages) (legal : s < 4) (all : AllIn ctx start k a) where
  abbrev marked : Context
  marked = set_range ctx start k s

  counted :
      (t : ℕ)
      → count_state marked t ctx.total_managed_pages + k * (hit a t)
        ≡ count_state ctx t ctx.total_managed_pages + k * (hit s t)
  counted t =
      count-set_range ctx start k a s t ctx.total_managed_pages v.buffer inside (omega arith) legal
        all

  -- With counters that match, the marked table is valid.
  marked-IsValid :
      (f al r : ℕ)
      → count_state marked 3 ctx.total_managed_pages ≡ 0
      → count_state marked 0 ctx.total_managed_pages ≡ f
      → count_state marked 1 ctx.total_managed_pages ≡ al
      → count_state marked 2 ctx.total_managed_pages ≡ r
      → IsValid (recount marked f al r)
  marked-IsValid f al r h3 h0 h1 h2 =
      let same = set_range-SameFields ctx start k s in
      let buf = set_range-IsBuffer ctx start k s v.buffer legal in
      let total =
        λ (t : ℕ). count-recount marked f al r t _ ∙ ap (count_state marked t) same.total in
      record {
        buffer = record { bytes = buf.bytes; covers = buf.covers };
        aligned = rw same.base v.aligned;
        reach = omega (arith, same.base, same.total, v.reach);
        legal = total 3 ∙ h3;
        free = total 0 ∙ h0;
        allocated = total 1 ∙ h1;
        reserved = total 2 ∙ h2;
      }

-- Marking puts the run into the state.
module _ (ctx : Context) (start k : ℕ) (v : IsValid ctx)
    (inside : start + k ≤ ctx.total_managed_pages) where
  pub mark_allocated-Puts : Puts ctx start k 1 (mark_allocated ctx start k)
  unfolding mark_allocated get_state
  mark_allocated-Puts =
      let same = set_range-SameFields ctx start k 1 in
      record {
        base = same.base;
        total = same.total;
        states = λ j. get_state-set_range ctx start k 1 j v.buffer inside (omega arith);
      }

  pub mark_free-Puts : Puts ctx start k 0 (mark_free ctx start k)
  unfolding mark_free get_state
  mark_free-Puts =
      let same = set_range-SameFields ctx start k 0 in
      record {
        base = same.base;
        total = same.total;
        states = λ j. get_state-set_range ctx start k 0 j v.buffer inside (omega arith);
      }

  pub mark_reserved-Puts : Puts ctx start k 2 (mark_reserved ctx start k)
  unfolding mark_reserved get_state
  mark_reserved-Puts =
      let same = set_range-SameFields ctx start k 2 in
      record {
        base = same.base;
        total = same.total;
        states = λ j. get_state-set_range ctx start k 2 j v.buffer inside (omega arith);
      }

module _ (ctx : Context) (start k : ℕ) (v : IsValid ctx)
    (inside : start + k ≤ ctx.total_managed_pages) where
  small : (t : ℕ) → count_state ctx t ctx.total_managed_pages ≤ 2 ^ 52
  small t = omega (arith, count_state-le ctx t ctx.total_managed_pages, v.reach)

  pub mark_allocated-IsValid : AllIn ctx start k 0 → IsValid (mark_allocated ctx start k)
  unfolding mark_allocated
  mark_allocated-IsValid all =
      let c = counted ctx start k 0 1 v inside (omega arith) all in
      let same = set_range-SameFields ctx start k 1 in
      marked-IsValid ctx start k 0 1 v inside (omega arith) all _ _ _ (omega (arith, c 3, v.legal))
        (omega (arith, c 0, v.free, small 0)) (omega (arith, c 1, v.allocated, v.reach, small 1))
        (omega (arith, c 2, v.reserved, same.reserved))

  pub mark_free-IsValid : AllIn ctx start k 1 → IsValid (mark_free ctx start k)
  unfolding mark_free
  mark_free-IsValid all =
      let c = counted ctx start k 1 0 v inside (omega arith) all in
      let same = set_range-SameFields ctx start k 0 in
      marked-IsValid ctx start k 1 0 v inside (omega arith) all _ _ _ (omega (arith, c 3, v.legal))
        (omega (arith, c 0, v.free, v.reach, small 0)) (omega (arith, c 1, v.allocated, small 1))
        (omega (arith, c 2, v.reserved, same.reserved))

  pub mark_reserved-IsValid : AllIn ctx start k 0 → IsValid (mark_reserved ctx start k)
  unfolding mark_reserved
  mark_reserved-IsValid all =
      let c = counted ctx start k 0 2 v inside (omega arith) all in
      let same = set_range-SameFields ctx start k 2 in
      marked-IsValid ctx start k 0 2 v inside (omega arith) all _ _ _ (omega (arith, c 3, v.legal))
        (omega (arith, c 0, v.free, small 0)) (omega (arith, c 1, v.allocated, same.allocated))
        (omega (arith, c 2, v.reserved, v.reach, small 2))
