-- ===== src/Kva/Arena.antt =====
-- The page states of an arena: the scan for a free run and the loops that mark one.
use himu_os.Prelude.{
  ℕ, zero, suc, ◌+◌, Bool, true, ◌&&◌, ◌||◌, Option, none, some, List, [], ◌∷◌, ◌==◌, ltb, leb,
  if◌then◌else◌, get_or, set,
}
use himu_os.Kva.State.{page_free, page_alloc, page_guard}

-- Whether the `count` pages from `base` on are free.
unfoldable pub is_available : List ℕ → ℕ → ℕ → Bool
is_available states base zero = true
is_available states base (suc count) =
    (get_or states base 0 == page_free) && is_available states (suc base) count

-- The loop over base pages, with `left` of them to try.
unfoldable pub first_hole : List ℕ → ℕ → ℕ → ℕ → Option ℕ
first_hole states total base zero = none
first_hole states total base (suc left) =
    let rest = first_hole states total (suc base) left in
    if is_available states base total then some base else rest

-- The state an allocated range gives its page at `offset`.
unfoldable pub layout_state : ℕ → ℕ → ℕ → ℕ
layout_state guard_lower usable offset =
    if ltb offset guard_lower || leb (guard_lower + usable) offset then page_guard else page_alloc

-- The loop that writes `state_of` at the offsets below `count`.
unfoldable pub mark_pages : (ℕ → ℕ) → ℕ → ℕ → List ℕ → List ℕ
mark_pages state_of base zero states = states
mark_pages state_of base (suc count) states =
    set (mark_pages state_of base count states) (base + count) (state_of count)

unfoldable pub count_free_pages : List ℕ → ℕ
count_free_pages [] = 0
count_free_pages (x ∷ xs) =
    let rest = count_free_pages xs in if x == page_free then suc rest else rest
