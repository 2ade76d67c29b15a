-- ===== src/Pool/Operations.antt =====
-- The operations on a pool that runs, kernel/ke/mm/pool.c. What one critical section does is one
-- definition; `panics` and `err` are a failed HO_KASSERT.
use himu_os.Prelude.{
  ℕ, Bool, true, false, ◌||◌, not, List, [], ◌∷◌, ◌++◌, Option, none, some, ◌==◌, leb, ltb,
  if◌then◌else◌, add32, sub32, Result, ok, err, ◌>>◌, require, Status, ec_success,
  ec_illegal_argument, ec_invalid_state,
}
use himu_os.Pool.Layout.{page_size, header_size, PreparedPage, lay_out}
use himu_os.Pool.Machine.{Pages}

-- Magic: neither value, KE_POOL_MAGIC_ALIVE or KE_POOL_MAGIC_DEAD.
pub data Magic : Type 0 where
  unset alive dead : Magic

-- KE_POOL without its name. FreeList and PageList are the lists of their nodes, which lie in the free
-- slots and at the start of the pages.
pub record Pool : Type 0 where
  pub magic : Magic
  pub free_list : List ℕ
  pub page_list : List ℕ
  pub slot_size : ℕ
  pub slots_per_page : ℕ
  pub total_slots : ℕ
  pub used_slots : ℕ
  pub peak_used_slots : ℕ
  pub failed_grows : ℕ
  pub page_count : ℕ

abbrev pub is_alive : Magic → Bool
is_alive unset = false
is_alive alive = true
is_alive dead = false

abbrev pub is_nil : List ℕ → Bool
is_nil [] = true
is_nil (x ∷ xs) = false

-- A call over the pages: it returns, or panics.
pub data Run (M A : Type 0) : Type 0 where
  returns : A → M → Run M A
  panics : Status → Run M A

-- A page goes back, and its status is asserted.
abbrev pub then_freed : {M : Type 0} {A : Type 0} → Status × M → (M → Run M A) → Run M A
then_freed (ec_success, m) next = next m
then_freed (e, m) next = panics e

-- The assertions of KiPoolPublishPreparedPage, and its writes.
unfoldable pub attach : Pool → PreparedPage → Pool
attach p page = record p {
  free_list = page.slots ++ p.free_list;
  total_slots = add32 p.total_slots page.slot_count;
  page_list = page.base_virt ∷ p.page_list;
  page_count = add32 p.page_count 1;
}

abbrev pub check_page : PreparedPage → Result (Unit {0})
check_page page =
    require (not (is_nil page.slots)) ec_invalid_state
    >> require (not (page.slot_count == 0)) ec_invalid_state

unfoldable pub publish_prepared_page : Pool → PreparedPage → Result Pool
publish_prepared_page p page = check_page page >> ok (attach p page)

unfoldable pub pop_head : Pool → List ℕ → Result (Option ℕ × Pool)
pop_head p [] = ok (none, p)
pop_head p (node ∷ rest) =
    let used = add32 p.used_slots 1 in
    require (leb used p.total_slots) ec_invalid_state
    >> ok (
      some node,
      record p {
        free_list = rest;
        used_slots = used;
        peak_used_slots = if ltb p.peak_used_slots used then used else p.peak_used_slots;
      },
    )

unfoldable pub try_pop_node : Pool → Result (Option ℕ × Pool)
try_pop_node p = if not (is_alive p.magic) then ok (none, p) else pop_head p p.free_list

-- KePoolFree
unfoldable pub free : Pool → ℕ → Result Pool
free p object =
    if object == 0
    then ok p
    else require (not (p.used_slots == 0)) ec_invalid_state
      >> ok (record p { free_list = object ∷ p.free_list; used_slots = sub32 p.used_slots 1 })

-- The failure of a grow is counted while the pool is alive.
unfoldable pub note_failed_grow : Pool → Pool
note_failed_grow p =
    if is_alive p.magic then record p { failed_grows = add32 p.failed_grows 1 } else p

module _ {M : Type 0} (os : Pages M) where
  unfoldable pub lay_out_page : ℕ → Result ℕ × M → Run M (Result PreparedPage)
  lay_out_page slot_size (err e, m) = returns (err e) m
  lay_out_page slot_size (ok base, m) =
      if leb page_size (header_size slot_size)
      then then_freed (os.free_page m base) (returns (err ec_illegal_argument))
      else returns (ok (lay_out base slot_size)) m

  unfoldable pub prepare_one_page : M → ℕ → Run M (Result PreparedPage)
  prepare_one_page m slot_size = lay_out_page slot_size (os.alloc_page m)

  abbrev pub popped : M → Result (Option ℕ × Pool) → Run M (Option ℕ × Pool)
  popped m (ok r) = returns r m
  popped m (err e) = panics e

  unfoldable pub orphaned : Pool → PreparedPage → M → Result (Unit {0}) → Run M (Option ℕ × Pool)
  orphaned p page m (err e) = panics e
  orphaned p page m (ok checked) = then_freed (os.free_page m page.base_virt) (returns (none, p))

  -- KiPoolPublishPreparedPageAndPop: where the pool has been destroyed the page goes back.
  unfoldable pub publish_prepared_page_and_pop : Pool → PreparedPage → M → Run M (Option ℕ × Pool)
  publish_prepared_page_and_pop p page m =
      if not (is_alive p.magic)
      then orphaned p page m (check_page page)
      else popped m (
          check_page page
          >> (require (not (is_nil (attach p page).free_list)) ec_invalid_state
              >> pop_head (attach p page) (attach p page).free_list))

  -- KePoolAlloc after its first attempt found no node.
  unfoldable pub grow : Pool → Run M (Result PreparedPage) → Run M (Option ℕ × Pool)
  grow p (panics e) = panics e
  grow p (returns (err e) m) = returns (none, note_failed_grow p) m
  grow p (returns (ok page) m) = publish_prepared_page_and_pop p page m

  unfoldable pub alloc_after : M → Result (Option ℕ × Pool) → Run M (Option ℕ × Pool)
  alloc_after m (err e) = panics e
  alloc_after m (ok (some node, p)) = returns (some node, p) m
  alloc_after m (ok (none, p)) =
      if not (is_alive p.magic) || (p.slot_size == 0)
      then returns (none, p) m
      else grow p (prepare_one_page m p.slot_size)

  unfoldable pub alloc : Pool → M → Run M (Option ℕ × Pool)
  alloc p m = if not (is_alive p.magic) then returns (none, p) m else alloc_after m (try_pop_node p)
