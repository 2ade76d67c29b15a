-- ===== src/Kva/Machine.antt =====
-- The page tables of kernel/ke/mm/address_space.c and the page allocator, as the kernel virtual
-- allocator calls them: operations on a state of any type.
use himu_os.Prelude.{ℕ, ◌≡◌, ◌≢◌, Bool, true, false, Result, ok, Status, ec_success}

-- The fields of KE_PT_MAPPING that the allocator reads.
pub record Mapping : Type 0 where
  pub present : Bool
  pub level : ℕ
  pub physical_base : ℕ

-- KePtQueryPage, KePtMapPage, KePtUnmapPage, and KePmmAllocPages and KePmmFreePages for one page.
-- A mapping that fails may still leave new page tables behind.
pub record Machine (M : Type 0) : Type 0 where
  pub query_page : M → ℕ → Result Mapping
  pub map_page : M → ℕ → ℕ → ℕ → M × Status
  pub unmap_page : M → ℕ → Result M
  pub alloc_page : M → Result (M × ℕ)
  pub free_page : M → ℕ → Result M

unfoldable pub succeeded : Status → Bool
succeeded ec_success = true
succeeded _ = false

abbrev pub IsUnmapped : {M : Type 0} → Machine M → M → ℕ → Type 0
IsUnmapped os m va =
    (mapping : Mapping) × (os.query_page m va ≡ ok mapping) × (mapping.present ≡ false)

-- What the page tables promise: an unmapped page is not present, and unmapping and the page
-- allocator leave the other translations alone.
pub record IsMachine {M : Type 0} (os : Machine M) : Type 0 where
  pub unmap_self : (m m' : M) (va : ℕ) → os.unmap_page m va ≡ ok m' → IsUnmapped os m' va
  pub unmap_other :
      (m m' : M) (va other : ℕ)
      → os.unmap_page m va ≡ ok m'
      → va ≢ other
      → os.query_page m' other ≡ os.query_page m other
  pub free_query :
      (m m' : M) (pa va : ℕ) → os.free_page m pa ≡ ok m' → os.query_page m' va ≡ os.query_page m va
