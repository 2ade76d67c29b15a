-- ===== src/Pmm/Device.antt =====
-- The device in front of the sink: kernel/ke/pmm/pmm_device.c. The sink is the bitmap sink, the
-- only one in the tree; before the device is initialized every call is refused.
use himu_os.Prelude.{ℕ, Bool, Option, ec_invalid_state, Result, ok, ◌>>=◌, ◌>>◌, require}
use himu_os.Pmm.Bitmap.{Context}
use himu_os.Pmm.Sink
use himu_os.Pmm.Sink.{Constraints, Stats}

pub record Device : Type 0 where
  pub context : Context
  pub initialized : Bool

unfoldable pub alloc_pages : Device → ℕ → Option Constraints → Result (Device × ℕ)
alloc_pages d count constraints = do
  require d.initialized ec_invalid_state
  (ctx, base) ← Sink.alloc_pages d.context count constraints
  ok (record d { context = ctx }, base)

unfoldable pub free_pages : Device → ℕ → ℕ → Result Device
free_pages d base_phys count = do
  require d.initialized ec_invalid_state
  ctx ← Sink.free_pages d.context base_phys count
  ok (record d { context = ctx })

unfoldable pub reserve_pages : Device → ℕ → ℕ → Result Device
reserve_pages d base_phys count = do
  require d.initialized ec_invalid_state
  ctx ← Sink.reserve_pages d.context base_phys count
  ok (record d { context = ctx })

unfoldable pub query_stats : Device → Result Stats
query_stats d = do require d.initialized ec_invalid_state; ok (Sink.query_stats d.context)

unfoldable pub check_invariants : Device → Result (Unit {0})
check_invariants d = do require d.initialized ec_invalid_state; Sink.check_invariants d.context
