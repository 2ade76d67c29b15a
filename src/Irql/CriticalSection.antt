-- ===== src/Irql/CriticalSection.antt =====
-- Critical sections, kernel/ke/critical_section.c: a guard of dispatch level and a global depth.
use himu_os.Prelude.{
  ℕ, ◌+◌, ◌-◌, ◌≡◌, ◌≢◌, Bool, true, false, not, ◌==◌, u32_mod, Result, ok, ◌>>=◌, ◌>>◌, require,
  ec_invalid_state, ec_out_of_resource, arith,
}
use himu_os.Irql.{
  dispatch_level, IrqlGuard, fresh_guard, Cpu, current_state, acquire_irql_guard,
  release_irql_guard,
}
use himu_os.Irql.Guards.{
  IsConsistent, entered, held, released, acquire_irql_guard_lem, release_irql_guard-acquire,
}

pub record CriticalSection : Type 0 where
  pub irql_guard : IrqlGuard
  pub enter_depth : ℕ
  pub active : Bool

-- `KE_CRITICAL_SECTION criticalSection = {0};`
abbrev pub fresh_section : CriticalSection
fresh_section = record { irql_guard = fresh_guard; enter_depth = 0; active = false }

unfoldable pub enter_critical_section : Cpu → CriticalSection → Result (Cpu × CriticalSection)
enter_critical_section c section = do
  require (not section.active) ec_invalid_state
  require (not (c.critical_depth == u32_mod - 1)) ec_out_of_resource
  (c', g) ← acquire_irql_guard c section.irql_guard dispatch_level
  let depth = c'.critical_depth + 1
  ok (
    record c' { critical_depth = depth },
    record { irql_guard = g; enter_depth = depth; active = true },
  )

unfoldable pub leave_critical_section : Cpu → CriticalSection → Result (Cpu × CriticalSection)
leave_critical_section c section = do
  require section.active ec_invalid_state
  require (not (c.critical_depth == 0)) ec_invalid_state
  require (section.enter_depth == c.critical_depth) ec_invalid_state
  let lower : Cpu = record c { critical_depth = c.critical_depth - 1 }
  (c', g) ← release_irql_guard lower section.irql_guard
  ok (c', record { irql_guard = g; enter_depth = 0; active = false })

-- The processor inside the section, and the guard that its owner holds.
abbrev pub inside : Cpu → Cpu
inside c = record (entered c) { critical_depth = c.critical_depth + 1 }

abbrev pub holding : Cpu → CriticalSection
holding c = record { irql_guard = held c; enter_depth = c.critical_depth + 1; active = true }

-- A section can be entered from any consistent state with room in the two depths, and leaving it
-- restores the processor exactly and the section's guard to an inactive one.
leave_critical_section-enter :
    (c : Cpu) (section : CriticalSection)
    → IsConsistent (current_state c)
    → section.active ≡ false
    → section.irql_guard.active ≡ false
    → c.critical_depth ≢ u32_mod - 1
    → (current_state c).dispatch_depth ≢ u32_mod - 1
    → (enter_critical_section c section ≡ ok (inside c, holding c))
      × (leave_critical_section (inside c) (holding c)
          ≡ ok (c, record { irql_guard = released c; enter_depth = 0; active = false }))
unfolding enter_critical_section leave_critical_section
leave_critical_section-enter c section v idle idle_guard room deep_room =
    let space : (c.critical_depth == u32_mod - 1) ≡ false = ground arith in
    let pos : (c.critical_depth + 1 == 0) ≡ false = ground arith in
    let top : (c.critical_depth + 1 == c.critical_depth + 1) ≡ true = ground arith in
    let lower : c.critical_depth + 1 - 1 ≡ c.critical_depth = omega arith in
    (
      rw (idle, space, acquire_irql_guard_lem c v section.irql_guard idle_guard deep_room),
      rw (pos, top, lower) (rw (release_irql_guard-acquire c v)),
    )
