-- ===== src/Irql.antt =====
-- Execution levels: kernel/ke/irql.c, with the interrupt switch of arch/amd64/cpu.c, and the
-- critical sections of kernel/ke/critical_section.c. A failed HO_KASSERT is `err`, the panic. The
-- states that KeSetCurrentIrqlState chooses between live in a store by address; guards are values
-- of their owners, and no address here is null unless an argument may be.
pub mod Guards
pub mod CriticalSection
pub mod Nesting
mod Tests
use himu_os.Prelude.{
  ℕ, ◌+◌, ◌-◌, Bool, true, false, not, ◌==◌, leb, if◌then◌else◌, u32_mod, Result, ok, err, ◌>>=◌,
  ◌>>◌, require, ec_illegal_argument, ec_invalid_state, ec_not_supported, ec_out_of_resource,
}

pub data Level : Type 0 where
  passive_level dispatch_level : Level

abbrev pub is_passive : Level → Bool
is_passive passive_level = true
is_passive dispatch_level = false

abbrev pub is_dispatch : Level → Bool
is_dispatch passive_level = false
is_dispatch dispatch_level = true

-- KiAssertBlockingAllowed and KiAssertDispatchLevel of the scheduler, at the level that
-- KeGetCurrentIrql gives.
abbrev pub assert_blocking_allowed : Level → Result (Unit {0})
assert_blocking_allowed level = require (is_passive level) ec_invalid_state

abbrev pub assert_dispatch_level : Level → Result (Unit {0})
assert_dispatch_level level = require (is_dispatch level) ec_invalid_state

pub record IrqlState : Type 0 where
  pub current_level : Level
  pub dispatch_depth : ℕ
  pub interrupt_depth : ℕ

pub record IrqlGuard : Type 0 where
  pub active : Bool
  pub transitioned : Bool
  pub saved_interrupt_state : Bool
  pub previous_level : Level
  pub target_level : Level
  pub enter_depth : ℕ

-- `(KE_IRQL_GUARD){0}`.
abbrev pub fresh_guard : IrqlGuard
fresh_guard = record {
  active = false;
  transitioned = false;
  saved_interrupt_state = false;
  previous_level = passive_level;
  target_level = passive_level;
  enter_depth = 0;
}

-- The store of states, gCurrentIrqlState, the maskable-interrupt flag, gCriticalSectionDepth.
pub record Cpu : Type 0 where
  pub states : ℕ → IrqlState
  pub current : ℕ
  pub interrupts : Bool
  pub critical_depth : ℕ

abbrev pub current_state : Cpu → IrqlState
current_state c = c.states c.current

-- `*gCurrentIrqlState = s`.
abbrev pub put_state : Cpu → IrqlState → Cpu
put_state c s = record c { states = λ a. if a == c.current then s else c.states a }

abbrev pub assert_irql_state : IrqlState → Result (Unit {0})
assert_irql_state s = do
  require (leb s.interrupt_depth s.dispatch_depth) ec_invalid_state
  require
      (if s.dispatch_depth == 0
        then is_passive s.current_level
        else not (is_passive s.current_level))
      ec_invalid_state

abbrev pub initial_irql_state : IrqlState
initial_irql_state = record {
  current_level = passive_level;
  dispatch_depth = 0;
  interrupt_depth = 0;
}

-- KeInitializeIrqlState writes through any pointer but null.
unfoldable pub initialize_irql_state : Cpu → ℕ → Result Cpu
initialize_irql_state c a = do
  require (not (a == 0)) ec_illegal_argument
  ok (record c { states = λ b. if b == a then initial_irql_state else c.states b })

unfoldable pub set_current_irql_state : Cpu → ℕ → Result Cpu
set_current_irql_state c a = do
  require (not (a == 0)) ec_illegal_argument
  assert_irql_state (c.states a)
  ok (record c { current = a })

unfoldable pub get_current_irql : Cpu → Result Level
get_current_irql c = assert_irql_state (current_state c) >> ok (current_state c).current_level

unfoldable pub is_blocking_allowed : Cpu → Result Bool
is_blocking_allowed c = do level ← get_current_irql c; ok (is_passive level)

-- `ArchDisableInterrupts` gives the old flag; its effect is `interrupts = false`.
unfoldable pub acquire_irql_guard : Cpu → IrqlGuard → Level → Result (Cpu × IrqlGuard)
acquire_irql_guard c guard target = do
  let s = current_state c
  require (not guard.active) ec_invalid_state
  require (not (is_passive target)) ec_not_supported
  require (not (s.dispatch_depth == u32_mod - 1)) ec_out_of_resource
  assert_irql_state s
  let first = is_passive s.current_level
  let s' : IrqlState = record s {
    dispatch_depth = s.dispatch_depth + 1;
    current_level = dispatch_level;
  }
  let g : IrqlGuard = record {
    active = true;
    transitioned = first;
    saved_interrupt_state = if first then c.interrupts else false;
    previous_level = s.current_level;
    target_level = target;
    enter_depth = s.dispatch_depth + 1;
  }
  assert_irql_state s'
  ok (record (put_state c s') { interrupts = if first then false else c.interrupts }, g)

unfoldable pub release_irql_guard : Cpu → IrqlGuard → Result (Cpu × IrqlGuard)
release_irql_guard c guard = do
  let s = current_state c
  require guard.active ec_invalid_state
  require (not (is_passive guard.target_level)) ec_not_supported
  assert_irql_state s
  require (not (s.dispatch_depth == 0)) ec_invalid_state
  require (guard.enter_depth == s.dispatch_depth) ec_invalid_state
  let depth = s.dispatch_depth - 1
  let s' : IrqlState = record s {
    dispatch_depth = depth;
    current_level = if depth == 0 then guard.previous_level else dispatch_level;
  }
  let g : IrqlGuard = record guard {
    active = false;
    enter_depth = 0;
    target_level = passive_level;
    transitioned = false;
  }
  require (if guard.transitioned then depth == 0 else true) ec_invalid_state
  assert_irql_state s'
  ok (
    record (put_state c s') {
      interrupts = if guard.transitioned then guard.saved_interrupt_state else c.interrupts;
    },
    g,
  )

unfoldable pub enter_interrupt_context : Cpu → Result Cpu
enter_interrupt_context c = do
  let s = current_state c
  assert_irql_state s
  require (not (s.dispatch_depth == u32_mod - 1)) ec_out_of_resource
  require (not (s.interrupt_depth == u32_mod - 1)) ec_out_of_resource
  let s' : IrqlState = record s {
    dispatch_depth = s.dispatch_depth + 1;
    interrupt_depth = s.interrupt_depth + 1;
    current_level = dispatch_level;
  }
  assert_irql_state s'
  ok (put_state c s')

unfoldable pub leave_interrupt_context : Cpu → Result Cpu
leave_interrupt_context c = do
  let s = current_state c
  assert_irql_state s
  require (not (s.interrupt_depth == 0)) ec_invalid_state
  require (not (s.dispatch_depth == 0)) ec_invalid_state
  require (s.dispatch_depth == s.interrupt_depth) ec_invalid_state
  let depth = s.dispatch_depth - 1
  let s' : IrqlState = record s {
    dispatch_depth = depth;
    interrupt_depth = s.interrupt_depth - 1;
    current_level = if depth == 0 then passive_level else dispatch_level;
  }
  assert_irql_state s'
  ok (put_state c s')
