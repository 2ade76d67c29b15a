-- ===== src/Irql/Guards.antt =====
-- A guard undone restores the processor: acquire and release of irql.c.
use mathlib.Core.Path.{fun_ext}
use himu_os.Prelude.{
  ℕ, ◌+◌, ◌-◌, ◌≤◌, ◌≡◌, ◌≢◌, refl, ap, Bool, true, false, ◌==◌, if◌then◌else◌, u32_mod, ok, arith,
  ◌∙◌,
}
use himu_os.Irql.{
  passive_level, dispatch_level, is_passive, IrqlState, IrqlGuard, Cpu, current_state, put_state,
  assert_irql_state, acquire_irql_guard, release_irql_guard,
}

-- What KiAssertIrqlState asserts, as a predicate.
pub record IsConsistent (s : IrqlState) : Type 0 where
  pub nested : s.interrupt_depth ≤ s.dispatch_depth
  pub low : s.dispatch_depth ≡ 0 → s.current_level ≡ passive_level
  pub high : s.dispatch_depth ≢ 0 → s.current_level ≡ dispatch_level

pub assert_irql_state-pass : (s : IrqlState) → IsConsistent s → assert_irql_state s ≡ ok tt
assert_irql_state-pass s v = ground (arith, v.low, v.high)

pub assert_irql_state-IsConsistent : (s : IrqlState) → assert_irql_state s ≡ ok tt → IsConsistent s
assert_irql_state-IsConsistent s h = record {
  nested = ground arith;
  low = λ e. ground arith;
  high = λ e. ground arith;
}

-- Writing the old state back over a new one.
pub put_state_back :
    (c : Cpu) (s s' : IrqlState) (b : Bool)
    → s ≡ current_state c
    → b ≡ c.interrupts
    → (x : Bool)
    → record (put_state (record (put_state c s') { interrupts = x }) s) { interrupts = b } ≡ c
put_state_back c s s' b e f x = λ i. record {
  states = fun_ext pointwise i;
  current = c.current;
  interrupts = f i;
  critical_depth = c.critical_depth;
}
  where
    pointwise :
        (a : ℕ)
        → (if a == c.current then s else if a == c.current then s' else c.states a) ≡ c.states a
    pointwise a = ground arith

-- A release that passes its assertions.
module _ (c : Cpu) (g : IrqlGuard) where
  abbrev pub lowered : IrqlState
  lowered = record (current_state c) {
    dispatch_depth = (current_state c).dispatch_depth - 1;
    current_level =
        if (current_state c).dispatch_depth - 1 == 0 then g.previous_level else dispatch_level;
  }

  release_passes :
      IsConsistent (current_state c)
      → IsConsistent lowered
      → g.active ≡ true
      → is_passive g.target_level ≡ false
      → (current_state c).dispatch_depth ≢ 0
      → g.enter_depth ≡ (current_state c).dispatch_depth
      → (g.transitioned ≡ true → (current_state c).dispatch_depth ≡ 1)
      → release_irql_guard c g
        ≡ ok (
          record (put_state c lowered) {
            interrupts = if g.transitioned then g.saved_interrupt_state else c.interrupts;
          },
          record g {
            active = false;
            enter_depth = 0;
            target_level = passive_level;
            transitioned = false;
          },
        )
  unfolding release_irql_guard
  release_passes v w active target deep lifo last =
      let depth : ((current_state c).dispatch_depth == 0) ≡ false = ground arith in
      let top : (g.enter_depth == (current_state c).dispatch_depth) ≡ true = ground arith in
      let done : (if g.transitioned then (current_state c).dispatch_depth - 1 == 0 else true)
          ≡ true =
        ground arith in
      rw (active, target, assert_irql_state-pass (current_state c) v, depth, top, done)
        (rw (assert_irql_state-pass lowered w))

module _ (c : Cpu) where
  abbrev first : Bool
  first = is_passive (current_state c).current_level

  abbrev pub raised : IrqlState
  raised = record (current_state c) {
    dispatch_depth = (current_state c).dispatch_depth + 1;
    current_level = dispatch_level;
  }

  -- The processor and the guard after an acquire.
  abbrev pub entered : Cpu
  entered = record (put_state c raised) { interrupts = if first then false else c.interrupts }

  abbrev pub held : IrqlGuard
  held = record {
    active = true;
    transitioned = first;
    saved_interrupt_state = if first then c.interrupts else false;
    previous_level = (current_state c).current_level;
    target_level = dispatch_level;
    enter_depth = (current_state c).dispatch_depth + 1;
  }

  abbrev pub released : IrqlGuard
  released = record held {
    active = false;
    enter_depth = 0;
    target_level = passive_level;
    transitioned = false;
  }

  pub current-entered : current_state entered ≡ raised
  current-entered = ground arith

  module _ (v : IsConsistent (current_state c)) where
    pub raised-IsConsistent : IsConsistent raised
    raised-IsConsistent = record {
      nested = omega (arith, v.nested);
      low = λ e. absurd (omega arith);
      high = λ e. refl;
    }

    pub acquire_irql_guard_lem :
        (guard : IrqlGuard)
        → guard.active ≡ false
        → (current_state c).dispatch_depth ≢ u32_mod - 1
        → acquire_irql_guard c guard dispatch_level ≡ ok (entered, held)
    unfolding acquire_irql_guard
    acquire_irql_guard_lem guard idle room =
        let space : ((current_state c).dispatch_depth == u32_mod - 1) ≡ false = ground arith in
        rw (idle, space, assert_irql_state-pass (current_state c) v)
          (rw (assert_irql_state-pass raised raised-IsConsistent))

    lowered-entered : lowered entered held ≡ current_state c
    lowered-entered = ground (arith, v.high, current-entered)

    restored :
        record (put_state entered (current_state c)) {
          interrupts =
              if first
              then if first then c.interrupts else false
              else if first
              then false
              else c.interrupts;
        }
        ≡ c
    restored =
        put_state_back c (current_state c) raised _ refl (flag first c.interrupts)
          (if first then false else c.interrupts)
      where
        flag : (f b : Bool) → (if f then if f then b else false else if f then false else b) ≡ b
        flag true b = refl
        flag false b = refl

    pub release_irql_guard-acquire : release_irql_guard entered held ≡ ok (c, released)
    release_irql_guard-acquire =
        release_passes entered held (rw current-entered raised-IsConsistent) (rw lowered-entered v)
          refl refl (ground (arith, current-entered)) (ground (arith, current-entered))
          (λ t. ground (arith, current-entered, v.high))
        ∙ ap (λ x. ok (x, released)) final
      where
        back : IrqlState → Cpu
        back s = record (put_state entered s) {
          interrupts = if first then held.saved_interrupt_state else entered.interrupts;
        }

        final : back (lowered entered held) ≡ c
        final = ap back lowered-entered ∙ restored

-- From a consistent state with room in the depth an inactive guard can be acquired, and releasing
-- it then restores the processor exactly (execution level, depths, interrupt flag and all other
-- threads' states) and leaves the guard inactive.
acquire-release :
    (c : Cpu) (guard : IrqlGuard)
    → IsConsistent (current_state c)
    → guard.active ≡ false
    → (current_state c).dispatch_depth ≢ u32_mod - 1
    → (acquire_irql_guard c guard dispatch_level ≡ ok (entered c, held c))
      × (release_irql_guard (entered c) (held c) ≡ ok (c, released c))
acquire-release c guard v idle room =
    (acquire_irql_guard_lem c v guard idle room, release_irql_guard-acquire c v)
