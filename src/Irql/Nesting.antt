-- ===== src/Irql/Nesting.antt =====
-- Nested guards and interrupts over the processor of irql.c: last in, first out, and back again.
use himu_os.Prelude.{
  ℕ, zero, suc, ◌+◌, ◌-◌, ◌<◌, ◌≡◌, ◌≢◌, refl, ap, ◌∙◌, true, false, ◌==◌, if◌then◌else◌, inl, inr,
  Bool-cases, u32_mod, List, [], ◌∷◌, Result, ok, ◌>>=◌, arith,
}
use himu_os.Irql.{
  passive_level, dispatch_level, IrqlState, IrqlGuard, fresh_guard, Cpu, current_state, put_state,
  acquire_irql_guard, release_irql_guard, get_current_irql, is_blocking_allowed,
  enter_interrupt_context, leave_interrupt_context,
}
use himu_os.Irql.Guards.{
  IsConsistent, assert_irql_state-pass, put_state_back, entered, held, raised, current-entered,
  raised-IsConsistent, acquire_irql_guard_lem, release_irql_guard-acquire,
}

-- `n` fresh guards, each acquired at dispatch level, the latest first.
pub acquire_many : ℕ → Cpu → Result (Cpu × List IrqlGuard)
acquire_many zero c = ok (c, [])
acquire_many (suc n) c = do
  (c', gs) ← acquire_many n c
  (c'', g) ← acquire_irql_guard c' fresh_guard dispatch_level
  ok (c'', g ∷ gs)

pub release_many : List IrqlGuard → Cpu → Result Cpu
release_many [] c = ok c
release_many (g ∷ gs) c = do (c', g') ← release_irql_guard c g; release_many gs c'

-- After `n` acquires from `c`: at dispatch level with interrupts off, and the way back is open.
pub record Nested (n : ℕ) (c : Cpu) (r : Result (Cpu × List IrqlGuard)) : Type 0 where
  pub inner : Cpu
  pub guards : List IrqlGuard
  pub runs : r ≡ ok (inner, guards)
  pub consistent : IsConsistent (current_state inner)
  pub depth : (current_state inner).dispatch_depth ≡ (current_state c).dispatch_depth + n
  pub back : release_many guards inner ≡ ok c
  pub masked : (current_state inner).dispatch_depth ≢ 0 → inner.interrupts ≡ false

-- From a consistent state that is at passive level, or has interrupts off already.
module _ (c : Cpu) (v : IsConsistent (current_state c))
    (masked : (current_state c).dispatch_depth ≢ 0 → c.interrupts ≡ false) where
  -- Any number of guards that the 32-bit depth has room for can be acquired, and releasing them in
  -- the reverse order restores the processor exactly. While they are held the execution level is
  -- consistent, the depth has grown by their number, and interrupts are off whenever it is not 0.
  pub acquire_many-Nested :
      (n : ℕ) → (current_state c).dispatch_depth + n < u32_mod → Nested n c (acquire_many n c)
  unfolding acquire_many release_many
  acquire_many-Nested zero room = record {
    inner = c;
    guards = [];
    runs = refl;
    consistent = v;
    depth = omega arith;
    back = refl;
    masked = masked;
  }
  acquire_many-Nested (suc n) room =
      let sub = acquire_many-Nested n (omega arith) in
      let m = sub.inner in
      record {
        inner = entered m;
        guards = held m ∷ sub.guards;
        runs = rw sub.runs (
            rw (
              acquire_irql_guard_lem m sub.consistent fresh_guard refl (omega (arith, sub.depth))));
        consistent = rw (current-entered m) (raised-IsConsistent m sub.consistent);
        depth = rw (current-entered m) (omega (arith, sub.depth));
        back = rw (release_irql_guard-acquire m sub.consistent) sub.back;
        masked = λ h. elim (Bool-cases ((current_state m).dispatch_depth == 0)) [
          | inl e ↦ ground (arith, sub.consistent.low)
          | inr e ↦ ground (arith, sub.masked)
        ];
      }

-- A guard that is not the latest is refused, whatever its other fields.
release_irql_guard-out_of_order :
    (c : Cpu) (g : IrqlGuard)
    → IsConsistent (current_state c)
    → g.enter_depth ≢ (current_state c).dispatch_depth
    → (r : Cpu × IrqlGuard) → release_irql_guard c g ≢ ok r
unfolding release_irql_guard
release_irql_guard-out_of_order c g v other r h = ground arith

-- A guard of dispatch level keeps its owner from blocking.
is_blocking_allowed-entered :
    (c : Cpu) → IsConsistent (current_state c) → is_blocking_allowed (entered c) ≡ ok false
unfolding is_blocking_allowed get_current_irql
is_blocking_allowed-entered c v =
    rw (current-entered c) (rw (assert_irql_state-pass (raised c) (raised-IsConsistent c v)))

-- An interrupt taken and left restores the processor.
abbrev interrupted : Cpu → IrqlState
interrupted c = record (current_state c) {
  dispatch_depth = (current_state c).dispatch_depth + 1;
  interrupt_depth = (current_state c).interrupt_depth + 1;
  current_level = dispatch_level;
}

interrupted-IsConsistent : (c : Cpu) → IsConsistent (current_state c) → IsConsistent (interrupted c)
interrupted-IsConsistent c v = record {
  nested = omega (arith, v.nested);
  low = λ e. absurd (omega arith);
  high = λ e. refl;
}

enter_interrupt_context_lem :
    (c : Cpu)
    → IsConsistent (current_state c)
    → (current_state c).dispatch_depth < u32_mod - 1
    → enter_interrupt_context c ≡ ok (put_state c (interrupted c))
unfolding enter_interrupt_context
enter_interrupt_context_lem c v room =
    let d : ((current_state c).dispatch_depth == u32_mod - 1) ≡ false = ground arith in
    let i : ((current_state c).interrupt_depth == u32_mod - 1) ≡ false = ground (arith, v.nested) in
    rw (assert_irql_state-pass (current_state c) v, d, i)
      (rw (assert_irql_state-pass (interrupted c) (interrupted-IsConsistent c v)))

abbrev left : Cpu → IrqlState
left c = record (current_state c) {
  dispatch_depth = (current_state c).dispatch_depth - 1;
  interrupt_depth = (current_state c).interrupt_depth - 1;
  current_level =
      if (current_state c).dispatch_depth - 1 == 0 then passive_level else dispatch_level;
}

leave_interrupt_context_lem :
    (c : Cpu)
    → IsConsistent (current_state c)
    → IsConsistent (left c)
    → (current_state c).interrupt_depth ≢ 0
    → (current_state c).dispatch_depth ≡ (current_state c).interrupt_depth
    → leave_interrupt_context c ≡ ok (put_state c (left c))
unfolding leave_interrupt_context
leave_interrupt_context_lem c v w inside even =
    let i : ((current_state c).interrupt_depth == 0) ≡ false = ground arith in
    let d : ((current_state c).dispatch_depth == 0) ≡ false = ground arith in
    let e : ((current_state c).dispatch_depth == (current_state c).interrupt_depth) ≡ true =
      ground arith in
    rw (assert_irql_state-pass (current_state c) v, i, d, e)
      (rw (assert_irql_state-pass (left c) w))

-- An interrupt that finds no guard held (the two depths agree) can be entered, and leaving it
-- restores the processor exactly.
leave_interrupt_context-enter :
    (c : Cpu)
    → IsConsistent (current_state c)
    → (current_state c).dispatch_depth ≡ (current_state c).interrupt_depth
    → (current_state c).dispatch_depth < u32_mod - 1
    → (enter_interrupt_context c >>= leave_interrupt_context) ≡ ok c
leave_interrupt_context-enter c v even room = rw (enter_interrupt_context_lem c v room) (
    leave_interrupt_context_lem (put_state c (interrupted c))
      (rw now (interrupted-IsConsistent c v)) (rw undone v) (ground (arith, now))
      (ground (arith, now))
    ∙ ap ok (ap (λ s. put_state (put_state c (interrupted c)) s) undone ∙ again))
  where
    now : current_state (put_state c (interrupted c)) ≡ interrupted c
    now = ground arith

    undone : left (put_state c (interrupted c)) ≡ current_state c
    undone = ground (arith, now, v.low, v.high)

    again : put_state (put_state c (interrupted c)) (current_state c) ≡ c
    again = put_state_back c (current_state c) (interrupted c) c.interrupts refl refl c.interrupts
