-- ===== src/Irql/Tests.antt =====
-- A processor at passive level with interrupts on, and one inside an interrupt.
use himu_os.Prelude.{refl, true, arith}
use himu_os.Irql.{initial_irql_state, Cpu, current_state}
use himu_os.Irql.Guards.{IsConsistent}
use himu_os.Irql.Nesting.{Nested, acquire_many, acquire_many-Nested}

abbrev cpu : Cpu
cpu = record {
  states = λ _. initial_irql_state;
  current = 1;
  interrupts = true;
  critical_depth = 0;
}

cpu-IsConsistent : IsConsistent (current_state cpu)
cpu-IsConsistent = record { nested = omega arith; low = λ e. refl; high = λ e. absurd (e refl) }

acquire_many-Nested_example : Nested 3 cpu (acquire_many 3 cpu)
acquire_many-Nested_example =
    acquire_many-Nested cpu cpu-IsConsistent (λ h. absurd (h refl)) 3 (omega arith)
