-- ===== src/Tests/Pvm.antt =====
-- The interpreter on a concrete program.
use tsjam.Prelude.{
  length, All, All-replicate, ◌⊎◌, ◌≡◌, refl, arith, none, some, [], ◌∷◌, replicate,
}
use tsjam.Prelude.Int.{pos, ◌-ℤ◌}
use tsjam.Codec.Buffer.{subarray}
use tsjam.Pvm.Memory.{PvmMemory}
use tsjam.Pvm.Decoders.{three_reg_ix_decoder}
use tsjam.Pvm.Handlers.{regs_op}
use tsjam.Pvm.Ops.Regs.{add_64}
use tsjam.Pvm.Ixdb.{by_code, ix}
use tsjam.Pvm.Vm.{Pvm, PvmProgram, reg, set_reg, ix_at, panic}
use tsjam.Pvm.Instructions.{instructions}
use tsjam.Pvm.Run.{new_pvm, single_step, run}
use tsjam.Pvm.Safety.{IsSound, InRange}
use tsjam.Pvm.Safety.Step.{IsNext}
use tsjam.Pvm.Memory.Invariant.{IsMemory}
use tsjam.Pvm.Ops.Bounds.{IsU64}
use tsjam.Pvm.Safety.Table.Loop.{
  step_length, single_step-kept, single_step-registers, single_step-IsNext,
}
use tsjam.Pvm.Safety.Table.Runs.{Ends, run-Ends}
use tsjam.Tests.Buffer.{le_buffer}

-- `add_64` on registers 1 and 2 into register 3, and a trap.
abbrev program : PvmProgram
program = record { j = []; z = 1; c = 200 ∷ 33 ∷ 3 ∷ 0 ∷ []; k = 1 ∷ 0 ∷ 0 ∷ 1 ∷ [] }

abbrev no_memory : PvmMemory
no_memory = record {
  memory_content = λ page. none;
  acl = λ page. none;
  heap = record { start = 0; end = 0; pointer = 0 };
}

abbrev machine : Pvm
machine = new_pvm (instructions le_buffer) no_memory (0 ∷ 5 ∷ 6 ∷ replicate 10 0) (pos 10) 0 program

machine-IsSound : IsSound machine
machine-IsSound =
    unfold new_pvm in
    record {
      pages = record { whole = λ page c e. cc; backed = λ page k e. cc };
      code = (omega arith, (omega arith, (omega arith, (omega arith, tt))));
    }

run-Ends_example : Ends machine (run (instructions le_buffer) 10 machine)
run-Ends_example = run-Ends le_buffer 10 machine machine-IsSound (unfold new_pvm in omega arith)

abbrev machine_after : Pvm
machine_after = record machine { registers = 0 ∷ 5 ∷ 6 ∷ 11 ∷ replicate 9 0; gas = pos 9; pc = 3 }

add_step : single_step (instructions le_buffer) machine ≡ some (machine_after, none)
unfolding by_code ix three_reg_ix_decoder subarray regs_op reg set_reg add_64 single_step
    instructions new_pvm
add_step = refl

single_step-kept_example :
    ((machine_after.gas ≡ machine.gas -ℤ pos 1)
      ⊎ ((machine_after.gas ≡ machine.gas -ℤ pos 2) × (none ≡ some panic)))
    × (machine_after.prog ≡ machine.prog)
    × (machine_after.ix_pointer_cache ≡ machine.ix_pointer_cache)
    × (length machine_after.registers ≡ length machine.registers)
    × IsMemory machine_after.memory
single_step-kept_example =
    single_step-kept le_buffer machine machine_after none machine-IsSound add_step

machine-InRange : InRange machine
machine-InRange =
    unfold new_pvm in
    record {
      regs = (omega arith, (omega arith, (omega arith, All-replicate IsU64 10 0 (omega arith))));
      heap = omega arith;
    }

single_step-registers_example : All IsU64 machine_after.registers
single_step-registers_example =
    single_step-registers le_buffer machine machine_after none machine-IsSound machine-InRange
      add_step

single_step-IsNext_example :
    IsNext machine (step_length (ix_at machine.ix_pointer_cache machine.pc)) machine_after.pc
single_step-IsNext_example =
    single_step-IsNext le_buffer machine machine_after machine-IsSound add_step
