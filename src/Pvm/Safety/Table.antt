-- ===== src/Pvm/Safety/Table.antt =====
-- The instructions of the database, one group after the other, for the rules of Step.
pub mod Flow
pub mod Mem
pub mod One
pub mod Imm
pub mod Regs
pub mod Loop
pub mod Runs
use tsjam.Prelude.{
  ℕ, ◌≡◌, refl, inl, inr, Option, some, List, [], ◌∷◌, ◌++◌, All, All-append, ◌==◌, if◌then◌else◌,
  Bool-cases, some_eq, subst,
}
use tsjam.Codec.Buffer.{BigintBuffer}
use tsjam.Pvm.Ixdb.{Ix, by_code}
use tsjam.Pvm.Instructions.{flow_ixs, mem_ixs, one_ixs, imm_ixs, regs_ixs, instructions}
use tsjam.Pvm.Safety.Step.{IxKeeps}
use tsjam.Pvm.Safety.Table.Flow.{flow_ixs-Keeps}
use tsjam.Pvm.Safety.Table.Mem.{mem_ixs-Keeps}
use tsjam.Pvm.Safety.Table.One.{one_ixs-Keeps}
use tsjam.Pvm.Safety.Table.Imm.{imm_ixs-Keeps}
use tsjam.Pvm.Safety.Table.Regs.{regs_ixs-Keeps}

instructions-Keeps : (buffer : BigintBuffer) → All IxKeeps (instructions buffer)
unfolding instructions
instructions-Keeps buffer =
    let imms = imm_ixs buffer ++ regs_ixs buffer in
    let ones = one_ixs buffer ++ imms in
    All-append IxKeeps (flow_ixs buffer) (mem_ixs buffer ++ ones) (flow_ixs-Keeps buffer) (
      All-append IxKeeps (mem_ixs buffer) ones (mem_ixs-Keeps buffer) (
        All-append IxKeeps (one_ixs buffer) imms (one_ixs-Keeps buffer) (
          All-append IxKeeps (imm_ixs buffer) (regs_ixs buffer) (imm_ixs-Keeps buffer)
            (regs_ixs-Keeps buffer))))

by_code-All :
    (db : List Ix) (op_code : ℕ) (i : Ix) → All IxKeeps db → by_code db op_code ≡ some i → IxKeeps i
unfolding by_code
by_code-All [] op_code i h e = cc
by_code-All (j ∷ db) op_code i h e = elim (Bool-cases (j.op_code == op_code)) [
  | inl t ↦ subst IxKeeps (some_eq (rw t at e)) h.0
  | inr t ↦ by_code-All db op_code i h.1 (rw t at e)
]

-- An instruction that the interpreter finds in the database steps well.
pub by_code-Keeps :
    (buffer : BigintBuffer) (op_code : ℕ) (i : Ix)
    → by_code (instructions buffer) op_code ≡ some i
    → IxKeeps i
by_code-Keeps buffer op_code i =
    by_code-All (instructions buffer) op_code i (instructions-Keeps buffer)
