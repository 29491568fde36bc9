-- ===== src/Pvm/Safety/Table/Flow.antt =====
-- The instructions of control flow, of immediates and of the heap step well.
use tsjam.Prelude.{All}
use tsjam.Codec.Buffer.{BigintBuffer}
use tsjam.Pvm.Instructions.{flow_ixs}
use tsjam.Pvm.Safety.Flow.{
  ecalli-Keeps, fallthrough-Keeps, jump-Keeps, jump_ind-Keeps, load_imm-Keeps, load_imm_64-Keeps,
  load_imm_jump-Keeps, load_imm_jump_ind-Keeps, sbrk-Keeps, trap-Keeps,
}
use tsjam.Pvm.Safety.Branches.{
  branch_eq_imm-Keeps, branch_ne_imm-Keeps, branch_lt_u_imm-Keeps, branch_le_u_imm-Keeps,
  branch_ge_u_imm-Keeps, branch_gt_u_imm-Keeps, branch_lt_s_imm-Keeps, branch_le_s_imm-Keeps,
  branch_ge_s_imm-Keeps, branch_gt_s_imm-Keeps, branch_eq-Keeps, branch_ne-Keeps, branch_lt_u-Keeps,
  branch_lt_s-Keeps, branch_ge_u-Keeps, branch_ge_s-Keeps,
}
use tsjam.Pvm.Safety.Decoders.{
  one_reg_one_ext_imm-IsU64, one_reg_one_imm-IsU64, one_reg_one_imm_one_offset-IsU64,
  two_reg_two_imm-IsU64,
}
use tsjam.Pvm.Safety.Step.{IxKeeps, ix-Keeps, ◌&&&◌}

pub flow_ixs-Keeps : (buffer : BigintBuffer) → All IxKeeps (flow_ixs buffer)
unfolding flow_ixs
flow_ixs-Keeps buffer =
    ix-Keeps _ _ _ _ _ _ (λ bytes args b d. trap-Keeps args)
    &&& ix-Keeps _ _ _ _ _ _ (λ bytes args b d. fallthrough-Keeps args)
    &&& ix-Keeps _ _ _ _ _ _ (λ bytes args b d. ecalli-Keeps args)
    &&& ix-Keeps _ _ _ _ _ _
        (λ bytes args b d. load_imm_64-Keeps args (one_reg_one_ext_imm-IsU64 buffer bytes args b d))
    &&& ix-Keeps _ _ _ _ _ _ (λ bytes args b d. jump-Keeps args)
    &&& ix-Keeps _ _ _ _ _ _ (λ bytes args b d. jump_ind-Keeps args)
    &&& ix-Keeps _ _ _ _ _ _
        (λ bytes args b d. load_imm-Keeps args (one_reg_one_imm-IsU64 buffer bytes args b d))
    &&& ix-Keeps _ _ _ _ _ _ (λ bytes args b d.
      load_imm_jump-Keeps args (one_reg_one_imm_one_offset-IsU64 buffer bytes args b d))
    &&& ix-Keeps _ _ _ _ _ _ (λ bytes args b d. branch_eq_imm-Keeps args)
    &&& ix-Keeps _ _ _ _ _ _ (λ bytes args b d. branch_ne_imm-Keeps args)
    &&& ix-Keeps _ _ _ _ _ _ (λ bytes args b d. branch_lt_u_imm-Keeps args)
    &&& ix-Keeps _ _ _ _ _ _ (λ bytes args b d. branch_le_u_imm-Keeps args)
    &&& ix-Keeps _ _ _ _ _ _ (λ bytes args b d. branch_ge_u_imm-Keeps args)
    &&& ix-Keeps _ _ _ _ _ _ (λ bytes args b d. branch_gt_u_imm-Keeps args)
    &&& ix-Keeps _ _ _ _ _ _ (λ bytes args b d. branch_lt_s_imm-Keeps args)
    &&& ix-Keeps _ _ _ _ _ _ (λ bytes args b d. branch_le_s_imm-Keeps args)
    &&& ix-Keeps _ _ _ _ _ _ (λ bytes args b d. branch_ge_s_imm-Keeps args)
    &&& ix-Keeps _ _ _ _ _ _ (λ bytes args b d. branch_gt_s_imm-Keeps args)
    &&& ix-Keeps _ _ _ _ _ _ (λ bytes args b d. sbrk-Keeps args)
    &&& ix-Keeps _ _ _ _ _ _ (λ bytes args b d.
      load_imm_jump_ind-Keeps args (two_reg_two_imm-IsU64 buffer bytes args b d))
    &&& ix-Keeps _ _ _ _ _ _ (λ bytes args b d. branch_eq-Keeps args)
    &&& ix-Keeps _ _ _ _ _ _ (λ bytes args b d. branch_ne-Keeps args)
    &&& ix-Keeps _ _ _ _ _ _ (λ bytes args b d. branch_lt_u-Keeps args)
    &&& ix-Keeps _ _ _ _ _ _ (λ bytes args b d. branch_lt_s-Keeps args)
    &&& ix-Keeps _ _ _ _ _ _ (λ bytes args b d. branch_ge_u-Keeps args)
    &&& ix-Keeps _ _ _ _ _ _ (λ bytes args b d. branch_ge_s-Keeps args)
    &&& tt
