-- ===== src/Pvm/Safety/Branches.antt =====
-- The branches, instruction by instruction.
use tsjam.Prelude.{true, not, ltb, leb, ◌==◌}
use tsjam.Prelude.Int.{ltb_ℤ, leb_ℤ}
use tsjam.Pvm.Words.{z8, to_number}
use tsjam.Pvm.Decoders.{OneRegOneImmOneOffsetArgs, TwoRegOneOffsetArgs}
use tsjam.Pvm.Handlers.Flow.{
  branch_eq_imm, branch_ne_imm, branch_lt_u_imm, branch_le_u_imm, branch_ge_u_imm, branch_gt_u_imm,
  branch_lt_s_imm, branch_le_s_imm, branch_ge_s_imm, branch_gt_s_imm, branch_eq, branch_ne,
  branch_lt_u, branch_lt_s, branch_ge_u, branch_ge_s,
}
use tsjam.Pvm.Safety.{KeepsAt}
use tsjam.Pvm.Safety.Flow.{branch_imm-Keeps, branch_regs-Keeps}

pub branch_eq_imm-Keeps : (args : OneRegOneImmOneOffsetArgs) → KeepsAt true (branch_eq_imm args)
unfolding branch_eq_imm
branch_eq_imm-Keeps = branch_imm-Keeps (λ w x. w == x)

pub branch_ne_imm-Keeps : (args : OneRegOneImmOneOffsetArgs) → KeepsAt true (branch_ne_imm args)
unfolding branch_ne_imm
branch_ne_imm-Keeps = branch_imm-Keeps (λ w x. not (w == x))

pub branch_lt_u_imm-Keeps : (args : OneRegOneImmOneOffsetArgs) → KeepsAt true (branch_lt_u_imm args)
unfolding branch_lt_u_imm
branch_lt_u_imm-Keeps = branch_imm-Keeps (λ w x. ltb w x)

pub branch_le_u_imm-Keeps : (args : OneRegOneImmOneOffsetArgs) → KeepsAt true (branch_le_u_imm args)
unfolding branch_le_u_imm
branch_le_u_imm-Keeps = branch_imm-Keeps (λ w x. leb w x)

pub branch_ge_u_imm-Keeps : (args : OneRegOneImmOneOffsetArgs) → KeepsAt true (branch_ge_u_imm args)
unfolding branch_ge_u_imm
branch_ge_u_imm-Keeps = branch_imm-Keeps (λ w x. leb x w)

pub branch_gt_u_imm-Keeps : (args : OneRegOneImmOneOffsetArgs) → KeepsAt true (branch_gt_u_imm args)
unfolding branch_gt_u_imm
branch_gt_u_imm-Keeps = branch_imm-Keeps (λ w x. ltb x w)

pub branch_lt_s_imm-Keeps : (args : OneRegOneImmOneOffsetArgs) → KeepsAt true (branch_lt_s_imm args)
unfolding branch_lt_s_imm
branch_lt_s_imm-Keeps = branch_imm-Keeps (λ w x. ltb_ℤ (z8 w) (z8 x))

pub branch_le_s_imm-Keeps : (args : OneRegOneImmOneOffsetArgs) → KeepsAt true (branch_le_s_imm args)
unfolding branch_le_s_imm
branch_le_s_imm-Keeps = branch_imm-Keeps (λ w x. leb_ℤ (z8 w) (z8 x))

pub branch_ge_s_imm-Keeps : (args : OneRegOneImmOneOffsetArgs) → KeepsAt true (branch_ge_s_imm args)
unfolding branch_ge_s_imm
branch_ge_s_imm-Keeps = branch_imm-Keeps (λ w x. leb_ℤ (z8 x) (z8 w))

pub branch_gt_s_imm-Keeps : (args : OneRegOneImmOneOffsetArgs) → KeepsAt true (branch_gt_s_imm args)
unfolding branch_gt_s_imm
branch_gt_s_imm-Keeps = branch_imm-Keeps (λ w x. ltb_ℤ (z8 x) (z8 w))

pub branch_eq-Keeps : (args : TwoRegOneOffsetArgs) → KeepsAt true (branch_eq args)
unfolding branch_eq
branch_eq-Keeps = branch_regs-Keeps (λ a b. a == b)

pub branch_ne-Keeps : (args : TwoRegOneOffsetArgs) → KeepsAt true (branch_ne args)
unfolding branch_ne
branch_ne-Keeps = branch_regs-Keeps (λ a b. not (a == b))

pub branch_lt_u-Keeps : (args : TwoRegOneOffsetArgs) → KeepsAt true (branch_lt_u args)
unfolding branch_lt_u
branch_lt_u-Keeps = branch_regs-Keeps (λ a b. ltb a b)

pub branch_lt_s-Keeps : (args : TwoRegOneOffsetArgs) → KeepsAt true (branch_lt_s args)
unfolding branch_lt_s
branch_lt_s-Keeps = branch_regs-Keeps (λ a b. ltb_ℤ (z8 a) (z8 b))

pub branch_ge_u-Keeps : (args : TwoRegOneOffsetArgs) → KeepsAt true (branch_ge_u args)
unfolding branch_ge_u
branch_ge_u-Keeps = branch_regs-Keeps (λ a b. leb (to_number b) (to_number a))

pub branch_ge_s-Keeps : (args : TwoRegOneOffsetArgs) → KeepsAt true (branch_ge_s args)
unfolding branch_ge_s
branch_ge_s-Keeps = branch_regs-Keeps (λ a b. leb_ℤ (z8 b) (z8 a))
