-- ===== src/Pvm/Safety/Table/Imm.antt =====
-- The arithmetic instructions with an immediate step well.
use Prim.Native.String.{String}
use tsjam.Prelude.{ℕ, Bool, false, All, ◌==◌, not, Bool-cases, inl, inr}
use tsjam.Codec.Buffer.{BigintBuffer}
use tsjam.Pvm.Decoders.{two_reg_one_imm_ix_decoder}
use tsjam.Pvm.Ops.Bounds.{Keeps₂}
use tsjam.Pvm.Ops.Bounds.Imm.{
  add_imm_32-IsU64, and_imm-IsU64, xor_imm-IsU64, or_imm-IsU64, mul_imm_32-IsU64,
  set_lt_u_imm-IsU64, set_lt_s_imm-IsU64, shlo_l_imm_32-IsU64, shlo_r_imm_32-IsU64,
  shar_r_imm_32-IsU64, neg_add_imm_32-IsU64, set_gt_u_imm-IsU64, set_gt_s_imm-IsU64,
  shlo_l_imm_alt_32-IsU64, shlo_r_imm_alt_32-IsU64, shar_r_imm_alt_32-IsU64, add_imm_64-IsU64,
  mul_imm_64-IsU64, shlo_l_imm_64-IsU64, shlo_r_imm_64-IsU64, shar_r_imm_64-IsU64,
  neg_add_imm_64-IsU64, shlo_l_imm_alt_64-IsU64, shlo_r_imm_alt_64-IsU64, shar_r_imm_alt_64-IsU64,
  rot_r_64_imm-IsU64, rot_r_64_imm_alt-IsU64, rot_r_32_imm-IsU64, rot_r_32_imm_alt-IsU64,
}
use tsjam.Pvm.Instructions.{imm_ixs}
use tsjam.Pvm.Ixdb.{ix}
use tsjam.Pvm.Handlers.{imm_op, imm_cmov}
use tsjam.Pvm.Ops.Imm.{cmov_iz_imm, cmov_nz_imm}
use tsjam.Pvm.Safety.Arithmetic.{imm_op-Keeps, imm_cmov-Keeps, Keeps₃}
use tsjam.Pvm.Safety.Decoders.{two_reg_one_imm-IsU64}
use tsjam.Pvm.Safety.Step.{IxKeeps, ix-Keeps, ◌&&&◌}

cmov_iz_imm-IsU64 : Keeps₃ cmov_iz_imm
unfolding cmov_iz_imm
cmov_iz_imm-IsU64 a b x p q r = elim (Bool-cases (b == 0)) [ inl e ↦ rw e r | inr e ↦ rw e p ]

cmov_nz_imm-IsU64 : Keeps₃ cmov_nz_imm
unfolding cmov_nz_imm
cmov_nz_imm-IsU64 a b x p q r = elim (Bool-cases (not (b == 0))) [ inl e ↦ rw e r | inr e ↦ rw e p ]

imm :
    (buffer : BigintBuffer) (op_code : ℕ) (identifier : String) (block : Bool) (f : ℕ → ℕ → ℕ)
    → Keeps₂ f
    → IxKeeps (ix op_code identifier false block (two_reg_one_imm_ix_decoder buffer) (imm_op f))
imm buffer op_code identifier block f h =
    ix-Keeps _ _ _ _ _ _
      (λ bytes args b d. imm_op-Keeps f h args (two_reg_one_imm-IsU64 buffer bytes args b d))

imm_move :
    (buffer : BigintBuffer) (op_code : ℕ) (identifier : String) (block : Bool) (f : ℕ → ℕ → ℕ → ℕ)
    → Keeps₃ f
    → IxKeeps (ix op_code identifier false block (two_reg_one_imm_ix_decoder buffer) (imm_cmov f))
imm_move buffer op_code identifier block f h =
    ix-Keeps _ _ _ _ _ _
      (λ bytes args b d. imm_cmov-Keeps f h args (two_reg_one_imm-IsU64 buffer bytes args b d))

pub imm_ixs-Keeps : (buffer : BigintBuffer) → All IxKeeps (imm_ixs buffer)
unfolding imm_ixs
imm_ixs-Keeps buffer =
    imm buffer _ _ _ _ add_imm_32-IsU64
    &&& imm buffer _ _ _ _ and_imm-IsU64
    &&& imm buffer _ _ _ _ xor_imm-IsU64
    &&& imm buffer _ _ _ _ or_imm-IsU64
    &&& imm buffer _ _ _ _ mul_imm_32-IsU64
    &&& imm buffer _ _ _ _ set_lt_u_imm-IsU64
    &&& imm buffer _ _ _ _ set_lt_s_imm-IsU64
    &&& imm buffer _ _ _ _ shlo_l_imm_32-IsU64
    &&& imm buffer _ _ _ _ shlo_r_imm_32-IsU64
    &&& imm buffer _ _ _ _ shar_r_imm_32-IsU64
    &&& imm buffer _ _ _ _ neg_add_imm_32-IsU64
    &&& imm buffer _ _ _ _ set_gt_u_imm-IsU64
    &&& imm buffer _ _ _ _ set_gt_s_imm-IsU64
    &&& imm buffer _ _ _ _ shlo_l_imm_alt_32-IsU64
    &&& imm buffer _ _ _ _ shlo_r_imm_alt_32-IsU64
    &&& imm buffer _ _ _ _ shar_r_imm_alt_32-IsU64
    &&& imm_move buffer _ _ _ _ cmov_iz_imm-IsU64
    &&& imm_move buffer _ _ _ _ cmov_nz_imm-IsU64
    &&& imm buffer _ _ _ _ add_imm_64-IsU64
    &&& imm buffer _ _ _ _ mul_imm_64-IsU64
    &&& imm buffer _ _ _ _ shlo_l_imm_64-IsU64
    &&& imm buffer _ _ _ _ shlo_r_imm_64-IsU64
    &&& imm buffer _ _ _ _ shar_r_imm_64-IsU64
    &&& imm buffer _ _ _ _ neg_add_imm_64-IsU64
    &&& imm buffer _ _ _ _ shlo_l_imm_alt_64-IsU64
    &&& imm buffer _ _ _ _ shlo_r_imm_alt_64-IsU64
    &&& imm buffer _ _ _ _ shar_r_imm_alt_64-IsU64
    &&& imm buffer _ _ _ _ rot_r_64_imm-IsU64
    &&& imm buffer _ _ _ _ rot_r_64_imm_alt-IsU64
    &&& imm buffer _ _ _ _ rot_r_32_imm-IsU64
    &&& imm buffer _ _ _ _ rot_r_32_imm_alt-IsU64
    &&& tt
