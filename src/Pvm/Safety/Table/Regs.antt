-- ===== src/Pvm/Safety/Table/Regs.antt =====
-- The arithmetic instructions with three registers step well.
use Prim.Native.String.{String}
use tsjam.Prelude.{ℕ, Bool, false, All, ◌==◌, not, Bool-cases, inl, inr}
use tsjam.Codec.Buffer.{BigintBuffer}
use tsjam.Pvm.Decoders.{three_reg_ix_decoder}
use tsjam.Pvm.Ops.Bounds.{Keeps₂}
use tsjam.Pvm.Ops.Bounds.Regs.{
  add_32-IsU64, sub_32-IsU64, mul_32-IsU64, div_u_32-IsU64, div_s_32-IsU64, rem_u_32-IsU64,
  rem_s_32-IsU64, shlo_l_32-IsU64, shlo_r_32-IsU64, shar_r_32-IsU64, add_64-IsU64, sub_64-IsU64,
  mul_64-IsU64, div_u_64-IsU64, div_s_64-IsU64, rem_u_64-IsU64, rem_s_64-IsU64, shlo_l_64-IsU64,
  shlo_r_64-IsU64, shar_r_64-IsU64, and-IsU64, xor-IsU64, or-IsU64, mul_upper_s_s-IsU64,
  mul_upper_u_u-IsU64, mul_upper_s_u-IsU64, set_lt_u-IsU64, set_lt_s-IsU64, rot_l_64-IsU64,
  rot_l_32-IsU64, rot_r_64-IsU64, rot_r_32-IsU64, and_inv-IsU64, or_inv-IsU64, xnor-IsU64,
  max-IsU64, max_u-IsU64, min-IsU64, min_u-IsU64,
}
use tsjam.Pvm.Instructions.{regs_ixs}
use tsjam.Pvm.Ixdb.{ix}
use tsjam.Pvm.Handlers.{regs_op, regs_cmov}
use tsjam.Pvm.Ops.Regs.{cmov_iz, cmov_nz}
use tsjam.Pvm.Safety.Arithmetic.{regs_op-Keeps, regs_cmov-Keeps, Keeps₃}
use tsjam.Pvm.Safety.Step.{IxKeeps, ix-Keeps, ◌&&&◌}

cmov_iz-IsU64 : Keeps₃ cmov_iz
unfolding cmov_iz
cmov_iz-IsU64 d a b p q r = elim (Bool-cases (b == 0)) [ inl e ↦ rw e q | inr e ↦ rw e p ]

cmov_nz-IsU64 : Keeps₃ cmov_nz
unfolding cmov_nz
cmov_nz-IsU64 d a b p q r = elim (Bool-cases (not (b == 0))) [ inl e ↦ rw e q | inr e ↦ rw e p ]

regs :
    (op_code : ℕ) (identifier : String) (block : Bool) (f : ℕ → ℕ → ℕ)
    → Keeps₂ f
    → IxKeeps (ix op_code identifier false block three_reg_ix_decoder (regs_op f))
regs op_code identifier block f h = ix-Keeps _ _ _ _ _ _ (λ bytes args b d. regs_op-Keeps f h args)

regs_move :
    (op_code : ℕ) (identifier : String) (block : Bool) (f : ℕ → ℕ → ℕ → ℕ)
    → Keeps₃ f
    → IxKeeps (ix op_code identifier false block three_reg_ix_decoder (regs_cmov f))
regs_move op_code identifier block f h =
    ix-Keeps _ _ _ _ _ _ (λ bytes args b d. regs_cmov-Keeps f h args)

pub regs_ixs-Keeps : (buffer : BigintBuffer) → All IxKeeps (regs_ixs buffer)
unfolding regs_ixs
regs_ixs-Keeps buffer =
    regs _ _ _ _ add_32-IsU64
    &&& regs _ _ _ _ sub_32-IsU64
    &&& regs _ _ _ _ mul_32-IsU64
    &&& regs _ _ _ _ div_u_32-IsU64
    &&& regs _ _ _ _ div_s_32-IsU64
    &&& regs _ _ _ _ rem_u_32-IsU64
    &&& regs _ _ _ _ rem_s_32-IsU64
    &&& regs _ _ _ _ shlo_l_32-IsU64
    &&& regs _ _ _ _ shlo_r_32-IsU64
    &&& regs _ _ _ _ shar_r_32-IsU64
    &&& regs _ _ _ _ add_64-IsU64
    &&& regs _ _ _ _ sub_64-IsU64
    &&& regs _ _ _ _ mul_64-IsU64
    &&& regs _ _ _ _ div_u_64-IsU64
    &&& regs _ _ _ _ div_s_64-IsU64
    &&& regs _ _ _ _ rem_u_64-IsU64
    &&& regs _ _ _ _ rem_s_64-IsU64
    &&& regs _ _ _ _ shlo_l_64-IsU64
    &&& regs _ _ _ _ shlo_r_64-IsU64
    &&& regs _ _ _ _ shar_r_64-IsU64
    &&& regs _ _ _ _ and-IsU64
    &&& regs _ _ _ _ xor-IsU64
    &&& regs _ _ _ _ or-IsU64
    &&& regs _ _ _ _ mul_upper_s_s-IsU64
    &&& regs _ _ _ _ mul_upper_u_u-IsU64
    &&& regs _ _ _ _ mul_upper_s_u-IsU64
    &&& regs _ _ _ _ set_lt_u-IsU64
    &&& regs _ _ _ _ set_lt_s-IsU64
    &&& regs_move _ _ _ _ cmov_iz-IsU64
    &&& regs_move _ _ _ _ cmov_nz-IsU64
    &&& regs _ _ _ _ rot_l_64-IsU64
    &&& regs _ _ _ _ rot_l_32-IsU64
    &&& regs _ _ _ _ rot_r_64-IsU64
    &&& regs _ _ _ _ rot_r_32-IsU64
    &&& regs _ _ _ _ and_inv-IsU64
    &&& regs _ _ _ _ or_inv-IsU64
    &&& regs _ _ _ _ xnor-IsU64
    &&& regs _ _ _ _ max-IsU64
    &&& regs _ _ _ _ max_u-IsU64
    &&& regs _ _ _ _ min-IsU64
    &&& regs _ _ _ _ min_u-IsU64
    &&& tt
