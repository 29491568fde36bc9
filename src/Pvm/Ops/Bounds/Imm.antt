-- ===== src/Pvm/Ops/Bounds/Imm.antt =====
-- The instructions with two registers and an immediate keep 64-bit values.
use tsjam.Prelude.{◌-◌, ◌*◌, ◌/◌, ◌%◌, ◌^◌, arith}
use tsjam.Prelude.Bits.{bit_and-le, bit_or-lt, bit_xor-lt}
use tsjam.Pvm.Ops.Imm.{
  add_imm_32, and_imm, xor_imm, or_imm, mul_imm_32, set_lt_u_imm, set_lt_s_imm, shlo_l_imm_32,
  shlo_r_imm_32, shar_r_imm_32, neg_add_imm_32, set_gt_u_imm, set_gt_s_imm, shlo_l_imm_alt_32,
  shlo_r_imm_alt_32, shar_r_imm_alt_32, add_imm_64, mul_imm_64, shlo_l_imm_64, shlo_r_imm_64,
  shar_r_imm_64, neg_add_imm_64, shlo_l_imm_alt_64, shlo_r_imm_alt_64, shar_r_imm_alt_64,
  rot_r_64_imm, rot_r_64_imm_alt, rot_r_32_imm, rot_r_32_imm_alt,
}
use tsjam.Pvm.Ops.Bounds.{
  Keeps₂, x_4-IsU64, z8_inv-IsU64, div-le, shr-IsU64, x_8-eq, rot-IsU64, rot-lt,
}

pub add_imm_32-IsU64 : Keeps₂ add_imm_32
unfolding add_imm_32
add_imm_32-IsU64 a b p q = x_4-IsU64 _ (omega arith)

pub and_imm-IsU64 : Keeps₂ and_imm
unfolding and_imm
and_imm-IsU64 a b p q = omega (arith, bit_and-le a b)

pub xor_imm-IsU64 : Keeps₂ xor_imm
unfolding xor_imm
xor_imm-IsU64 a b p q = bit_xor-lt 64 a b p q

pub or_imm-IsU64 : Keeps₂ or_imm
unfolding or_imm
or_imm-IsU64 a b p q = bit_or-lt 64 a b p q

pub mul_imm_32-IsU64 : Keeps₂ mul_imm_32
unfolding mul_imm_32
mul_imm_32-IsU64 a b p q = ground arith

pub set_lt_u_imm-IsU64 : Keeps₂ set_lt_u_imm
unfolding set_lt_u_imm
set_lt_u_imm-IsU64 a b p q = ground arith

pub set_lt_s_imm-IsU64 : Keeps₂ set_lt_s_imm
unfolding set_lt_s_imm
set_lt_s_imm-IsU64 a b p q = ground arith

pub shlo_l_imm_32-IsU64 : Keeps₂ shlo_l_imm_32
unfolding shlo_l_imm_32
shlo_l_imm_32-IsU64 a b p q = x_4-IsU64 _ (omega arith)

pub shlo_r_imm_32-IsU64 : Keeps₂ shlo_r_imm_32
unfolding shlo_r_imm_32
shlo_r_imm_32-IsU64 a b p q = x_4-IsU64 _ (omega (arith, div-le (a % 2 ^ 32) (2 ^ (b % 32))))

pub shar_r_imm_32-IsU64 : Keeps₂ shar_r_imm_32
unfolding shar_r_imm_32
shar_r_imm_32-IsU64 a b p q = z8_inv-IsU64 _

pub neg_add_imm_32-IsU64 : Keeps₂ neg_add_imm_32
unfolding neg_add_imm_32
neg_add_imm_32-IsU64 a b p q = x_4-IsU64 _ (ground arith)

pub set_gt_u_imm-IsU64 : Keeps₂ set_gt_u_imm
unfolding set_gt_u_imm
set_gt_u_imm-IsU64 a b p q = ground arith

pub set_gt_s_imm-IsU64 : Keeps₂ set_gt_s_imm
unfolding set_gt_s_imm
set_gt_s_imm-IsU64 a b p q = ground arith

pub shlo_l_imm_alt_32-IsU64 : Keeps₂ shlo_l_imm_alt_32
unfolding shlo_l_imm_alt_32
shlo_l_imm_alt_32-IsU64 a b p q = x_4-IsU64 _ (omega arith)

pub shlo_r_imm_alt_32-IsU64 : Keeps₂ shlo_r_imm_alt_32
unfolding shlo_r_imm_alt_32
shlo_r_imm_alt_32-IsU64 a b p q = ground arith

pub shar_r_imm_alt_32-IsU64 : Keeps₂ shar_r_imm_alt_32
unfolding shar_r_imm_alt_32
shar_r_imm_alt_32-IsU64 a b p q = z8_inv-IsU64 _

pub add_imm_64-IsU64 : Keeps₂ add_imm_64
unfolding add_imm_64
add_imm_64-IsU64 a b p q = ground arith

pub mul_imm_64-IsU64 : Keeps₂ mul_imm_64
unfolding mul_imm_64
mul_imm_64-IsU64 a b p q = ground arith

pub shlo_l_imm_64-IsU64 : Keeps₂ shlo_l_imm_64
unfolding shlo_l_imm_64
shlo_l_imm_64-IsU64 a b p q = omega (arith, x_8-eq (a * 2 ^ (b % 64) % 2 ^ 64))

pub shlo_r_imm_64-IsU64 : Keeps₂ shlo_r_imm_64
unfolding shlo_r_imm_64
shlo_r_imm_64-IsU64 a b p q = omega (arith, x_8-eq (a / 2 ^ (b % 64)), shr-IsU64 a (b % 64) p)

pub shar_r_imm_64-IsU64 : Keeps₂ shar_r_imm_64
unfolding shar_r_imm_64
shar_r_imm_64-IsU64 a b p q = z8_inv-IsU64 _

pub neg_add_imm_64-IsU64 : Keeps₂ neg_add_imm_64
unfolding neg_add_imm_64
neg_add_imm_64-IsU64 a b p q = ground arith

pub shlo_l_imm_alt_64-IsU64 : Keeps₂ shlo_l_imm_alt_64
unfolding shlo_l_imm_alt_64
shlo_l_imm_alt_64-IsU64 a b p q = ground arith

pub shlo_r_imm_alt_64-IsU64 : Keeps₂ shlo_r_imm_alt_64
unfolding shlo_r_imm_alt_64
shlo_r_imm_alt_64-IsU64 a b p q = ground arith

pub shar_r_imm_alt_64-IsU64 : Keeps₂ shar_r_imm_alt_64
unfolding shar_r_imm_alt_64
shar_r_imm_alt_64-IsU64 a b p q = z8_inv-IsU64 _

pub rot_r_64_imm-IsU64 : Keeps₂ rot_r_64_imm
unfolding rot_r_64_imm
rot_r_64_imm-IsU64 a b p q = rot-IsU64 a (b % 64) (64 - b % 64) p

pub rot_r_64_imm_alt-IsU64 : Keeps₂ rot_r_64_imm_alt
unfolding rot_r_64_imm_alt
rot_r_64_imm_alt-IsU64 a b p q = rot-IsU64 b (a % 64) (64 - a % 64) q

pub rot_r_32_imm-IsU64 : Keeps₂ rot_r_32_imm
unfolding rot_r_32_imm
rot_r_32_imm-IsU64 a b p q = x_4-IsU64 _ (rot-lt a (b % 32) (32 - b % 32))

pub rot_r_32_imm_alt-IsU64 : Keeps₂ rot_r_32_imm_alt
unfolding rot_r_32_imm_alt
rot_r_32_imm_alt-IsU64 a b p q = x_4-IsU64 _ (rot-lt b (a % 32) (32 - a % 32))
