-- ===== src/Pvm/Ops/Bounds/Regs.antt =====
-- The instructions with three registers keep 64-bit values.
use tsjam.Prelude.{◌-◌, ◌*◌, ◌/◌, ◌%◌, ◌^◌, arith, bit_and, bit_or}
use tsjam.Prelude.Int.{◌/ℤ◌}
use tsjam.Prelude.Bits.{bit_and-le, bit_or-lt, bit_xor-lt, bit_clear-add-bit_and}
use tsjam.Pvm.Words.{z, smod}
use tsjam.Pvm.Ops.Regs.{
  add_32, sub_32, mul_32, div_u_32, div_s_32, rem_u_32, rem_s_32, shlo_l_32, shlo_r_32, shar_r_32,
  add_64, sub_64, mul_64, div_u_64, div_s_64, rem_u_64, rem_s_64, shlo_l_64, shlo_r_64, shar_r_64,
  and, xor, or, mul_upper_s_s, mul_upper_u_u, mul_upper_s_u, set_lt_u, set_lt_s, rot_l_64, rot_l_32,
  rot_r_64, rot_r_32, and_inv, or_inv, xnor, max, max_u, min, min_u,
}
use tsjam.Pvm.Ops.Bounds.{Keeps₂, x_4-IsU64, z8_inv-IsU64, div-le, mod-le, mul-le}

pub add_32-IsU64 : Keeps₂ add_32
unfolding add_32
add_32-IsU64 a b p q = x_4-IsU64 _ (omega arith)

pub sub_32-IsU64 : Keeps₂ sub_32
unfolding sub_32
sub_32-IsU64 a b p q = x_4-IsU64 _ (omega arith)

pub mul_32-IsU64 : Keeps₂ mul_32
unfolding mul_32
mul_32-IsU64 a b p q = x_4-IsU64 _ (omega arith)

pub div_u_32-IsU64 : Keeps₂ div_u_32
unfolding div_u_32
div_u_32-IsU64 a b p q = ground arith

pub div_s_32-IsU64 : Keeps₂ div_s_32
unfolding div_s_32
div_s_32-IsU64 a b p q =
    ground
      (arith, z8_inv-IsU64 (z 4 (a % 2 ^ 32)), z8_inv-IsU64 (z 4 (a % 2 ^ 32) /ℤ z 4 (b % 2 ^ 32)))

pub rem_u_32-IsU64 : Keeps₂ rem_u_32
unfolding rem_u_32
rem_u_32-IsU64 a b p q = ground (
  arith,
  x_4-IsU64 (a % 2 ^ 32) (omega arith),
  x_4-IsU64 (a % 2 ^ 32 % (b % 2 ^ 32)) (omega (arith, mod-le (a % 2 ^ 32) (b % 2 ^ 32))),
)

pub rem_s_32-IsU64 : Keeps₂ rem_s_32
unfolding rem_s_32
rem_s_32-IsU64 a b p q = ground (arith, z8_inv-IsU64 (smod (z 4 (a % 2 ^ 32)) (z 4 (b % 2 ^ 32))))

pub shlo_l_32-IsU64 : Keeps₂ shlo_l_32
unfolding shlo_l_32
shlo_l_32-IsU64 a b p q = x_4-IsU64 _ (omega arith)

pub shlo_r_32-IsU64 : Keeps₂ shlo_r_32
unfolding shlo_r_32
shlo_r_32-IsU64 a b p q = x_4-IsU64 _ (omega (arith, div-le (a % 2 ^ 32) (2 ^ (b % 2 ^ 32 % 32))))

pub shar_r_32-IsU64 : Keeps₂ shar_r_32
unfolding shar_r_32
shar_r_32-IsU64 a b p q = z8_inv-IsU64 _

pub add_64-IsU64 : Keeps₂ add_64
unfolding add_64
add_64-IsU64 a b p q = ground arith

pub sub_64-IsU64 : Keeps₂ sub_64
unfolding sub_64
sub_64-IsU64 a b p q = ground arith

pub mul_64-IsU64 : Keeps₂ mul_64
unfolding mul_64
mul_64-IsU64 a b p q = ground arith

pub div_u_64-IsU64 : Keeps₂ div_u_64
unfolding div_u_64
div_u_64-IsU64 a b p q = ground arith

pub div_s_64-IsU64 : Keeps₂ div_s_64
unfolding div_s_64
div_s_64-IsU64 a b p q = ground (arith, z8_inv-IsU64 (z 8 a /ℤ z 8 b))

pub rem_u_64-IsU64 : Keeps₂ rem_u_64
unfolding rem_u_64
rem_u_64-IsU64 a b p q = ground arith

pub rem_s_64-IsU64 : Keeps₂ rem_s_64
unfolding rem_s_64
rem_s_64-IsU64 a b p q = ground (arith, z8_inv-IsU64 (smod (z 8 a) (z 8 b)))

pub shlo_l_64-IsU64 : Keeps₂ shlo_l_64
unfolding shlo_l_64
shlo_l_64-IsU64 a b p q = ground arith

pub shlo_r_64-IsU64 : Keeps₂ shlo_r_64
unfolding shlo_r_64
shlo_r_64-IsU64 a b p q = ground arith

pub shar_r_64-IsU64 : Keeps₂ shar_r_64
unfolding shar_r_64
shar_r_64-IsU64 a b p q = z8_inv-IsU64 _

pub and-IsU64 : Keeps₂ and
unfolding and
and-IsU64 a b p q = omega (arith, bit_and-le a b)

pub xor-IsU64 : Keeps₂ xor
unfolding xor
xor-IsU64 a b p q = bit_xor-lt 64 a b p q

pub or-IsU64 : Keeps₂ or
unfolding or
or-IsU64 a b p q = bit_or-lt 64 a b p q

pub mul_upper_s_s-IsU64 : Keeps₂ mul_upper_s_s
unfolding mul_upper_s_s
mul_upper_s_s-IsU64 a b p q = z8_inv-IsU64 _

pub mul_upper_u_u-IsU64 : Keeps₂ mul_upper_u_u
unfolding mul_upper_u_u
mul_upper_u_u-IsU64 a b p q = omega (arith, mul-le a b p q)

pub mul_upper_s_u-IsU64 : Keeps₂ mul_upper_s_u
unfolding mul_upper_s_u
mul_upper_s_u-IsU64 a b p q = z8_inv-IsU64 _

pub set_lt_u-IsU64 : Keeps₂ set_lt_u
unfolding set_lt_u
set_lt_u-IsU64 a b p q = ground arith

pub set_lt_s-IsU64 : Keeps₂ set_lt_s
unfolding set_lt_s
set_lt_s-IsU64 a b p q = ground arith

pub rot_l_64-IsU64 : Keeps₂ rot_l_64
unfolding rot_l_64
rot_l_64-IsU64 a b p q =
    omega
      (arith, bit_and-le (bit_or (a * 2 ^ bit_and b 63) (a / 2 ^ (64 - bit_and b 63))) (2 ^ 64 - 1))

pub rot_l_32-IsU64 : Keeps₂ rot_l_32
unfolding rot_l_32
rot_l_32-IsU64 a b p q = x_4-IsU64 _ (
    omega (
      arith,
      bit_and-le (bit_or (a % 2 ^ 32 * 2 ^ bit_and b 31) (a % 2 ^ 32 / 2 ^ (32 - bit_and b 31)))
          (2 ^ 32 - 1),
    ))

pub rot_r_64-IsU64 : Keeps₂ rot_r_64
unfolding rot_r_64
rot_r_64-IsU64 a b p q =
    omega
      (arith, bit_and-le (bit_or (a / 2 ^ bit_and b 63) (a * 2 ^ (64 - bit_and b 63))) (2 ^ 64 - 1))

pub rot_r_32-IsU64 : Keeps₂ rot_r_32
unfolding rot_r_32
rot_r_32-IsU64 a b p q = x_4-IsU64 _ (
    omega (
      arith,
      bit_and-le (bit_or (a % 2 ^ 32 / 2 ^ bit_and b 31) (a % 2 ^ 32 * 2 ^ (32 - bit_and b 31)))
          (2 ^ 32 - 1),
    ))

pub and_inv-IsU64 : Keeps₂ and_inv
unfolding and_inv
and_inv-IsU64 a b p q = omega (arith, bit_clear-add-bit_and a b)

pub or_inv-IsU64 : Keeps₂ or_inv
unfolding or_inv
or_inv-IsU64 a b p q = ground arith

pub xnor-IsU64 : Keeps₂ xnor
unfolding xnor
xnor-IsU64 a b p q = ground arith

pub max-IsU64 : Keeps₂ max
unfolding max
max-IsU64 a b p q = ground arith

pub max_u-IsU64 : Keeps₂ max_u
unfolding max_u
max_u-IsU64 a b p q = ground arith

pub min-IsU64 : Keeps₂ min
unfolding min
min-IsU64 a b p q = ground arith

pub min_u-IsU64 : Keeps₂ min_u
unfolding min_u
min_u-IsU64 a b p q = ground arith
