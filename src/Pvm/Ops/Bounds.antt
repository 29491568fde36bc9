-- ===== src/Pvm/Ops/Bounds.antt =====
-- Every arithmetic instruction gives a 64-bit value again: what the proofs share.
pub mod Imm
pub mod Regs
pub mod One
use tsjam.Prelude.{
  ℕ, zero, suc, ◌+◌, ◌-◌, ◌*◌, ◌/◌, ◌%◌, ◌^◌, ◌≤◌, ◌<◌, ◌≡◌, arith, bit_and, bit_or,
}
use tsjam.Prelude.{ltb, if◌then◌else◌}
use tsjam.Prelude.Int.{ℤ, pos, negsuc, ◌/ℤ◌}
use tsjam.Prelude.Bits.{bit_and-le, bit_or-lt, bit_xor-lt, bit_clear-add-bit_and}
use native.Mathlib.Nat.{mul-le-mul}
use tsjam.Pvm.Words.{z, z8_inv, x_fn, x_4, smod, to_number}
use tsjam.Pvm.Ops.Imm.{
  add_imm_32, and_imm, xor_imm, or_imm, mul_imm_32, set_lt_u_imm, set_lt_s_imm, shlo_l_imm_32,
  shlo_r_imm_32, shar_r_imm_32, neg_add_imm_32, set_gt_u_imm, set_gt_s_imm, shlo_l_imm_alt_32,
  shlo_r_imm_alt_32, shar_r_imm_alt_32, add_imm_64, mul_imm_64, shlo_l_imm_64, shlo_r_imm_64,
  shar_r_imm_64, neg_add_imm_64, shlo_l_imm_alt_64, shlo_r_imm_alt_64, shar_r_imm_alt_64,
  rot_r_64_imm, rot_r_64_imm_alt, rot_r_32_imm, rot_r_32_imm_alt,
}
use tsjam.Pvm.Ops.Regs.{
  add_32, sub_32, mul_32, div_u_32, div_s_32, rem_u_32, rem_s_32, shlo_l_32, shlo_r_32, shar_r_32,
  add_64, sub_64, mul_64, div_u_64, div_s_64, rem_u_64, rem_s_64, shlo_l_64, shlo_r_64, shar_r_64,
  and, xor, or, mul_upper_s_s, mul_upper_u_u, mul_upper_s_u, set_lt_u, set_lt_s, rot_l_64, rot_l_32,
  rot_r_64, rot_r_32, and_inv, or_inv, xnor, max, max_u, min, min_u,
}
use tsjam.Pvm.Ops.One.{
  bit_count_loop, reverse_loop, move_reg, count_set_bits_64, count_set_bits_32,
  leading_zero_bits_64, leading_zero_bits_32, trailing_zero_bits_64, trailing_zero_bits_32,
  sign_extend_8, sign_extend_16, zero_extend_16, reverse_bytes,
}

abbrev pub IsU64 : ℕ → Type 0
IsU64 v = v < 2 ^ 64

abbrev pub Keeps₁ : (ℕ → ℕ) → Type 0
Keeps₁ f = (a : ℕ) → IsU64 a → IsU64 (f a)

abbrev pub Keeps₂ : (ℕ → ℕ → ℕ) → Type 0
Keeps₂ f = (a b : ℕ) → IsU64 a → IsU64 b → IsU64 (f a b)

pub x_4-IsU64 : (y : ℕ) → y < 2 ^ 32 → IsU64 (x_4 y)
unfolding x_fn
x_4-IsU64 y h = omega arith

pub z8_inv-IsU64 : (v : ℤ) → IsU64 (z8_inv v)
unfolding z8_inv
z8_inv-IsU64 (pos n) = ground arith
z8_inv-IsU64 (negsuc n) = ground arith

pub div-le : (a d : ℕ) → a / d ≤ a
div-le a d = grind arith

pub shr-IsU64 : (a s : ℕ) → IsU64 a → IsU64 (a / 2 ^ s)
shr-IsU64 a s h = omega (arith, div-le a (2 ^ s))

pub x_8-eq : (y : ℕ) → x_fn 8 y ≡ y
unfolding x_fn
x_8-eq y = omega arith

pub mod-le : (a d : ℕ) → a % d ≤ a
mod-le a d = grind arith

pub mul-le : (a b : ℕ) → IsU64 a → IsU64 b → a * b ≤ (2 ^ 64 - 1) * (2 ^ 64 - 1)
mul-le a b p q = mul-le-mul {n₂ = 2 ^ 64 - 1} {m₂ = 2 ^ 64 - 1} (omega arith) (omega arith)

-- What the rotations put together fits the width.
pub rot-IsU64 :
    (v s t : ℕ) → IsU64 v → IsU64 (bit_or (v / 2 ^ s) (bit_and (v * 2 ^ t) (2 ^ 64 - 1)))
rot-IsU64 v s t h =
    bit_or-lt 64 _ _ (shr-IsU64 v s h) (omega (arith, bit_and-le (v * 2 ^ t) (2 ^ 64 - 1)))

pub rot-lt :
    (v s t : ℕ) → bit_or (v % 2 ^ 32 / 2 ^ s) (bit_and (v % 2 ^ 32 * 2 ^ t) (2 ^ 32 - 1)) < 2 ^ 32
rot-lt v s t =
    bit_or-lt 32 _ _ (omega (arith, div-le (v % 2 ^ 32) (2 ^ s)))
      (omega (arith, bit_and-le (v % 2 ^ 32 * 2 ^ t) (2 ^ 32 - 1)))

pub bit_count_loop-le : (n s v : ℕ) → bit_count_loop n s v ≤ s + n
unfolding bit_count_loop
bit_count_loop-le zero s v = omega arith
bit_count_loop-le (suc n) s v =
    omega (arith, bit_and-le v 1, bit_count_loop-le n (s + bit_and v 1) (v / 2))
