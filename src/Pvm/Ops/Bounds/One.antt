-- ===== src/Pvm/Ops/Bounds/One.antt =====
-- The instructions with two registers keep 64-bit values.
use tsjam.Prelude.{◌*◌, ◌/◌, ◌%◌, ◌^◌, arith}
use tsjam.Prelude.Bits.{bit_and-le, bit_or-lt}
use tsjam.Pvm.Ops.One.{
  move_reg, count_set_bits_64, count_set_bits_32, leading_zero_bits_64, leading_zero_bits_32,
  trailing_zero_bits_64, trailing_zero_bits_32, sign_extend_8, sign_extend_16, zero_extend_16,
  reverse_bytes,
}
use tsjam.Pvm.Ops.Bounds.{Keeps₁, z8_inv-IsU64, bit_count_loop-le}

pub move_reg-IsU64 : Keeps₁ move_reg
unfolding move_reg
move_reg-IsU64 a p = ground arith

pub count_set_bits_64-IsU64 : Keeps₁ count_set_bits_64
unfolding count_set_bits_64
count_set_bits_64-IsU64 a p = omega (arith, bit_count_loop-le 64 0 a)

pub count_set_bits_32-IsU64 : Keeps₁ count_set_bits_32
unfolding count_set_bits_32
count_set_bits_32-IsU64 a p = omega (arith, bit_count_loop-le 32 0 (a % 2 ^ 32))

pub leading_zero_bits_64-IsU64 : Keeps₁ leading_zero_bits_64
unfolding leading_zero_bits_64
leading_zero_bits_64-IsU64 a p = ground arith

pub leading_zero_bits_32-IsU64 : Keeps₁ leading_zero_bits_32
unfolding leading_zero_bits_32
leading_zero_bits_32-IsU64 a p = ground arith

pub trailing_zero_bits_64-IsU64 : Keeps₁ trailing_zero_bits_64
unfolding trailing_zero_bits_64
trailing_zero_bits_64-IsU64 a p = ground arith

pub trailing_zero_bits_32-IsU64 : Keeps₁ trailing_zero_bits_32
unfolding trailing_zero_bits_32
trailing_zero_bits_32-IsU64 a p = ground arith

pub sign_extend_8-IsU64 : Keeps₁ sign_extend_8
unfolding sign_extend_8
sign_extend_8-IsU64 a p = z8_inv-IsU64 _

pub sign_extend_16-IsU64 : Keeps₁ sign_extend_16
unfolding sign_extend_16
sign_extend_16-IsU64 a p = z8_inv-IsU64 _

pub zero_extend_16-IsU64 : Keeps₁ zero_extend_16
unfolding zero_extend_16
zero_extend_16-IsU64 a p = ground arith

pub reverse_bytes-IsU64 : Keeps₁ reverse_bytes
unfolding reverse_bytes
reverse_bytes-IsU64 a p =
    bit_or-lt 64 _ _
      (bit_or-lt 64 _ _
        (bit_or-lt 64 _ _
          (bit_or-lt 64 _ _
            (bit_or-lt 64 _ _
              (bit_or-lt 64 _ _
                (bit_or-lt 64 _ _
                  (bit_or-lt 64 _ _ (omega arith)
                    (omega (arith, bit_and-le (a / 2 ^ (0 * 8)) 0xff)))
                  (omega (arith, bit_and-le (a / 2 ^ (1 * 8)) 0xff)))
                (omega (arith, bit_and-le (a / 2 ^ (2 * 8)) 0xff)))
              (omega (arith, bit_and-le (a / 2 ^ (3 * 8)) 0xff)))
            (omega (arith, bit_and-le (a / 2 ^ (4 * 8)) 0xff)))
          (omega (arith, bit_and-le (a / 2 ^ (5 * 8)) 0xff)))
        (omega (arith, bit_and-le (a / 2 ^ (6 * 8)) 0xff)))
      (omega (arith, bit_and-le (a / 2 ^ (7 * 8)) 0xff))
