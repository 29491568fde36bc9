-- ===== src/Pvm/Ops/Imm.antt =====
-- Two registers and an immediate (opcodes 131 to 161): `b` is wB.value and `x` is vX.
-- `v << n` is `v * 2 ^ n` and `v >> n` is `v / 2 ^ n`.
use tsjam.Prelude.{ℕ, ◌+◌, ◌-◌, ◌*◌, ◌/◌, ◌%◌, ◌^◌, bit_and, bit_or, bit_xor, not}
use tsjam.Prelude.{ltb, ◌==◌, if◌then◌else◌, ◌&&◌}
use tsjam.Prelude.Int.{pos, pos_part, sub_ℕ, ltb_ℤ, eq_ℤ, ◌+ℤ◌, ◌-ℤ◌, ◌/ℤ◌, ◌%ℤ◌, ◌>>ℤ◌}
use tsjam.Pvm.Words.{z, z8, z8_inv, x_fn, x_4, to_number}

unfoldable pub add_imm_32 : ℕ → ℕ → ℕ
add_imm_32 b x = x_4 ((b + x) % 2 ^ 32)

unfoldable pub and_imm : ℕ → ℕ → ℕ
and_imm b x = bit_and b x

unfoldable pub xor_imm : ℕ → ℕ → ℕ
xor_imm b x = bit_xor b x

unfoldable pub or_imm : ℕ → ℕ → ℕ
or_imm b x = bit_or b x

unfoldable pub mul_imm_32 : ℕ → ℕ → ℕ
mul_imm_32 b x = b * x % 2 ^ 32

unfoldable pub set_lt_u_imm : ℕ → ℕ → ℕ
set_lt_u_imm b x = if ltb b x then 1 else 0

unfoldable pub set_lt_s_imm : ℕ → ℕ → ℕ
set_lt_s_imm b x = if ltb_ℤ (z8 b) (z8 x) then 1 else 0

unfoldable pub shlo_l_imm_32 : ℕ → ℕ → ℕ
shlo_l_imm_32 b x = x_4 (b * 2 ^ (x % 32) % 2 ^ 32)

-- `Number` is exact below 2^53.
unfoldable pub shlo_r_imm_32 : ℕ → ℕ → ℕ
shlo_r_imm_32 b x = let wb = b % 2 ^ 32 in x_4 (wb / 2 ^ (x % 32))

unfoldable pub shar_r_imm_32 : ℕ → ℕ → ℕ
shar_r_imm_32 b x = let wb = b % 2 ^ 32 in z8_inv (z 4 wb >>ℤ (x % 32))

unfoldable pub neg_add_imm_32 : ℕ → ℕ → ℕ
neg_add_imm_32 b x =
    let val = sub_ℕ (x + 2 ^ 32) b %ℤ pos (2 ^ 32) in
    x_4 (pos_part (if ltb_ℤ val (pos 0) then val +ℤ pos (2 ^ 32) else val))

unfoldable pub set_gt_u_imm : ℕ → ℕ → ℕ
set_gt_u_imm b x = if ltb x b then 1 else 0

unfoldable pub set_gt_s_imm : ℕ → ℕ → ℕ
set_gt_s_imm b x = if ltb_ℤ (z8 x) (z8 b) then 1 else 0

unfoldable pub shlo_l_imm_alt_32 : ℕ → ℕ → ℕ
shlo_l_imm_alt_32 b x = x_4 (x * 2 ^ (b % 32) % 2 ^ 32)

-- `Number(vX) >>> n`: the immediate is rounded to a double before it is cut to 32 bits.
unfoldable pub shlo_r_imm_alt_32 : ℕ → ℕ → ℕ
shlo_r_imm_alt_32 b x = to_number x % 2 ^ 32 / 2 ^ (b % 32)

unfoldable pub shar_r_imm_alt_32 : ℕ → ℕ → ℕ
shar_r_imm_alt_32 b x = z8_inv (z 4 (x % 2 ^ 32) >>ℤ (b % 32))

-- The conditional moves keep wA, `a`, where the test fails.
unfoldable pub cmov_iz_imm : ℕ → ℕ → ℕ → ℕ
cmov_iz_imm a b x = if b == 0 then x else a

unfoldable pub cmov_nz_imm : ℕ → ℕ → ℕ → ℕ
cmov_nz_imm a b x = if not (b == 0) then x else a

unfoldable pub add_imm_64 : ℕ → ℕ → ℕ
add_imm_64 b x = (b + x) % 2 ^ 64

unfoldable pub mul_imm_64 : ℕ → ℕ → ℕ
mul_imm_64 b x = b * x % 2 ^ 64

unfoldable pub shlo_l_imm_64 : ℕ → ℕ → ℕ
shlo_l_imm_64 b x = x_fn 8 (b * 2 ^ (x % 64) % 2 ^ 64)

unfoldable pub shlo_r_imm_64 : ℕ → ℕ → ℕ
shlo_r_imm_64 b x = x_fn 8 (b / 2 ^ (x % 64))

unfoldable pub shar_r_imm_64 : ℕ → ℕ → ℕ
shar_r_imm_64 b x =
    let z8b = z8 b in
    let dividend = 2 ^ (x % 64) in
    let result = z8b /ℤ pos dividend in
    let inexact = not (eq_ℤ (z8b %ℤ pos dividend) (pos 0)) in
    z8_inv (if ltb_ℤ z8b (pos 0) && ltb 0 dividend && inexact then result -ℤ pos 1 else result)

-- A register value is below 2^64, so the subtraction does not stop at 0.
unfoldable pub neg_add_imm_64 : ℕ → ℕ → ℕ
neg_add_imm_64 b x = (x + 2 ^ 64 - b) % 2 ^ 64

unfoldable pub shlo_l_imm_alt_64 : ℕ → ℕ → ℕ
shlo_l_imm_alt_64 b x = x * 2 ^ (b % 64) % 2 ^ 64

unfoldable pub shlo_r_imm_alt_64 : ℕ → ℕ → ℕ
shlo_r_imm_alt_64 b x = x / 2 ^ (b % 64) % 2 ^ 64

unfoldable pub shar_r_imm_alt_64 : ℕ → ℕ → ℕ
shar_r_imm_alt_64 b x = z8_inv (z8 x >>ℤ (b % 64))

unfoldable pub rot_r_64_imm : ℕ → ℕ → ℕ
rot_r_64_imm b x =
    let shift = x % 64 in
    let mask = 2 ^ 64 - 1 in bit_or (b / 2 ^ shift) (bit_and (b * 2 ^ (64 - shift)) mask)

unfoldable pub rot_r_64_imm_alt : ℕ → ℕ → ℕ
rot_r_64_imm_alt b x =
    let shift = b % 64 in
    let mask = 2 ^ 64 - 1 in bit_or (x / 2 ^ shift) (bit_and (x * 2 ^ (64 - shift)) mask)

unfoldable pub rot_r_32_imm : ℕ → ℕ → ℕ
rot_r_32_imm b x =
    let shift = x % 32 in
    let mask = 2 ^ 32 - 1 in
    let value = b % 2 ^ 32 in
    x_4 (bit_or (value / 2 ^ shift) (bit_and (value * 2 ^ (32 - shift)) mask))

unfoldable pub rot_r_32_imm_alt : ℕ → ℕ → ℕ
rot_r_32_imm_alt b x =
    let shift = b % 32 in
    let mask = 2 ^ 32 - 1 in
    let value = x % 2 ^ 32 in
    x_4 (bit_or (value / 2 ^ shift) (bit_and (value * 2 ^ (32 - shift)) mask))
