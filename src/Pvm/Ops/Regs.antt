-- ===== src/Pvm/Ops/Regs.antt =====
-- Three registers (opcodes 190 to 230): `a` is wA.value and `b` is wB.value.
use tsjam.Prelude.{ℕ, ◌+◌, ◌-◌, ◌*◌, ◌/◌, ◌%◌, ◌^◌, bit_and, bit_or, bit_xor, not}
use tsjam.Prelude.{ltb, ◌==◌, if◌then◌else◌, ◌&&◌}
use tsjam.Prelude.Int.{
  pos, pos_part, neg, ltb_ℤ, eq_ℤ, ◌+ℤ◌, ◌-ℤ◌, ◌*ℤ◌, ◌/ℤ◌, ◌%ℤ◌, ◌>>ℤ◌, bit_not, bit_and_ℤ,
  bit_or_ℤ,
}
use tsjam.Pvm.Words.{z, z8, z8_inv, x_4, smod}

unfoldable pub add_32 : ℕ → ℕ → ℕ
add_32 a b = x_4 ((a + b) % 2 ^ 32)

unfoldable pub sub_32 : ℕ → ℕ → ℕ
sub_32 a b = x_4 ((a + 2 ^ 32 - b % 2 ^ 32) % 2 ^ 32)

unfoldable pub mul_32 : ℕ → ℕ → ℕ
mul_32 a b = x_4 (a * b % 2 ^ 32)

-- The quotient is of the whole registers, though the test is of 32 bits.
unfoldable pub div_u_32 : ℕ → ℕ → ℕ
div_u_32 a b = if b % 2 ^ 32 == 0 then 2 ^ 64 - 1 else a / b

-- `Math.trunc(z4a / z4b)` on doubles is the exact quotient, as both are 32-bit integers.
unfoldable pub div_s_32 : ℕ → ℕ → ℕ
div_s_32 a b =
    let z4a = z 4 (a % 2 ^ 32) in
    let z4b = z 4 (b % 2 ^ 32) in
    if eq_ℤ z4b (pos 0)
    then 2 ^ 64 - 1
    else if eq_ℤ z4a (neg (2 ^ 31)) && eq_ℤ z4b (neg 1)
    then z8_inv z4a
    else z8_inv (z4a /ℤ z4b)

unfoldable pub rem_u_32 : ℕ → ℕ → ℕ
rem_u_32 a b = if b % 2 ^ 32 == 0 then x_4 (a % 2 ^ 32) else x_4 (a % 2 ^ 32 % (b % 2 ^ 32))

unfoldable pub rem_s_32 : ℕ → ℕ → ℕ
rem_s_32 a b =
    let z4a = z 4 (a % 2 ^ 32) in
    let z4b = z 4 (b % 2 ^ 32) in
    if eq_ℤ z4a (neg (2 ^ 31)) && eq_ℤ z4b (neg 1) then 0 else z8_inv (smod z4a z4b)

unfoldable pub shlo_l_32 : ℕ → ℕ → ℕ
shlo_l_32 a b = x_4 (a * 2 ^ (b % 32) % 2 ^ 32)

-- `>>>` takes its right operand modulo 32.
unfoldable pub shlo_r_32 : ℕ → ℕ → ℕ
shlo_r_32 a b = let wa_32 = a % 2 ^ 32 in let wb_32 = b % 2 ^ 32 in x_4 (wa_32 / 2 ^ (wb_32 % 32))

-- A division of a double by a power of two is exact, so `Math.floor` of it is `>>`.
unfoldable pub shar_r_32 : ℕ → ℕ → ℕ
shar_r_32 a b = let z4a = z 4 (a % 2 ^ 32) in z8_inv (z4a >>ℤ (b % 2 ^ 32 % 32))

unfoldable pub add_64 : ℕ → ℕ → ℕ
add_64 a b = (a + b) % 2 ^ 64

-- A register value is below 2^64, so the subtraction does not stop at 0.
unfoldable pub sub_64 : ℕ → ℕ → ℕ
sub_64 a b = (a + 2 ^ 64 - b) % 2 ^ 64

unfoldable pub mul_64 : ℕ → ℕ → ℕ
mul_64 a b = a * b % 2 ^ 64

unfoldable pub div_u_64 : ℕ → ℕ → ℕ
div_u_64 a b = if b == 0 then 2 ^ 64 - 1 else a / b

unfoldable pub div_s_64 : ℕ → ℕ → ℕ
div_s_64 a b =
    let z8a = z8 a in
    let z8b = z8 b in
    if b == 0
    then 2 ^ 64 - 1
    else if eq_ℤ z8a (neg (2 ^ 63)) && eq_ℤ z8b (neg 1)
    then a
    else z8_inv (z8a /ℤ z8b)

unfoldable pub rem_u_64 : ℕ → ℕ → ℕ
rem_u_64 a b = if b == 0 then a else a % b

unfoldable pub rem_s_64 : ℕ → ℕ → ℕ
rem_s_64 a b =
    let z8a = z8 a in
    let z8b = z8 b in
    if eq_ℤ z8a (neg (2 ^ 63)) && eq_ℤ z8b (neg 1) then 0 else z8_inv (smod z8a z8b)

unfoldable pub shlo_l_64 : ℕ → ℕ → ℕ
shlo_l_64 a b = a * 2 ^ (b % 64) % 2 ^ 64

unfoldable pub shlo_r_64 : ℕ → ℕ → ℕ
shlo_r_64 a b = a / 2 ^ (b % 64)

unfoldable pub shar_r_64 : ℕ → ℕ → ℕ
shar_r_64 a b =
    let z8a = z8 a in
    let dividend = 2 ^ (b % 64) in
    let result = z8a /ℤ pos dividend in
    let inexact = not (eq_ℤ (z8a %ℤ pos dividend) (pos 0)) in
    z8_inv (if ltb_ℤ z8a (pos 0) && ltb 0 dividend && inexact then result -ℤ pos 1 else result)

unfoldable pub and : ℕ → ℕ → ℕ
and a b = bit_and a b

unfoldable pub xor : ℕ → ℕ → ℕ
xor a b = bit_xor a b

unfoldable pub or : ℕ → ℕ → ℕ
or a b = bit_or a b

unfoldable pub mul_upper_s_s : ℕ → ℕ → ℕ
mul_upper_s_s a b = z8_inv (z8 a *ℤ z8 b /ℤ pos (2 ^ 64))

unfoldable pub mul_upper_u_u : ℕ → ℕ → ℕ
mul_upper_u_u a b = a * b / 2 ^ 64

unfoldable pub mul_upper_s_u : ℕ → ℕ → ℕ
mul_upper_s_u a b =
    let mult = z8 a *ℤ pos b in
    let val = mult /ℤ pos (2 ^ 64) in
    let inexact = not (eq_ℤ (mult %ℤ pos (2 ^ 64)) (pos 0)) in
    z8_inv (if ltb_ℤ val (pos 0) && inexact then val -ℤ pos 1 else val)

unfoldable pub set_lt_u : ℕ → ℕ → ℕ
set_lt_u a b = if ltb a b then 1 else 0

unfoldable pub set_lt_s : ℕ → ℕ → ℕ
set_lt_s a b = if ltb_ℤ (z8 a) (z8 b) then 1 else 0

-- The conditional moves keep wD, `d`, where the test fails.
unfoldable pub cmov_iz : ℕ → ℕ → ℕ → ℕ
cmov_iz d a b = if b == 0 then a else d

unfoldable pub cmov_nz : ℕ → ℕ → ℕ → ℕ
cmov_nz d a b = if not (b == 0) then a else d

unfoldable pub rot_l_64 : ℕ → ℕ → ℕ
rot_l_64 a b =
    let shift = bit_and b 63 in
    let mask = 2 ^ 64 - 1 in bit_and (bit_or (a * 2 ^ shift) (a / 2 ^ (64 - shift))) mask

unfoldable pub rot_l_32 : ℕ → ℕ → ℕ
rot_l_32 a b =
    let wa = a % 2 ^ 32 in
    let shift = bit_and b 31 in
    let mask = 2 ^ 32 - 1 in x_4 (bit_and (bit_or (wa * 2 ^ shift) (wa / 2 ^ (32 - shift))) mask)

unfoldable pub rot_r_64 : ℕ → ℕ → ℕ
rot_r_64 a b =
    let shift = bit_and b 63 in
    let mask = 2 ^ 64 - 1 in bit_and (bit_or (a / 2 ^ shift) (a * 2 ^ (64 - shift))) mask

unfoldable pub rot_r_32 : ℕ → ℕ → ℕ
rot_r_32 a b =
    let wa = a % 2 ^ 32 in
    let shift = bit_and b 31 in
    let mask = 2 ^ 32 - 1 in x_4 (bit_and (bit_or (wa / 2 ^ shift) (wa * 2 ^ (32 - shift))) mask)

-- With `a` natural the conjunction is natural too, so the cast is exact.
unfoldable pub and_inv : ℕ → ℕ → ℕ
and_inv a b = pos_part (bit_and_ℤ (pos a) (bit_not (pos b)))

unfoldable pub or_inv : ℕ → ℕ → ℕ
or_inv a b = pos_part ((pos (2 ^ 64) +ℤ bit_or_ℤ (pos a) (bit_not (pos b))) %ℤ pos (2 ^ 64))

unfoldable pub xnor : ℕ → ℕ → ℕ
xnor a b = pos_part ((pos (2 ^ 64) +ℤ bit_not (pos (bit_xor a b))) %ℤ pos (2 ^ 64))

unfoldable pub max : ℕ → ℕ → ℕ
max a b = if ltb_ℤ (z8 b) (z8 a) then a else b

unfoldable pub max_u : ℕ → ℕ → ℕ
max_u a b = if ltb b a then a else b

unfoldable pub min : ℕ → ℕ → ℕ
min a b = if ltb_ℤ (z8 a) (z8 b) then a else b

unfoldable pub min_u : ℕ → ℕ → ℕ
min_u a b = if ltb a b then a else b
