-- ===== src/Pvm/Words.antt =====
-- The number conversions of packages/jam-pvm-js/src/utils/zed.ts and of
-- packages/jam-pvm-js/src/instructions/utils.ts, and the rounding of JavaScript's `Number`.
-- A register value is a natural number; values that may be negative are integers.
pub mod Signs
use tsjam.Prelude.{ℕ, zero, suc, ◌+◌, ◌-◌, ◌*◌, ◌/◌, ◌%◌, ◌^◌}
use tsjam.Prelude.{ltb, leb, ◌==◌, if◌then◌else◌, ◌&&◌, ◌||◌}
use tsjam.Prelude.Int.{ℤ, pos, negsuc, pos_part, sub_ℕ, ◌+ℤ◌, ◌%ℤ◌}

-- `limit`, which the source computes as 2n ** (8n * n - 1n).
abbrev pub z_limit : ℕ → ℕ
z_limit n = 2 ^ (8 * n - 1)

-- `Z(n)(a)`: the integer that the n-byte pattern `a` stands for.
unfoldable pub z : ℕ → ℕ → ℤ
z n a = if n == 0 then pos 0 else if leb (z_limit n) a then sub_ℕ a (z_limit n * 2) else pos a

-- `Z_inv(n, a)`; `%` keeps the sign of its left operand.
unfoldable pub z_inv : ℕ → ℤ → ℤ
z_inv n a = (pos (2 ^ (8 * n)) +ℤ a) %ℤ pos (2 ^ (8 * n))

abbrev pub z8 : ℕ → ℤ
z8 a = z 8 a

-- `Z8_inv(a)` as a register value. From -2^64 on `z_inv` is not negative, so the cast is exact.
unfoldable pub z8_inv : ℤ → ℕ
unfolding z_inv
z8_inv a = pos_part (z_inv 8 a)

-- `X_fn(n)(x)`: sign extension of an n-byte pattern to 64 bits.
unfoldable pub x_fn : ℕ → ℕ → ℕ
x_fn n x = x + x / 2 ^ (8 * n - 1) * (2 ^ 64 - 2 ^ (8 * n))

abbrev pub x_4 : ℕ → ℕ
x_4 x = x_fn 4 x

-- `smod(a, b)`: the remainder with the sign of `a`, and `a` itself if `b` is 0.
unfoldable pub smod : ℤ → ℤ → ℤ
smod (pos a) (pos b) = if b == 0 then pos a else pos (a % b)
smod (pos a) (negsuc b) = pos (a % suc b)
smod (negsuc a) (pos b) = if b == 0 then negsuc a else sub_ℕ 0 (suc a % b)
smod (negsuc a) (negsuc b) = sub_ℕ 0 (suc a % suc b)

-- `Number(v)`, with the rounding of a double: 53 significant bits, ties to even. `e` is the number
-- of low bits that are dropped; 64 rounds are enough for numbers below 2^117.
round_even : ℕ → ℕ → ℕ
round_even v e =
    let q = v / 2 ^ e in
    let r = v % 2 ^ e in
    if ltb (2 ^ e) (r * 2) || ((r * 2 == 2 ^ e) && (q % 2 == 1)) then (q + 1) * 2 ^ e else q * 2 ^ e

round_from : ℕ → ℕ → ℕ → ℕ
unfolding round_even
round_from zero e v = round_even v e
round_from (suc k) e v =
    let rest = round_from k (e + 1) v in if ltb (v / 2 ^ e) (2 ^ 53) then round_even v e else rest

unfoldable pub to_number : ℕ → ℕ
unfolding round_from
to_number v = round_from 64 0 v
