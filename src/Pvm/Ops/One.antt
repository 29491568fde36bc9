-- ===== src/Pvm/Ops/One.antt =====
-- Two registers (opcodes 100 to 111, but for sbrk): `a` is wA.value.
use tsjam.Prelude.{ℕ, zero, suc, ◌+◌, ◌-◌, ◌*◌, ◌/◌, ◌%◌, ◌^◌, bit_and, bit_or, ◌==◌, if◌then◌else◌}
use tsjam.Pvm.Words.{z, z8_inv}

unfoldable pub move_reg : ℕ → ℕ
move_reg a = a

-- `for (...) { sum += val & 1n; val >>= 1n; }`, with the rounds left.
unfoldable pub bit_count_loop : ℕ → ℕ → ℕ → ℕ
bit_count_loop zero sum val = sum
bit_count_loop (suc left) sum val = bit_count_loop left (sum + bit_and val 1) (val / 2)

unfoldable pub count_set_bits_64 : ℕ → ℕ
unfolding bit_count_loop
count_set_bits_64 a = bit_count_loop 64 0 a

unfoldable pub count_set_bits_32 : ℕ → ℕ
unfolding bit_count_loop
count_set_bits_32 a = bit_count_loop 32 0 (a % 2 ^ 32)

-- The loop over `i` from the top bit `top` down: it stops at the first bit that is set.
unfoldable pub leading_loop : ℕ → ℕ → ℕ → ℕ → ℕ → ℕ
leading_loop top zero i count val = count
leading_loop top (suc left) i count val =
    let rest = leading_loop top left (i + 1) (count + 1) val in
    if bit_and val (1 * 2 ^ (top - i)) == 0 then rest else count

unfoldable pub leading_zero_bits_64 : ℕ → ℕ
unfolding leading_loop
leading_zero_bits_64 a = leading_loop 63 64 0 0 a

unfoldable pub leading_zero_bits_32 : ℕ → ℕ
unfolding leading_loop
leading_zero_bits_32 a = leading_loop 31 32 0 0 (a % 2 ^ 32)

unfoldable pub trailing_loop : ℕ → ℕ → ℕ → ℕ → ℕ
trailing_loop zero i count val = count
trailing_loop (suc left) i count val =
    let rest = trailing_loop left (i + 1) (count + 1) val in
    if bit_and val (1 * 2 ^ i) == 0 then rest else count

unfoldable pub trailing_zero_bits_64 : ℕ → ℕ
unfolding trailing_loop
trailing_zero_bits_64 a = trailing_loop 64 0 0 a

unfoldable pub trailing_zero_bits_32 : ℕ → ℕ
unfolding trailing_loop
trailing_zero_bits_32 a = trailing_loop 32 0 0 (a % 2 ^ 32)

unfoldable pub sign_extend_8 : ℕ → ℕ
sign_extend_8 a = z8_inv (z 1 (a % 2 ^ 8))

unfoldable pub sign_extend_16 : ℕ → ℕ
sign_extend_16 a = z8_inv (z 2 (a % 2 ^ 16))

unfoldable pub zero_extend_16 : ℕ → ℕ
zero_extend_16 a = a % 2 ^ 16

-- The loop over `i`, with `left` rounds left: `newVal |= ((a >> 8i) & 0xff) << (7 - i) * 8`.
unfoldable pub reverse_loop : ℕ → ℕ → ℕ → ℕ → ℕ
reverse_loop zero i new_val a = new_val
reverse_loop (suc left) i new_val a =
    let byte = bit_and (a / 2 ^ (i * 8)) 0xff in
    reverse_loop left (i + 1) (bit_or new_val (byte * 2 ^ ((7 - i) * 8))) a

unfoldable pub reverse_bytes : ℕ → ℕ
unfolding reverse_loop
reverse_bytes a = reverse_loop 8 0 0 a
