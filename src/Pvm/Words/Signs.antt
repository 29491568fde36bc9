-- ===== src/Pvm/Words/Signs.antt =====
-- The signed readings of register values: packages/jam-pvm-js/src/utils/zed.ts and `X_fn`.
use tsjam.Prelude.{ℕ, ◌^◌, ◌<◌, ◌≡◌, arith, ◌⊎◌, inl, inr}
use tsjam.Pvm.Words.{z, z8, z8_inv, x_fn}

-- A 64-bit value is read back from its signed reading.
pub z8_inv-z8 : (a : ℕ) → a < 2 ^ 64 → z8_inv (z8 a) ≡ a
unfolding z8_inv z
z8_inv-z8 a h = ground arith

one_byte : (x : ℕ) → x < 256 → x_fn 1 x ≡ z8_inv (z 1 x)
unfolding x_fn z8_inv z
one_byte x h = ground arith

two_bytes : (x : ℕ) → x < 256 ^ 2 → x_fn 2 x ≡ z8_inv (z 2 x)
unfolding x_fn z8_inv z
two_bytes x h = ground arith

four_bytes : (x : ℕ) → x < 256 ^ 4 → x_fn 4 x ≡ z8_inv (z 4 x)
unfolding x_fn z8_inv z
four_bytes x h = ground arith

-- A pattern of one, two or four bytes, sign extended to 64 bits, is the 64-bit pattern of its signed
-- reading.
pub x_fn-z : (n x : ℕ) → (n ≡ 1) ⊎ ((n ≡ 2) ⊎ (n ≡ 4)) → x < 256 ^ n → x_fn n x ≡ z8_inv (z n x)
x_fn-z n x (inl e) h = rw e (one_byte x (rw e at h))
x_fn-z n x (inr (inl e)) h = rw e (two_bytes x (rw e at h))
x_fn-z n x (inr (inr e)) h = rw e (four_bytes x (rw e at h))
