-- ===== src/Tests/Values.antt =====
-- The conversions and the arithmetic on concrete values.
use tsjam.Prelude.{◌%◌, ◌^◌, ◌-◌, ◌≡◌, refl, arith, inl}
use tsjam.Prelude.Int.{◌>>ℤ◌}
use tsjam.Pvm.Words.{z, z8, z8_inv, x_fn}
use tsjam.Pvm.Words.Signs.{x_fn-z}
use tsjam.Pvm.Ops.Regs.{shar_r_64}
use tsjam.Pvm.Ops.Laws.{shar_r_64-shift}

x_fn-z_example : x_fn 1 200 ≡ z8_inv (z 1 200)
x_fn-z_example = x_fn-z 1 200 (inl refl) (omega arith)

shar_r_64-shift_example : shar_r_64 (2 ^ 64 - 7) 1 ≡ z8_inv (z8 (2 ^ 64 - 7) >>ℤ (1 % 64))
shar_r_64-shift_example = shar_r_64-shift (2 ^ 64 - 7) 1
