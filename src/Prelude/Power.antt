-- ===== src/Prelude/Power.antt =====
-- Powers with a variable exponent.
use Prim.Native.Nat.{ℕ, zero, suc, ◌+◌, ◌*◌, ◌^◌, ◌≤◌}
use mathlib.Core.Path.{◌≡◌, ap, ◌∙◌}
use native.Mathlib.Nat.{pow-zero, pow-suc, one-le-pow}
use native.Mathlib.Omega.{arith}

zero-pow-add : (b n : ℕ) → b ^ (0 + n) ≡ b ^ n
zero-pow-add b n = ap (λ (t : ℕ). b ^ t) (omega arith)

suc-pow-add : (b m n : ℕ) → b ^ (suc m + n) ≡ b ^ suc (m + n)
suc-pow-add b m n = ap (λ (t : ℕ). b ^ t) (omega arith)

pub pow-add : (b m n : ℕ) → b ^ (m + n) ≡ b ^ m * b ^ n
pow-add b zero n = omega (arith, zero-pow-add b n, one-mul)
  where
    one-mul : b ^ zero * b ^ n ≡ b ^ n
    one-mul = omega (arith, ap (λ (t : ℕ). t * b ^ n) (pow-zero b))
pow-add b (suc m) n = omega (
  arith,
  suc-pow-add b m n,
  pow-suc b (m + n),
  ap (λ (t : ℕ). t * b ^ n) (pow-suc b m),
  ap (λ (t : ℕ). b * t) (pow-add b m n),
)

pub two-pow-pos : (n : ℕ) → 1 ≤ 2 ^ n
two-pow-pos n = one-le-pow n 2 (omega arith)

pub two-pow-mul_8 : (n : ℕ) → 2 ^ (8 * n) ≡ 256 ^ n
two-pow-mul_8 zero = omega arith
two-pow-mul_8 (suc n) =
    let e : 8 * suc n ≡ 8 + 8 * n = omega arith in
    ap (λ (t : ℕ). 2 ^ t) e ∙ omega (arith, pow-add 2 8 (8 * n), two-pow-mul_8 n, pow-suc 256 n)
