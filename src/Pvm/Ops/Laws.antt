-- ===== src/Pvm/Ops/Laws.antt =====
-- What the arithmetic instructions compute, against the integers that registers stand for.
use tsjam.Prelude.{ℕ, suc, ◌/◌, ◌%◌, ◌^◌, ◌<◌, ◌≡◌, arith, ap}
use tsjam.Prelude.{not, ◌&&◌, ltb, if◌then◌else◌}
use native.Mathlib.Decide.{dec_lt}
use tsjam.Prelude.Int.{ℤ, pos, negsuc, ◌>>ℤ◌, ltb_ℤ, eq_ℤ, ◌-ℤ◌, ◌/ℤ◌, ◌%ℤ◌}
use tsjam.Prelude.Power.{two-pow-pos}
use tsjam.Pvm.Words.{z8, z8_inv}
use tsjam.Pvm.Ops.Bounds.{IsU64}
use tsjam.Pvm.Ops.Regs.{add_64, sub_64, shar_r_64}

-- On 64-bit values, subtraction undoes addition and addition undoes subtraction.
pub add_64-sub_64 :
    (a b : ℕ) → IsU64 a → IsU64 b → (sub_64 (add_64 a b) b ≡ a) × (add_64 (sub_64 a b) b ≡ a)
unfolding add_64 sub_64
add_64-sub_64 a b p q = (ground arith, ground arith)

inexact_quotient : (n d : ℕ) → 0 < d → 0 < suc n % d → n / d ≡ suc n / d
inexact_quotient n d p r = grind arith

exact_quotient : (n d : ℕ) → 0 < d → suc n % d ≡ 0 → suc (n / d) ≡ suc n / d
exact_quotient n d p r = grind arith

-- The correction of the truncated quotient.
abbrev floored : ℤ → ℕ → ℤ
floored v d =
    let inexact = not (eq_ℤ (v %ℤ pos d) (pos 0)) in
    if ltb_ℤ v (pos 0) && ltb 0 d && inexact then v /ℤ pos d -ℤ pos 1 else v /ℤ pos d

floored-shift : (v : ℤ) (k : ℕ) → floored v (2 ^ k) ≡ v >>ℤ k
floored-shift (pos n) k = ground arith
floored-shift (negsuc n) k = elim (dec_lt 0 (suc n % 2 ^ k)) [
  | yes r ↦ ground (arith, two-pow-pos k, inexact_quotient n (2 ^ k) (two-pow-pos k) r)
  | no r ↦ ground (arith, two-pow-pos k, exact_quotient n (2 ^ k) (two-pow-pos k) (omega arith))
]

-- The arithmetic shift, which divides with truncation and corrects the quotient, is the shift of the
-- signed reading that rounds down.
pub shar_r_64-shift : (a b : ℕ) → shar_r_64 a b ≡ z8_inv (z8 a >>ℤ (b % 64))
unfolding shar_r_64
shar_r_64-shift a b = ap z8_inv (floored-shift (z8 a) (b % 64))
