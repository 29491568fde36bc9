-- ===== src/Prelude/Bits.antt =====
-- `bit_and`, `bit_or` and `bit_xor` at variables: one law for the lowest digit, bounds, and the
-- forms as arithmetic of masks and of disjoint fields.
use Prim.Native.Nat.{ℕ, zero, suc, ◌+◌, ◌-◌, ◌*◌, ◌/◌, ◌%◌, ◌^◌, ◌≤◌, ◌<◌, min, max}
use Prim.Native.Nat.{digits, bitwise, differ, bit_and, bit_or, bit_xor}
use Prim.Native.Nat.{bit_and-bitwise, bit_or-bitwise, bit_xor-bitwise}
use mathlib.Core.Path.{◌≡◌, refl, ap, ◌∙◌}
use native.Mathlib.Nat.{le_refl, pow-suc}
use native.Mathlib.Omega.{arith}
use tsjam.Prelude.Power.{two-pow-pos}

-- `digits` has fuel: what is more than enough changes nothing, which leaves a law for the lowest
-- digit.
module _ (rest : ℕ → ℕ) (digit : ℕ → ℕ → ℕ) where
  one_more : (k x y : ℕ) → x ≤ k → digits rest digit (suc k) x y ≡ digits rest digit k x y
  one_more zero zero y h = refl
  one_more (suc k) zero y h = refl
  one_more zero (suc x) y h = absurd (omega arith)
  one_more (suc k) (suc x) y h = rw (one_more k (suc x / 2) (y / 2) (omega arith))

  any_more : (i k x y : ℕ) → x ≤ k → digits rest digit (i + k) x y ≡ digits rest digit k x y
  any_more zero k x y h = ap (λ (n : ℕ). digits rest digit n x y) (omega arith)
  any_more (suc i) k x y h =
      let e : suc i + k ≡ suc (i + k) = omega arith in
      ap (λ (n : ℕ). digits rest digit n x y) e
      ∙ one_more (i + k) x y (omega arith)
      ∙ any_more i k x y h

  lowest_digit :
      (x y : ℕ)
      → bitwise rest digit (suc x) y
        ≡ bitwise rest digit (suc x / 2) (y / 2) * 2 + digit (suc x % 2) (y % 2)
  lowest_digit x y =
      let half = suc x / 2 in
      let spare : x - half + half ≡ x = omega arith in
      let e = ap (λ (n : ℕ). digits rest digit n half (y / 2)) spare in
      omega (arith, e, any_more (x - half) half half (y / 2) (le_refl half))

-- A digit is 0 or 1.
digit_sum : (x y : ℕ) → x < 2 → y < 2 → differ x y + 2 * min x y ≡ x + y
digit_sum zero zero p q = refl
digit_sum zero (suc zero) p q = refl
digit_sum zero (suc (suc y)) p q = absurd (omega arith)
digit_sum (suc zero) zero p q = refl
digit_sum (suc zero) (suc zero) p q = refl
digit_sum (suc zero) (suc (suc y)) p q = absurd (omega arith)
digit_sum (suc (suc x)) y p q = absurd (omega arith)

pub bit_and_step : (x y : ℕ) → bit_and x y ≡ bit_and (x / 2) (y / 2) * 2 + min (x % 2) (y % 2)
bit_and_step zero y = simp bit_and-bitwise (omega arith)
bit_and_step (suc x) y = simp bit_and-bitwise (lowest_digit (λ v. 0) min x y)

pub bit_or_step : (x y : ℕ) → bit_or x y ≡ bit_or (x / 2) (y / 2) * 2 + max (x % 2) (y % 2)
bit_or_step zero y = simp bit_or-bitwise (omega arith)
bit_or_step (suc x) y = simp bit_or-bitwise (lowest_digit (λ v. v) max x y)

zero-bit_xor : (y : ℕ) → bit_xor 0 y ≡ y
zero-bit_xor y = bit_xor-bitwise 0 y

pub bit_xor_step : (x y : ℕ) → bit_xor x y ≡ bit_xor (x / 2) (y / 2) * 2 + differ (x % 2) (y % 2)
bit_xor_step zero y =
    omega
      (arith, zero-bit_xor y, zero-bit_xor (y / 2), digit_sum 0 (y % 2) (omega arith) (omega arith))
bit_xor_step (suc x) y = simp bit_xor-bitwise (lowest_digit (λ v. v) differ x y)

bit_and-le_fuel : (n x y : ℕ) → x ≤ n → (bit_and x y ≤ x) × (bit_and x y ≤ y)
bit_and-le_fuel n zero y h = omega (arith, bit_and-bitwise 0 y)
bit_and-le_fuel zero (suc x) y h = absurd (omega arith)
bit_and-le_fuel (suc n) (suc x) y h =
    omega (arith, bit_and_step (suc x) y, bit_and-le_fuel n (suc x / 2) (y / 2) (omega arith))

-- `x & b` is at most `a` and at most `b`.
pub bit_and-le : (x y : ℕ) → (bit_and x y ≤ x) × (bit_and x y ≤ y)
bit_and-le x y = bit_and-le_fuel x x y (le_refl x)

-- `a | b` and `a ^ b` fit the width that both fit.
pub bit_or-lt : (k a b : ℕ) → a < 2 ^ k → b < 2 ^ k → bit_or a b < 2 ^ k
bit_or-lt zero zero zero p q = omega (arith, bit_or-bitwise 0 0)
bit_or-lt zero zero (suc b) p q = absurd (omega arith)
bit_or-lt zero (suc a) b p q = absurd (omega arith)
bit_or-lt (suc k) a b p q = omega (
  arith,
  pow-suc 2 k,
  bit_or_step a b,
  bit_or-lt k (a / 2) (b / 2) (omega (arith, pow-suc 2 k)) (omega (arith, pow-suc 2 k)),
)

pub bit_xor-lt : (k a b : ℕ) → a < 2 ^ k → b < 2 ^ k → bit_xor a b < 2 ^ k
bit_xor-lt zero zero zero p q = omega (arith, bit_xor-bitwise 0 0)
bit_xor-lt zero zero (suc b) p q = absurd (omega arith)
bit_xor-lt zero (suc a) b p q = absurd (omega arith)
bit_xor-lt (suc k) a b p q = omega (
  arith,
  pow-suc 2 k,
  bit_xor_step a b,
  digit_sum (a % 2) (b % 2) (omega arith) (omega arith),
  bit_xor-lt k (a / 2) (b / 2) (omega (arith, pow-suc 2 k)) (omega (arith, pow-suc 2 k)),
)

half_and :
    (a b : ℕ)
    → (bit_and a b / 2 ≡ bit_and (a / 2) (b / 2)) × (bit_and a b % 2 ≡ min (a % 2) (b % 2))
half_and a b = omega (arith, bit_and_step a b)

digit_clear : (x y : ℕ) → x < 2 → y < 2 → differ x (min x y) + min x y ≡ x
digit_clear zero zero p q = refl
digit_clear zero (suc zero) p q = refl
digit_clear zero (suc (suc y)) p q = absurd (omega arith)
digit_clear (suc zero) zero p q = refl
digit_clear (suc zero) (suc zero) p q = refl
digit_clear (suc zero) (suc (suc y)) p q = absurd (omega arith)
digit_clear (suc (suc x)) y p q = absurd (omega arith)

bit_clear_fuel : (n a b : ℕ) → a ≤ n → bit_xor a (bit_and a b) + bit_and a b ≡ a
bit_clear_fuel n zero b h = omega (arith, bit_and-bitwise 0 b, zero-bit_xor (bit_and 0 b))
bit_clear_fuel zero (suc a) b h = absurd (omega arith)
bit_clear_fuel (suc n) (suc a) b h =
    let c = bit_and (suc a) b in
    omega (
      arith,
      bit_xor_step (suc a) c,
      ap (λ (t : ℕ). bit_xor (suc a / 2) t) ((half_and (suc a) b).0),
      ap (λ (t : ℕ). differ (suc a % 2) t) ((half_and (suc a) b).1),
      half_and (suc a) b,
      digit_clear (suc a % 2) (b % 2) (omega arith) (omega arith),
      bit_clear_fuel n (suc a / 2) (b / 2) (omega arith),
    )

-- `a & ~b` is `a` less the bits shared with `b`.
pub bit_clear-add-bit_and : (a b : ℕ) → bit_xor a (bit_and a b) + bit_and a b ≡ a
bit_clear-add-bit_and a b = bit_clear_fuel a a b (le_refl a)

bit_or-zero_fuel : (n a : ℕ) → a ≤ n → bit_or a 0 ≡ a
bit_or-zero_fuel n zero h = refl
bit_or-zero_fuel zero (suc a) h = absurd (omega arith)
bit_or-zero_fuel (suc n) (suc a) h =
    omega (arith, bit_or_step (suc a) 0, bit_or-zero_fuel n (suc a / 2) (omega arith))

pub bit_or-zero : (a : ℕ) → bit_or a 0 ≡ a
bit_or-zero a = bit_or-zero_fuel a a (le_refl a)

bit_or_comm_fuel : (n a b : ℕ) → a ≤ n → b ≤ n → bit_or a b ≡ bit_or b a
bit_or_comm_fuel n zero zero p q = refl
bit_or_comm_fuel zero (suc a) b p q = absurd (omega arith)
bit_or_comm_fuel zero zero (suc b) p q = absurd (omega arith)
bit_or_comm_fuel (suc n) zero (suc b) p q =
    omega (arith, bit_or-zero (suc b), bit_or-bitwise 0 (suc b))
bit_or_comm_fuel (suc n) (suc a) b p q = omega (
  arith,
  bit_or_step (suc a) b,
  bit_or_step b (suc a),
  bit_or_comm_fuel n (suc a / 2) (b / 2) (omega arith) (omega arith),
)

pub bit_or_comm : (a b : ℕ) → bit_or a b ≡ bit_or b a
bit_or_comm a b = bit_or_comm_fuel (a + b) a b (omega arith) (omega arith)

shift_more : (k high : ℕ) → high * 2 ^ suc k ≡ high * 2 ^ k * 2
shift_more k high = omega (arith, ap (λ (power : ℕ). high * power) (pow-suc 2 k))

-- `(q << k) | r` is a sum when `r` fits `k` bits.
pub bit_or_fields : (k high low : ℕ) → low < 2 ^ k → bit_or (high * 2 ^ k) low ≡ high * 2 ^ k + low
bit_or_fields zero high low fits = ground (arith, bit_or-zero high)
bit_or_fields (suc k) high low fits = ground (
  arith,
  bit_or_step (high * 2 ^ suc k) low,
  shift_more k high,
  bit_or_fields k high (low / 2) (omega (arith, pow-suc 2 k)),
)

bit_and-zero : (a : ℕ) → bit_and a 0 ≡ 0
bit_and-zero a = omega (arith, bit_and-le a 0)

bit_and_fields : (k high low : ℕ) → low < 2 ^ k → bit_and (high * 2 ^ k + low) (2 ^ k - 1) ≡ low
bit_and_fields zero high low fits = omega (arith, bit_and-zero (high * 2 ^ 0 + low))
bit_and_fields (suc k) high low fits = ground (
  arith,
  bit_and_step (high * 2 ^ suc k + low) (2 ^ suc k - 1),
  shift_more k high,
  pow-suc 2 k,
  two-pow-pos k,
  bit_and_fields k high (low / 2) (omega (arith, pow-suc 2 k)),
)

-- A mask of `k` low bits is the remainder by `2 ^ k`.
pub bit_and_mask : (k a : ℕ) → bit_and a (2 ^ k - 1) ≡ a % 2 ^ k
bit_and_mask k a = ground (arith, two-pow-pos k, bit_and_fields k (a / 2 ^ k) (a % 2 ^ k))
