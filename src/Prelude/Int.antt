-- ===== src/Prelude/Int.antt =====
-- JavaScript's BigInt as a signed integer over the native numbers: the operators that the source
-- uses on values which may be negative.
use Prim.Native.Nat.{ℕ, suc, ◌+◌, ◌-◌, ◌*◌, ◌/◌, ◌%◌, ◌^◌, ◌≤◌, bit_and, bit_or, bit_xor}
use mathlib.Core.Bool.{Bool, false}
use tsjam.Prelude.Tests.{ltb, leb, ◌==◌, if◌then◌else◌}

-- `negsuc n` is -(n + 1).
pub data ℤ : Type 0 where
  pos : ℕ → ℤ
  negsuc : ℕ → ℤ

abbrev pub pos_part : ℤ → ℕ
pos_part (pos n) = n
pos_part (negsuc n) = 0

abbrev pub neg_part : ℤ → ℕ
neg_part (pos n) = 0
neg_part (negsuc n) = suc n

-- a - b, as an integer.
abbrev pub sub_ℕ : ℕ → ℕ → ℤ
sub_ℕ a b = if leb b a then pos (a - b) else negsuc (b - a - 1)

-- -n.
abbrev pub neg : ℕ → ℤ
neg n = sub_ℕ 0 n

infixl 65 ◌+ℤ◌ ◌-ℤ◌
infixl 70 ◌*ℤ◌ ◌/ℤ◌ ◌%ℤ◌ ◌>>ℤ◌
infix 50 ◌≤ℤ◌
abbrev pub ◌+ℤ◌ : ℤ → ℤ → ℤ
a +ℤ b = sub_ℕ (pos_part a + pos_part b) (neg_part a + neg_part b)

abbrev pub ◌-ℤ◌ : ℤ → ℤ → ℤ
a -ℤ b = sub_ℕ (pos_part a + neg_part b) (neg_part a + pos_part b)

abbrev pub ◌*ℤ◌ : ℤ → ℤ → ℤ
a *ℤ b =
    sub_ℕ (pos_part a * pos_part b + neg_part a * neg_part b)
      (pos_part a * neg_part b + neg_part a * pos_part b)

-- `a / b` and `a % b` of BigInt: the quotient is cut towards zero, and the remainder has the sign
-- of `a`.
abbrev pub ◌/ℤ◌ : ℤ → ℤ → ℤ
pos a /ℤ pos b = pos (a / b)
pos a /ℤ negsuc b = neg (a / suc b)
negsuc a /ℤ pos b = neg (suc a / b)
negsuc a /ℤ negsuc b = pos (suc a / suc b)

abbrev pub ◌%ℤ◌ : ℤ → ℤ → ℤ
pos a %ℤ pos b = pos (a % b)
pos a %ℤ negsuc b = pos (a % suc b)
negsuc a %ℤ pos b = neg (suc a % b)
negsuc a %ℤ negsuc b = neg (suc a % suc b)

-- `a >> k`, which rounds down.
abbrev pub ◌>>ℤ◌ : ℤ → ℕ → ℤ
pos a >>ℤ k = pos (a / 2 ^ k)
negsuc a >>ℤ k = negsuc (a / 2 ^ k)

abbrev pub ltb_ℤ : ℤ → ℤ → Bool
ltb_ℤ a b = ltb (pos_part a + neg_part b) (pos_part b + neg_part a)

abbrev pub leb_ℤ : ℤ → ℤ → Bool
leb_ℤ a b = leb (pos_part a + neg_part b) (pos_part b + neg_part a)

abbrev pub eq_ℤ : ℤ → ℤ → Bool
eq_ℤ (pos a) (pos b) = a == b
eq_ℤ (pos a) (negsuc b) = false
eq_ℤ (negsuc a) (pos b) = false
eq_ℤ (negsuc a) (negsuc b) = a == b

abbrev pub ◌≤ℤ◌ : ℤ → ℤ → Type 0
a ≤ℤ b = pos_part a + neg_part b ≤ pos_part b + neg_part a

-- The bits of `a` that `b` lacks: `a & ~b` on two's complement, for natural `a` and `b`.
abbrev pub bit_clear : ℕ → ℕ → ℕ
bit_clear a b = bit_xor a (bit_and a b)

abbrev pub bit_not : ℤ → ℤ
bit_not (pos n) = negsuc n
bit_not (negsuc n) = pos n

abbrev pub bit_and_ℤ : ℤ → ℤ → ℤ
bit_and_ℤ (pos a) (pos b) = pos (bit_and a b)
bit_and_ℤ (pos a) (negsuc b) = pos (bit_clear a b)
bit_and_ℤ (negsuc a) (pos b) = pos (bit_clear b a)
bit_and_ℤ (negsuc a) (negsuc b) = negsuc (bit_or a b)

abbrev pub bit_or_ℤ : ℤ → ℤ → ℤ
bit_or_ℤ (pos a) (pos b) = pos (bit_or a b)
bit_or_ℤ (pos a) (negsuc b) = negsuc (bit_clear b a)
bit_or_ℤ (negsuc a) (pos b) = negsuc (bit_clear a b)
bit_or_ℤ (negsuc a) (negsuc b) = negsuc (bit_and a b)
