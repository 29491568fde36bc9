-- ===== src/Codec/Ints/Widths.antt =====
-- How many bytes `E` writes behind the first one.
use tsjam.Prelude.{ℕ, ◌+◌, ◌-◌, ◌*◌, ◌/◌, ◌%◌, ◌^◌, ◌≤◌, ◌<◌, ◌≡◌, arith}
use native.Mathlib.Decide.{dec_lt}
use tsjam.Codec.Ints.{len_loop, first_loop, e_encoded_size}

-- The first byte of a number that takes `l` bytes behind it.
abbrev pub head_byte : ℕ → ℕ → ℕ
head_byte l v = 2 ^ 8 - 2 ^ (8 - l) + v / 2 ^ (8 * l)

-- The number of bytes behind the first, as long as it is no 8.
pub data Width : Type 0 where
  w₀ w₁ w₂ w₃ w₄ w₅ w₆ w₇ : Width

abbrev pub bytes_of : Width → ℕ
bytes_of w₀ = 0
bytes_of w₁ = 1
bytes_of w₂ = 2
bytes_of w₃ = 3
bytes_of w₄ = 4
bytes_of w₅ = 5
bytes_of w₆ = 6
bytes_of w₇ = 7

-- The numbers that take `w` bytes behind the first.
abbrev pub Takes : ℕ → Width → Type 0
Takes v w = (2 ^ (7 * bytes_of w) ≤ v) × (v < 2 ^ (7 * bytes_of w + 7))

-- What the choice of `l` bytes behind the first means.
pub record Fits (v l : ℕ) : Type 0 where
  pub length_found : len_loop 7 1 0 v ≡ l
  pub size_found : e_encoded_size v ≡ 1 + l
  pub positive : 0 < head_byte l v
  pub not_marker : head_byte l v < 255
  pub first_found : first_loop 8 0 0 (head_byte l v) ≡ l
  pub low_fits : v % 2 ^ (8 * l) < 256 ^ l
  pub value_back : v % 2 ^ (8 * l) + 2 ^ (8 * l) * (head_byte l v - (2 ^ 8 - 2 ^ (8 - l))) ≡ v

pub fits : (v : ℕ) (w : Width) → Takes v w → Fits v (bytes_of w)
unfolding len_loop first_loop e_encoded_size
fits v w₀ h = ground arith
fits v _ h = ground arith

-- Every number below 2^56 takes 0 to 7 bytes behind the first.
pub data Sized (v : ℕ) : Type 0 where
  sized : (w : Width) → Takes v w → Sized v

pub Sized-below : (v : ℕ) → 0 < v → v < 2 ^ 56 → Sized v
Sized-below v p h = elim (dec_lt v (2 ^ 7)) [
  | yes a ↦ sized w₀ (omega arith)
  | no a ↦ elim (dec_lt v (2 ^ 14)) [
    | yes b ↦ sized w₁ (omega arith)
    | no b ↦ elim (dec_lt v (2 ^ 21)) [
      | yes c ↦ sized w₂ (omega arith)
      | no c ↦ elim (dec_lt v (2 ^ 28)) [
        | yes d ↦ sized w₃ (omega arith)
        | no d ↦ elim (dec_lt v (2 ^ 35)) [
          | yes e ↦ sized w₄ (omega arith)
          | no e ↦ elim (dec_lt v (2 ^ 42)) [
            | yes f ↦ sized w₅ (omega arith)
            | no f ↦ elim (dec_lt v (2 ^ 49)) [
              | yes g ↦ sized w₆ (omega arith)
              | no g ↦ sized w₇ (omega arith)
            ]
          ]
        ]
      ]
    ]
  ]
]
