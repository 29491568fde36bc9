-- ===== src/Codec/Buffer.antt =====
-- `toBigIntLE` and `toBufferLE` of the package bigint-buffer, which is not part of the repository,
-- and the byte arrays of the codecs. A `Uint8Array` is a list of numbers below 256.
use tsjam.Prelude.{ℕ, ◌+◌, ◌-◌, ◌*◌, ◌^◌, ◌<◌, ◌≡◌}
use tsjam.Prelude.{Option, none, some, List, [], ◌∷◌, ◌++◌}
use tsjam.Prelude.{length, take, drop, All, leb, if◌then◌else◌}

abbrev pub IsByte : ℕ → Type 0
IsByte b = b < 256

abbrev pub IsBytes : List ℕ → Type 0
IsBytes bs = All IsByte bs

-- What the package documents: the first byte is the least significant one, and a number that fits
-- the width is written in that many bytes, which read back as the number.
pub record BigintBuffer : Type 0 where
  pub to_bigint_le : List ℕ → ℕ
  pub to_buffer_le : ℕ → ℕ → List ℕ
  pub to_bigint_le-nil : to_bigint_le [] ≡ 0
  pub to_bigint_le-cons :
      (b : ℕ) (bs : List ℕ) → IsBytes (b ∷ bs) → to_bigint_le (b ∷ bs) ≡ b + 256 * to_bigint_le bs
  pub length-to_buffer_le : (v width : ℕ) → v < 256 ^ width → length (to_buffer_le v width) ≡ width
  pub to_buffer_le-IsBytes : (v width : ℕ) → v < 256 ^ width → IsBytes (to_buffer_le v width)
  pub to_bigint_le-to_buffer_le :
      (v width : ℕ) → v < 256 ^ width → to_bigint_le (to_buffer_le v width) ≡ v

-- `bytes.set(src)`: a range error if `src` is longer.
unfoldable pub set_bytes : List ℕ → List ℕ → Option (List ℕ)
set_bytes bytes src =
    if leb (length src) (length bytes) then some (src ++ drop (length src) bytes) else none

-- `bytes.subarray(from, to)`.
unfoldable pub subarray : List ℕ → ℕ → ℕ → List ℕ
subarray bytes from to = take (to - from) (drop from bytes)
