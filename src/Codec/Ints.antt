-- ===== src/Codec/Ints.antt =====
-- packages/jam-codec/src/ints: `E_sub` (e-subscr.ts), `LittleEndian` (little-endian.ts), `E` (e.ts)
-- and `E4star` (e4star.ts). An encoder takes the value and the array that it writes to, and gives the
-- array afterwards with the number of bytes written; `none` is an exception. A decoder gives the
-- value with the number of bytes read. The assertions that a value is not negative hold of numbers.
mod Widths
mod Views
pub mod RoundTrip
pub mod Fixed
pub mod Star
use tsjam.Prelude.{ℕ, zero, suc, ◌+◌, ◌-◌, ◌*◌, ◌/◌, ◌%◌, ◌^◌, Bool, true, false}
use tsjam.Prelude.{Option, none, some, ◌>>=◌, ◌>>◌, assert, List, [], ◌∷◌, ◌++◌}
use tsjam.Prelude.{length, take, drop, set, get_or, ltb, leb, ◌==◌, if◌then◌else◌}
use tsjam.Codec.Buffer.{BigintBuffer, set_bytes, subarray}

-- Writes through `bytes.subarray(1, ...)`: `sub` is what that view holds afterwards.
unfoldable pub put_view : List ℕ → List ℕ → List ℕ
put_view bytes sub = take 1 bytes ++ (sub ++ drop (1 + length sub) bytes)

-- The loop of `E.encode` and of `E.encodedSize`: `i` is the round, and `l` the last one that passed.
unfoldable pub len_loop : ℕ → ℕ → ℕ → ℕ → ℕ
len_loop zero i l value = l
len_loop (suc rounds) i l value =
    let more = len_loop rounds (i + 1) i value in if leb (2 ^ (7 * i)) value then more else l

-- The loop of `E.decode`.
unfoldable pub first_loop : ℕ → ℕ → ℕ → ℕ → ℕ
first_loop zero i l first = l
first_loop (suc rounds) i l first =
    let more = first_loop rounds (i + 1) i first in
    if leb (2 ^ 8 - 2 ^ (8 - i)) first then more else l

-- `E.encodedSize(value)`.
unfoldable pub e_encoded_size : ℕ → ℕ
unfolding len_loop
e_encoded_size value = if ltb value (2 ^ (7 * 8)) then 1 + len_loop 8 1 0 value else 9

module _ (buffer : BigintBuffer) where
  open buffer use {to_bigint_le, to_buffer_le}

  -- `E_sub(sub).encode(value, bytes)`.
  unfoldable pub e_sub_encode : ℕ → ℕ → List ℕ → Option (List ℕ × ℕ)
  unfolding set_bytes
  e_sub_encode sub value bytes = do
    bytes' ← set_bytes bytes (to_buffer_le value sub)
    some (bytes', sub)

  unfoldable pub e_sub_decode : ℕ → List ℕ → ℕ × ℕ
  unfolding subarray
  e_sub_decode sub bytes = (to_bigint_le (subarray bytes 0 sub), sub)

  -- `LittleEndian`; the width is the array's length.
  unfoldable pub little_endian_encode : ℕ → List ℕ → Option (List ℕ × ℕ)
  unfolding set_bytes
  little_endian_encode value [] = some ([], 0)
  little_endian_encode value (b ∷ bs) = do
    assert (ltb value (2 ^ (8 * length (b ∷ bs))))
    bytes' ← set_bytes (b ∷ bs) (to_buffer_le value (length (b ∷ bs)))
    some (bytes', length (b ∷ bs))

  unfoldable pub little_endian_decode : List ℕ → ℕ × ℕ
  little_endian_decode bytes = (to_bigint_le bytes, length bytes)

  -- `E.encode(value, bytes)`. A byte that is written keeps the low eight bits.
  unfoldable pub e_encode : ℕ → List ℕ → Option (List ℕ × ℕ)
  e_encode value bytes =
      let l = len_loop 7 1 0 value in
      let small =
        let head = 2 ^ 8 - 2 ^ (8 - l) + value / 2 ^ (8 * l) in
        let bytes₁ = set bytes 0 (head % 256) in
        e_sub_encode l (value % 2 ^ (8 * l)) (subarray bytes₁ 1 (l + 1)) >>= λ r.
        some (put_view bytes₁ r.0, r.1 + 1) in
      let large =
        let bytes₁ = set bytes 0 (2 ^ 8 - 1) in
        assert (ltb value (2 ^ 64))
        >> (e_sub_encode 8 value (subarray bytes₁ 1 9) >>= λ r. some (put_view bytes₁ r.0, 9)) in
      if value == 0
      then some (set bytes 0 0, 1)
      else if ltb value (2 ^ (7 * 8))
      then small
      else large

  -- `E.decode(bytes)`, with `bytes[0]` at hand; on an empty array it is undefined, and all the
  -- comparisons fail.
  unfoldable pub e_decode : List ℕ → ℕ × ℕ
  e_decode [] = (to_bigint_le [], 9)
  e_decode (first ∷ rest) =
      let l = first_loop 8 0 0 first in
      let remainder = first - (2 ^ 8 - 2 ^ (8 - l)) in
      let short : ℕ × ℕ =
        ((e_sub_decode l (subarray (first ∷ rest) 1 (l + 1))).0 + 2 ^ (8 * l) * remainder, l + 1) in
      if first == 0
      then (0, 1)
      else if ltb first 255
      then short
      else ((e_sub_decode 8 (subarray (first ∷ rest) 1 9)).0, 9)

  -- `E4star.encode(value, bytes)`.
  unfoldable pub e4star_encode : ℕ → List ℕ → Option (List ℕ × ℕ)
  e4star_encode value bytes =
      let bytes₁ = set bytes 0 ((2 ^ 8 - 2 ^ 5 + value / 2 ^ 24) % 256) in
      let large =
        assert (ltb value (2 ^ 29))
        >> (little_endian_encode (value % 2 ^ 24) (subarray bytes₁ 1 4) >>= λ r.
            some (put_view bytes₁ r.0, 4)) in
      if ltb value (2 ^ (7 * 4)) then e_encode value bytes else large

  -- On an empty array `first` is undefined, and the conversion of the remainder to a BigInt throws.
  unfoldable pub e4star_decode : List ℕ → Option (ℕ × ℕ)
  e4star_decode [] = none
  e4star_decode (first ∷ rest) =
      let remainder = first - (2 ^ 8 - 2 ^ 5) in
      let decoded = little_endian_decode (subarray (first ∷ rest) 1 4) in
      if ltb first 224
      then some (e_decode (first ∷ rest))
      else some (decoded.0 + remainder * 2 ^ 24, decoded.1 + 1)
