-- ===== src/Tests/Buffer.antt =====
-- A concrete little-endian conversion, to run the models with.
use tsjam.Prelude.{
  ℕ, zero, suc, ◌+◌, ◌*◌, ◌/◌, ◌%◌, ◌^◌, ◌<◌, ◌≡◌, refl, arith, List, [], ◌∷◌, length,
}
use native.Mathlib.Nat.{pow-suc}
use tsjam.Codec.Buffer.{BigintBuffer, IsBytes}

abbrev pub read_bytes : List ℕ → ℕ
read_bytes [] = 0
read_bytes (b ∷ bs) = b + 256 * read_bytes bs

abbrev pub write_bytes : ℕ → ℕ → List ℕ
write_bytes v zero = []
write_bytes v (suc width) = v % 256 ∷ write_bytes (v / 256) width

pub length-write_bytes : (v width : ℕ) → length (write_bytes v width) ≡ width
length-write_bytes v zero = refl
length-write_bytes v (suc width) = omega (arith, length-write_bytes (v / 256) width)

pub write_bytes-IsBytes : (v width : ℕ) → IsBytes (write_bytes v width)
write_bytes-IsBytes v zero = tt
write_bytes-IsBytes v (suc width) = (omega arith, write_bytes-IsBytes (v / 256) width)

pub read_bytes-write_bytes : (v width : ℕ) → v < 256 ^ width → read_bytes (write_bytes v width) ≡ v
read_bytes-write_bytes v zero h = omega arith
read_bytes-write_bytes v (suc width) h =
    omega (arith, read_bytes-write_bytes (v / 256) width (omega (arith, pow-suc 256 width)))

abbrev pub le_buffer : BigintBuffer
le_buffer = record {
  to_bigint_le = read_bytes;
  to_buffer_le = write_bytes;
  to_bigint_le-nil = refl;
  to_bigint_le-cons = λ b bs h. refl;
  length-to_buffer_le = λ v width h. length-write_bytes v width;
  to_buffer_le-IsBytes = λ v width h. write_bytes-IsBytes v width;
  to_bigint_le-to_buffer_le = read_bytes-write_bytes;
}
