-- ===== src/Codec/Ints/Fixed.antt =====
-- The codec of a fixed width, `E_sub`.
use tsjam.Prelude.{
  ℕ, ◌-◌, ◌^◌, ◌≤◌, ◌<◌, ◌≡◌, refl, sym, ap, ◌∙◌, arith, some, List, ◌++◌, true, leb,
}
use tsjam.Prelude.{length, take, drop, take-append, drop-append}
use tsjam.Codec.Buffer.{BigintBuffer, set_bytes, subarray}
use tsjam.Codec.Ints.{e_sub_encode, e_sub_decode}

module _ (buffer : BigintBuffer) where
  open buffer use {to_bigint_le, to_buffer_le, length-to_buffer_le, to_bigint_le-to_buffer_le}

  -- A number that fits `sub` bytes, written by `E_sub(sub)` into an array with room for them, is read
  -- back, with `sub` as the size both times, and the bytes behind are as before.
  pub e_sub_decode-e_sub_encode :
      (sub v : ℕ) (bytes : List ℕ)
      → v < 256 ^ sub
      → sub ≤ length bytes
      → (bytes' : List ℕ) × (e_sub_encode buffer sub v bytes ≡ some (bytes', sub))
        × (e_sub_decode buffer sub bytes' ≡ (v, sub))
        × (drop sub bytes' ≡ drop sub bytes)
  unfolding e_sub_encode e_sub_decode set_bytes subarray
  e_sub_decode-e_sub_encode sub v bytes fit room =
      let code = to_buffer_le v sub in
      let size = length-to_buffer_le v sub fit in
      let rest = drop (length code) bytes in
      let width : sub - 0 ≡ length code = omega (arith, size) in
      let read : to_bigint_le (take (sub - 0) (code ++ rest)) ≡ v =
        ap (λ (k : ℕ). to_bigint_le (take k (code ++ rest))) width
        ∙ ap to_bigint_le (take-append code rest)
        ∙ to_bigint_le-to_buffer_le v sub fit in
      let written : leb (length code) (length bytes) ≡ true = ground (arith, size) in
      (
        code ++ rest,
        rw written refl,
        ap (λ (n : ℕ). (n, sub)) read,
        ap (λ (k : ℕ). drop k (code ++ rest)) (sym size)
            ∙ drop-append code rest
            ∙ ap (λ (k : ℕ). drop k bytes) size,
      )
