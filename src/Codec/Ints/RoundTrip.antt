-- ===== src/Codec/Ints/RoundTrip.antt =====
-- `E` reads back what it wrote.
use tsjam.Prelude.{◌↔◌, ℕ, zero, suc, ◌+◌, ◌*◌, ◌%◌, ◌^◌, ◌≤◌, ◌<◌, ◌≡◌, refl, ap, ◌∙◌, arith}
use tsjam.Prelude.{none, some, List, [], ◌∷◌, ◌++◌, ltb, ◌==◌}
use tsjam.Prelude.{length, drop, drop-append}
use tsjam.Prelude.{if◌then◌else◌}
use native.Mathlib.Decide.{dec_lt}
use mathlib.Core.List.{append-nil}
use tsjam.Codec.Buffer.{BigintBuffer, set_bytes, subarray}
use tsjam.Codec.Ints.{
  put_view, len_loop, e_encoded_size, e_sub_encode, e_sub_decode, e_encode, e_decode,
}
use tsjam.Codec.Ints.Widths.{head_byte, Width, bytes_of, Takes, Fits, fits, sized, Sized-below}
use tsjam.Codec.Ints.Views.{view_view, over, length-subarray, drop_view}

module _ (buffer : BigintBuffer) where
  open buffer use {to_bigint_le, to_buffer_le, length-to_buffer_le, to_bigint_le-to_buffer_le}

  -- An `E_sub` write of `l` bytes behind the first byte.
  sub_write :
      (l v first : ℕ) (bs : List ℕ)
      → v < 256 ^ l
      → l ≤ length bs
      → e_sub_encode buffer l v (subarray (first ∷ bs) 1 (l + 1)) ≡ some (to_buffer_le v l, l)
  unfolding e_sub_encode set_bytes
  sub_write l v first bs fit room = ground (
    arith,
    length-to_buffer_le v l fit,
    length-subarray l first bs room,
    ap (λ (n : ℕ). drop n (subarray (first ∷ bs) 1 (l + 1))) (length-to_buffer_le v l fit),
    drop_view l first bs,
    append-nil (to_buffer_le v l),
  )

  sub_read :
      (l v first : ℕ) (rest : List ℕ)
      → v < 256 ^ l
      → (e_sub_decode buffer l (subarray (first ∷ to_buffer_le v l ++ rest) 1 (l + 1))).0 ≡ v
  unfolding e_sub_decode
  sub_read l v first rest fit =
      ap to_bigint_le (view_view l first (to_buffer_le v l) rest (length-to_buffer_le v l fit))
      ∙ to_bigint_le-to_buffer_le v l fit

  -- The bytes that `E` writes for a number below 2^64.
  unfoldable pub e_code : ℕ → List ℕ
  e_code v =
      let l = len_loop 7 1 0 v in
      if v == 0
      then 0 ∷ []
      else if ltb v (2 ^ 56)
      then head_byte l v ∷ to_buffer_le (v % 2 ^ (8 * l)) l
      else 255 ∷ to_buffer_le v 8

  put_view-over :
      (first b : ℕ) (xs bs : List ℕ) → put_view (first ∷ bs) xs ≡ over (first ∷ xs) (b ∷ bs)
  unfolding put_view
  put_view-over first b xs bs =
      let e : 1 + length xs ≡ suc (length xs) = omega arith in
      ap (λ (n : ℕ). first ∷ xs ++ drop n (first ∷ bs)) e

  small_encode :
      (v l : ℕ) (b : ℕ) (bs : List ℕ)
      → Fits v l
      → 0 < v
      → v < 2 ^ 56
      → l ≤ length bs
      → e_encode buffer v (b ∷ bs) ≡ some (over (e_code v) (b ∷ bs), 1 + l)
  unfolding e_encode e_code
  small_encode v l b bs f p h room = ground (
    arith,
    f.length_found,
    sub_write l (v % 2 ^ (8 * l)) (head_byte l v) bs f.low_fits room,
    put_view-over (head_byte l v) b (to_buffer_le (v % 2 ^ (8 * l)) l) bs,
  )

  large_encode :
      (v : ℕ) (b : ℕ) (bs : List ℕ)
      → 2 ^ 56 ≤ v
      → v < 2 ^ 64
      → 8 ≤ length bs
      → e_encode buffer v (b ∷ bs) ≡ some (over (e_code v) (b ∷ bs), 9)
  unfolding e_encode e_code
  large_encode v b bs p h room =
      ground (arith, sub_write 8 v 255 bs h room, put_view-over 255 b (to_buffer_le v 8) bs)

  small_decode :
      (v l : ℕ) (rest : List ℕ)
      → Fits v l
      → 0 < v
      → v < 2 ^ 56
      → e_decode buffer (e_code v ++ rest) ≡ (v, 1 + l)
  unfolding e_decode e_code
  small_decode v l rest f p h =
      ground (arith, f.length_found, sub_read l (v % 2 ^ (8 * l)) (head_byte l v) rest f.low_fits)

  large_decode :
      (v : ℕ) (rest : List ℕ)
      → 2 ^ 56 ≤ v
      → v < 2 ^ 64
      → e_decode buffer (e_code v ++ rest) ≡ (v, 9)
  unfolding e_decode e_code
  large_decode v rest p h = ground (arith, sub_read 8 v 255 rest h)

  -- What a code is good for: written over any array with room, read back with any bytes behind it.
  pub record Codes (v : ℕ) : Type 0 where
    pub size : length (e_code v) ≡ e_encoded_size v
    pub written :
        (bytes : List ℕ)
        → e_encoded_size v ≤ length bytes
        → e_encode buffer v bytes ≡ some (over (e_code v) bytes, e_encoded_size v)
    pub read : (rest : List ℕ) → e_decode buffer (e_code v ++ rest) ≡ (v, e_encoded_size v)

  small_Codes : (v : ℕ) (w : Width) → Takes v w → 0 < v → v < 2 ^ 56 → Codes v
  small_Codes v w t p h =
      let l = bytes_of w in
      let f = fits v w t in
      record {
        size =
            unfold e_code in
            ground (
              arith,
              f.length_found,
              f.size_found,
              length-to_buffer_le (v % 2 ^ (8 * l)) l f.low_fits,
            );
        written = small_written f;
        read = λ rest. rw f.size_found (small_decode v l rest f p h);
      }
    where
      small_written :
          Fits v (bytes_of w)
          → (bytes : List ℕ) → e_encoded_size v ≤ length bytes
          → e_encode buffer v bytes ≡ some (over (e_code v) bytes, e_encoded_size v)
      small_written f [] room = absurd (omega (arith, f.size_found))
      small_written f (b ∷ bs) room =
          rw (f.size_found) (small_encode v (bytes_of w) b bs f p h (omega (arith, f.size_found)))

  large_Codes : (v : ℕ) → 2 ^ 56 ≤ v → v < 2 ^ 64 → Codes v
  large_Codes v p h = record {
    size = unfold e_code in ground (arith, nine, length-to_buffer_le v 8 h);
    written = large_written;
    read = λ rest. rw nine (large_decode v rest p h);
  }
    where
      nine : e_encoded_size v ≡ 9
      nine = unfold e_encoded_size in ground arith

      large_written :
          (bytes : List ℕ)
          → e_encoded_size v ≤ length bytes
          → e_encode buffer v bytes ≡ some (over (e_code v) bytes, e_encoded_size v)
      large_written [] room = absurd (omega (arith, nine))
      large_written (b ∷ bs) room = rw nine (large_encode v b bs p h (omega (arith, nine)))

  zero_Codes : Codes 0
  zero_Codes = record {
    size = unfold e_code e_encoded_size len_loop in refl;
    written = zero_written;
    read = λ rest. unfold e_code e_decode e_encoded_size len_loop in refl;
  }
    where
      zero_written :
          (bytes : List ℕ)
          → e_encoded_size 0 ≤ length bytes
          → e_encode buffer 0 bytes ≡ some (over (e_code 0) bytes, e_encoded_size 0)
      zero_written [] room = unfold e_encoded_size len_loop in absurd (omega arith)
      zero_written (b ∷ bs) room = unfold e_code e_encode e_encoded_size len_loop in refl

  pub e_Codes : (v : ℕ) → v < 2 ^ 64 → Codes v
  e_Codes zero h = zero_Codes
  e_Codes (suc v) h = elim (dec_lt (suc v) (2 ^ 56)) [
    | yes below ↦ elim (Sized-below (suc v) (omega arith) below) [
      | sized w t ↦ small_Codes (suc v) w t (omega arith) below
    ]
    | no above ↦ large_Codes (suc v) (omega arith) h
  ]

  pub over-drop :
      (code bytes : List ℕ) → drop (length code) (over code bytes) ≡ drop (length code) bytes
  over-drop code bytes = drop-append code (drop (length code) bytes)

  -- For a number below 2^64 and an array with room for its encoded size, `E.encode` returns that
  -- size; `E.decode` of the array afterwards gives the number and the size, whatever follows; and
  -- the bytes behind the code are as before.
  pub e_decode-e_encode :
      (v : ℕ) (bytes : List ℕ)
      → v < 2 ^ 64
      → e_encoded_size v ≤ length bytes
      → (bytes' : List ℕ) × (e_encode buffer v bytes ≡ some (bytes', e_encoded_size v))
        × (e_decode buffer bytes' ≡ (v, e_encoded_size v))
        × (drop (e_encoded_size v) bytes' ≡ drop (e_encoded_size v) bytes)
  e_decode-e_encode v bytes h room =
      let c = e_Codes v h in
      (
        over (e_code v) bytes,
        c.written bytes room,
        c.read (drop (length (e_code v)) bytes),
        rw (← c.size) (over-drop (e_code v) bytes),
      )

  -- With nine bytes of room, `E.encode` throws exactly on the numbers from 2^64 on.
  pub e_encode-eq-none :
      (v : ℕ) (bytes : List ℕ) → 9 ≤ length bytes → (e_encode buffer v bytes ≡ none) ↔ (2 ^ 64 ≤ v)
  e_encode-eq-none v bytes room = (throws, too_large)
    where
      fits_nine : e_encoded_size v ≤ 9
      fits_nine = unfold e_encoded_size len_loop in ground arith

      throws : e_encode buffer v bytes ≡ none → 2 ^ 64 ≤ v
      throws e = elim (dec_lt v (2 ^ 64)) [
        | yes h ↦ cc ((e_Codes v h).written bytes (omega (arith, fits_nine)))
        | no h ↦ omega arith
      ]

      too_large : 2 ^ 64 ≤ v → e_encode buffer v bytes ≡ none
      too_large h = unfold e_encode in ground arith
