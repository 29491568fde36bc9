-- ===== src/Tests/Codec.antt =====
-- The codecs on concrete values.
use tsjam.Prelude.{ℕ, ◌+◌, ◌≡◌, ◌↔◌, ◌≤◌, ◌^◌, arith, none, some, List, [], ◌∷◌, drop, replicate}
use tsjam.Codec.Ints.{e_encode, e_decode, e_encoded_size, e_sub_encode, e_sub_decode}
use tsjam.Codec.Ints.Star.{ReadsBack, e4star_decode-e4star_encode}
use tsjam.Codec.Ints.Fixed.{e_sub_decode-e_sub_encode}
use tsjam.Codec.Ints.RoundTrip.{e_decode-e_encode, e_encode-eq-none}
use tsjam.Tests.Buffer.{le_buffer}

e_decode-e_encode_example :
    (bytes' : List ℕ) × (e_encode le_buffer 300 (7 ∷ 7 ∷ 7 ∷ [])
      ≡ some (bytes', e_encoded_size 300))
    × (e_decode le_buffer bytes' ≡ (300, e_encoded_size 300))
    × (drop (e_encoded_size 300) bytes' ≡ drop (e_encoded_size 300) (7 ∷ 7 ∷ 7 ∷ []))
e_decode-e_encode_example = e_decode-e_encode le_buffer 300 (7 ∷ 7 ∷ 7 ∷ []) (omega arith) size
  where
    size : e_encoded_size 300 ≤ 3
    size = unfold e_encoded_size in omega arith

e_encode-eq-none_example : (e_encode le_buffer (2 ^ 64) (replicate 9 0) ≡ none) ↔ (2 ^ 64 ≤ 2 ^ 64)
e_encode-eq-none_example = e_encode-eq-none le_buffer (2 ^ 64) (replicate 9 0) (omega arith)

e_sub_decode-e_sub_encode_example :
    (bytes' : List ℕ) × (e_sub_encode le_buffer 2 300 (7 ∷ 7 ∷ 7 ∷ []) ≡ some (bytes', 2))
    × (e_sub_decode le_buffer 2 bytes' ≡ (300, 2))
    × (drop 2 bytes' ≡ drop 2 (7 ∷ 7 ∷ 7 ∷ []))
e_sub_decode-e_sub_encode_example =
    e_sub_decode-e_sub_encode le_buffer 2 300 (7 ∷ 7 ∷ 7 ∷ []) (omega arith) (omega arith)

e4star_decode-e4star_encode_example : ReadsBack le_buffer (2 ^ 28 + 5) (7 ∷ 7 ∷ 7 ∷ 7 ∷ 7 ∷ [])
e4star_decode-e4star_encode_example =
    e4star_decode-e4star_encode le_buffer (2 ^ 28 + 5) (7 ∷ 7 ∷ 7 ∷ 7 ∷ 7 ∷ []) (omega arith)
      (omega arith)
