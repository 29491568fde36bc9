-- ===== src/Codec/Ints/Star.antt =====
-- `E4star` reads back what it wrote.
use tsjam.Prelude.{
  ℕ, zero, suc, ◌+◌, ◌-◌, ◌*◌, ◌/◌, ◌%◌, ◌^◌, ◌≤◌, ◌<◌, ◌≡◌, refl, sym, ap, ◌∙◌, arith, some, List,
  [], ◌∷◌, ◌++◌, ltb, length, drop, true, false,
}
use native.Mathlib.Decide.{dec_lt}
use tsjam.Codec.Buffer.{BigintBuffer, set_bytes, subarray}
use tsjam.Codec.Ints.{
  len_loop, e_encoded_size, e_decode, little_endian_encode, little_endian_decode, put_view,
  e4star_encode, e4star_decode,
}
use tsjam.Codec.Ints.Widths.{
  head_byte, Width, Takes, fits, sized, Sized-below, bytes_of, w₀, w₁, w₂, w₃, w₄, w₅, w₆, w₇,
}
use tsjam.Codec.Ints.Views.{over}
use tsjam.Codec.Ints.RoundTrip.{e_code, e_Codes, over-drop}

-- The first byte of a number below 2^21 is below 224, and there are at most two bytes behind it.
head-small :
    (v : ℕ) (w : Width)
    → Takes v w
    → v < 2 ^ 21
    → (head_byte (bytes_of w) v < 224) × (bytes_of w ≤ 3)
head-small v w₀ t h = omega arith
head-small v w₁ t h = omega arith
head-small v w₂ t h = omega arith
head-small v w₃ t h = omega arith
head-small v w₄ t h = absurd (omega arith)
head-small v w₅ t h = absurd (omega arith)
head-small v w₆ t h = absurd (omega arith)
head-small v w₇ t h = absurd (omega arith)

three : (xs : List ℕ) → length xs ≡ 3 → (p q r : ℕ) × (xs ≡ p ∷ q ∷ r ∷ [])
three [] e = absurd (omega arith)
three (p ∷ []) e = absurd (omega arith)
three (p ∷ q ∷ []) e = absurd (omega arith)
three (p ∷ q ∷ r ∷ []) e = (p, q, r, refl)
three (p ∷ q ∷ r ∷ s ∷ xs) e = absurd (omega arith)

module _ (buffer : BigintBuffer) where
  open buffer use {to_bigint_le, to_buffer_le, length-to_buffer_le, to_bigint_le-to_buffer_le}

  e_code-small :
      (v : ℕ)
      → v < 2 ^ 21
      → (first : ℕ) × (rest : List ℕ) × (e_code buffer v ≡ first ∷ rest)
        × (first < 224)
        × (e_encoded_size v ≤ 4)
  unfolding e_code
  e_code-small zero h = (0, [], refl, omega arith, unfold e_encoded_size len_loop in omega arith)
  e_code-small (suc v) h = elim (Sized-below (suc v) (omega arith) (omega arith)) [
    | sized w t ↦
        let f = fits (suc v) w t in
        let small = head-small (suc v) w t h in
        (
          head_byte (bytes_of w) (suc v),
          to_buffer_le (suc v % 2 ^ (8 * bytes_of w)) (bytes_of w),
          ground (arith, f.length_found),
          small.0,
          omega (arith, small.1, f.size_found),
        )
  ]

  -- What one run of the codec does.
  abbrev pub ReadsBack : ℕ → List ℕ → Type 0
  ReadsBack v bytes =
      (bytes' : List ℕ) × (size : ℕ) × (e4star_encode buffer v bytes ≡ some (bytes', size))
      × (e4star_decode buffer bytes' ≡ some (v, size))
      × (drop size bytes' ≡ drop size bytes)
      × (size ≤ 4)

  small_star : (v : ℕ) (bytes : List ℕ) → v < 2 ^ 21 → 4 ≤ length bytes → ReadsBack v bytes
  unfolding e4star_encode e4star_decode
  small_star v bytes h room =
      let c = e_Codes buffer v (omega arith) in
      let s = e_code-small v h in
      let code = e_code buffer v in
      let behind = drop (length code) bytes in
      let below : ltb v (2 ^ 28) ≡ true = ground arith in
      let first_below : ltb s.0 224 ≡ true = ground (arith, s.3) in
      let read : e4star_decode buffer (s.0 ∷ (s.1 ++ behind)) ≡ some (v, e_encoded_size v) =
        rw first_below (
          ap (λ (xs : List ℕ). some (e_decode buffer (xs ++ behind))) (sym s.2)
          ∙ ap some (c.read behind)) in
      (
        over code bytes,
        e_encoded_size v,
        rw below (c.written bytes (omega (arith, s.4))),
        ap (λ (xs : List ℕ). e4star_decode buffer (xs ++ behind)) s.2 ∙ read,
        rw (← c.size) (over-drop buffer code bytes),
        s.4,
      )

  -- The four bytes that a first byte from 224 on begins are read back.
  read_four :
      (v : ℕ) (rest : List ℕ)
      → e4star_decode buffer ((224 + v / 2 ^ 24) ∷ to_buffer_le (v % 2 ^ 24) 3 ++ rest)
        ≡ some (v, 4)
  unfolding e4star_decode little_endian_decode subarray
  read_four v rest =
      let u = v % 2 ^ 24 in
      let fit : u < 256 ^ 3 = omega arith in
      let t = three (to_buffer_le u 3) (length-to_buffer_le u 3 fit) in
      let marked : ltb (224 + v / 2 ^ 24) 224 ≡ false = ground arith in
      let value : to_bigint_le (t.0 ∷ t.1 ∷ t.2 ∷ []) ≡ u =
        ap to_bigint_le (sym t.3) ∙ to_bigint_le-to_buffer_le u 3 fit in
      let back : u + (224 + v / 2 ^ 24 - 224) * 2 ^ 24 ≡ v = omega arith in
      rw (t.3, marked, value) (ap (λ (n : ℕ). some (n, 4)) back)

  -- `E` writes the numbers from 2^21 on that are below 2^28 in the same four bytes.
  e_code-four :
      (v : ℕ)
      → 2 ^ 21 ≤ v
      → v < 2 ^ 28
      → (e_code buffer v ≡ (224 + v / 2 ^ 24) ∷ to_buffer_le (v % 2 ^ 24) 3)
        × (e_encoded_size v ≡ 4)
  unfolding e_code
  e_code-four v low high =
      let f = fits v w₃ (omega arith, omega arith) in
      (ground (arith, f.length_found), omega (arith, f.size_found))

  middle_star :
      (v : ℕ) (bytes : List ℕ) → 2 ^ 21 ≤ v → v < 2 ^ 28 → 4 ≤ length bytes → ReadsBack v bytes
  unfolding e4star_encode
  middle_star v bytes low high room =
      let c = e_Codes buffer v (omega arith) in
      let s = e_code-four v low high in
      let code = e_code buffer v in
      let below : ltb v (2 ^ 28) ≡ true = ground arith in
      (
        over code bytes,
        4,
        rw (below, ← s.1) (c.written bytes (omega (arith, s.1))),
        ap (λ (xs : List ℕ). e4star_decode buffer (xs ++ drop (length code) bytes)) s.0
            ∙ read_four v (drop (length code) bytes),
        rw (← s.1, ← c.size) (over-drop buffer code bytes),
        omega arith,
      )

  large_star :
      (v a b c d : ℕ) (rest : List ℕ) → 2 ^ 28 ≤ v → v < 2 ^ 29 → ReadsBack v (a ∷ b ∷ c ∷ d ∷ rest)
  unfolding e4star_encode little_endian_encode set_bytes subarray put_view
  large_star v a b c d rest low high =
      let u = v % 2 ^ 24 in
      let fit : u < 256 ^ 3 = omega arith in
      let t = three (to_buffer_le u 3) (length-to_buffer_le u 3 fit) in
      let above : ltb v (2 ^ 28) ≡ false = ground arith in
      let below : ltb v (2 ^ 29) ≡ true = ground arith in
      let narrow : ltb u (2 ^ 24) ≡ true = ground arith in
      let head : (2 ^ 8 - 2 ^ 5 + v / 2 ^ 24) % 256 ≡ 224 + v / 2 ^ 24 = omega arith in
      (
        (224 + v / 2 ^ 24) ∷ t.0 ∷ t.1 ∷ t.2 ∷ rest,
        4,
        rw (above, below, narrow, t.3, head) refl,
        rw t.3 at (read_four v rest),
        refl,
        omega arith,
      )

  -- A number below 2^29, written by `E4star` into an array of at least four bytes, is read back with
  -- the size that was written, at most four; the bytes behind are as before.
  pub e4star_decode-e4star_encode :
      (v : ℕ) (bytes : List ℕ) → v < 2 ^ 29 → 4 ≤ length bytes → ReadsBack v bytes
  e4star_decode-e4star_encode v [] h room = absurd (omega arith)
  e4star_decode-e4star_encode v (a ∷ []) h room = absurd (omega arith)
  e4star_decode-e4star_encode v (a ∷ b ∷ []) h room = absurd (omega arith)
  e4star_decode-e4star_encode v (a ∷ b ∷ c ∷ []) h room = absurd (omega arith)
  e4star_decode-e4star_encode v (a ∷ b ∷ c ∷ d ∷ rest) h room = elim (dec_lt v (2 ^ 28)) [
    | no large ↦ large_star v a b c d rest (omega arith) h
    | yes small ↦ elim (dec_lt v (2 ^ 21)) [
      | yes tiny ↦ small_star v (a ∷ b ∷ c ∷ d ∷ rest) tiny room
      | no middle ↦ middle_star v (a ∷ b ∷ c ∷ d ∷ rest) (omega arith) small room
    ]
  ]
