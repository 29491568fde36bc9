-- ===== src/Codec/BitSequence.antt =====
-- `BitSequenceCodec(numElements)` of packages/jam-codec/src/bit-sequence.ts. A bit is 0 or 1.
use tsjam.Prelude.{ℕ, zero, suc, ◌+◌, ◌*◌, ◌/◌, ◌^◌, bit_and, bit_or}
use tsjam.Prelude.{Option, none, some, List, [], ◌∷◌, ◌++◌, length, take, drop, get_or, leb}
use tsjam.Prelude.{if◌then◌else◌}

-- `Math.ceil(n / 8)`.
abbrev pub bytes_for : ℕ → ℕ
bytes_for n = (n + 7) / 8

-- The inner loop of `encode`, from bit `j` on with `rounds` left; a bit past the end is undefined,
-- which a shift takes for 0.
unfoldable pub byte_loop : ℕ → ℕ → ℕ → ℕ → List ℕ → ℕ
byte_loop zero i j byte value = byte
byte_loop (suc rounds) i j byte value =
    byte_loop rounds i (j + 1) (bit_or byte (get_or value (i * 8 + j) 0 * 2 ^ j)) value

-- The outer loop, from byte `i` on: the bytes that it writes.
unfoldable pub encode_loop : ℕ → ℕ → List ℕ → List ℕ
unfolding byte_loop
encode_loop zero i value = []
encode_loop (suc rounds) i value = byte_loop 8 i 0 0 value ∷ encode_loop rounds (i + 1) value

-- `encode(value, bytes)`: the array afterwards with the number of bytes written.
unfoldable pub bit_sequence_encode : List ℕ → List ℕ → Option (List ℕ × ℕ)
unfolding encode_loop
bit_sequence_encode value bytes =
    let n = bytes_for (length value) in
    if leb n (length bytes) then some (encode_loop n 0 value ++ drop n bytes, n) else none

-- The inner loop of `decode`.
unfoldable pub bits_loop : ℕ → ℕ → ℕ → List ℕ
bits_loop zero j byte = []
bits_loop (suc rounds) j byte = bit_and (byte / 2 ^ j) 1 ∷ bits_loop rounds (j + 1) byte

-- The outer loop of `decode`, from byte `i` on; a byte past the end is undefined, and shifted it
-- is 0.
unfoldable pub decode_loop : ℕ → ℕ → List ℕ → List ℕ
unfolding bits_loop
decode_loop zero i bytes = []
decode_loop (suc rounds) i bytes =
    bits_loop 8 0 (get_or bytes i 0) ++ decode_loop rounds (i + 1) bytes

unfoldable pub bit_sequence_decode : ℕ → List ℕ → List ℕ × ℕ
unfolding decode_loop
bit_sequence_decode num_elements bytes =
    let n = bytes_for num_elements in (take num_elements (decode_loop n 0 bytes), n)
