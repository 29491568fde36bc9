-- ===== src/Core/Shuffle.antt =====
-- packages/jam-core/src/fisher-yates.ts: the shuffle of the validators' cores. An entropy that is
-- missing makes the source write an `undefined`, and the model stop; `Q` gives one for every element.
pub mod Permutes
use tsjam.Prelude.{
  ℕ, zero, suc, ◌+◌, ◌-◌, ◌*◌, ◌/◌, ◌%◌, Option, none, some, ◌>>=◌, List, [], ◌∷◌, ◌++◌, length,
  get_elem?, set, take, if◌then◌else◌, ◌==◌,
}
use tsjam.Codec.Buffer.{BigintBuffer, subarray}
use tsjam.Codec.Ints.{e_sub_decode}
use tsjam.Core.Bytes.{Bytes}

module _ {A : Type 0} where
  -- The loop: `n` is the length of `sliced`, which the writes do not change.
  unfoldable pub shuffle_loop : ℕ → ℕ → List A → List ℕ → Option (List A)
  shuffle_loop zero n sliced entropies = some []
  shuffle_loop (suc l) n sliced entropies = do
    entropy ← get_elem? entropies (n - suc l)
    x ← get_elem? sliced (entropy % suc l)
    y ← get_elem? sliced l
    rest ← shuffle_loop l n (set sliced (entropy % suc l) y) entropies
    some (x ∷ rest)

  -- `FisherYates`
  unfoldable pub fisher_yates : List A → List ℕ → Option (List A)
  fisher_yates arr entropies = shuffle_loop (length arr) (length arr) arr entropies

-- `buf.writeUint32LE(v, 32)`: the four bytes.
abbrev pub u32_le : ℕ → Bytes
u32_le v = v % 256 ∷ v / 256 % 256 ∷ v / 65536 % 256 ∷ v / 16777216 % 256 ∷ []

module _ (buffer : BigintBuffer) (blake2b : Bytes → Bytes) where
  -- The rounds of `Q` from `i` on; `hash` is the last hash.
  unfoldable pub q_loop : ℕ → ℕ → Bytes → Bytes → List ℕ
  q_loop zero i entropy hash = []
  q_loop (suc rounds) i entropy hash =
      let hash' = if i % 8 == 0 then blake2b (entropy ++ u32_le (i / 8)) else hash in
      (e_sub_decode buffer 4 (subarray hash' (4 * i % 32) (4 * i % 32 + 4))).0
      ∷ q_loop rounds (suc i) entropy hash'

  -- `Q`
  unfoldable pub q : ℕ → Bytes → List ℕ
  q l entropy = q_loop l 0 entropy []

  -- `FisherYatesH`
  unfoldable pub fisher_yates_h : {A : Type 0} → List A → Bytes → Option (List A)
  fisher_yates_h arr entropy = fisher_yates arr (q (length arr) entropy)
