-- ===== src/Core/Merkle/Mountains.antt =====
-- packages/jam-core/src/merklization/mmr.ts: the append to a Merkle mountain range. The hash is a
-- parameter, as in the source.
use tsjam.Prelude.{ℕ, zero, suc, Option, none, some, List, [], ◌∷◌, ◌++◌, length, get_elem?, set}
use tsjam.Core.Bytes.{Bytes}

module _ (hash_fn : Bytes → Bytes) where
  -- `p`: none where the rounds are used up. A position beyond the last peak has no element.
  unfoldable pub append_loop : ℕ → List (Option Bytes) → Bytes → ℕ → Option (List (Option Bytes))
  append_loop zero peeks new_el pos = none
  append_loop (suc rounds) peeks new_el pos = elim (get_elem? peeks pos) [
    | none ↦ some (peeks ++ (some new_el ∷ []))
    | some peek ↦ elim peek [
      | none ↦ some (set peeks pos (some new_el))
      | some a ↦ append_loop rounds (set peeks pos none) (hash_fn (a ++ new_el)) (suc pos)
    ]
  ]

  -- `appendMMR`, with a round for every peak and one more.
  unfoldable pub append_mmr : List (Option Bytes) → Bytes → Option (List (Option Bytes))
  append_mmr peeks new_peek = append_loop (suc (length peeks)) peeks new_peek 0
