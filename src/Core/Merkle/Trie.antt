-- ===== src/Core/Merkle/Trie.antt =====
-- packages/jam-core/src/merklization/merkle-state.ts: the trie of the state's keys and values. Its
-- maps have arrays of bits as keys, which JavaScript compares by identity: they are lists of entries.
use tsjam.Prelude.{
  ℕ, zero, suc, ◌+◌, ◌-◌, ◌/◌, ◌%◌, Bool, true, false, not, Option, none, some, ◌>>=◌, List, [],
  ◌∷◌, ◌++◌, length, drop, replicate, if◌then◌else◌, leb, ◌==◌, get_or, map,
}
use tsjam.Core.Bytes.{Bytes}

-- `[StateKey, Uint8Array]`
pub record StateEntry : Type 0 where
  pub key : Bytes
  pub value : Bytes

-- An entry of the map `d`: the bits that are left of its key. A bit 1 is true.
pub record BitsEntry : Type 0 where
  pub bits : List Bool
  pub entry : StateEntry

-- `MerkleStateTrieNode`, by the call that made it: `EMPTYNODE`, `leaf` or `branch`.
pub data TrieNode : Type 0 where
  empty_node : TrieNode
  leaf : StateEntry → TrieNode
  branch : TrieNode → TrieNode → TrieNode

-- `k[0] === bit`
abbrev pub begins_with : Bool → List Bool → Bool
begins_with b [] = false
begins_with true (x ∷ xs) = x
begins_with false (x ∷ xs) = not x

-- The map of a child: the entries that begin with the bit, without it.
unfoldable pub child : Bool → List BitsEntry → List BitsEntry
child b [] = []
child b (e ∷ d) =
    let rest = child b d in
    if begins_with b e.bits then record { bits = drop 1 e.bits; entry = e.entry } ∷ rest else rest

-- `buildTrie`: none where the depth is used up, which it never is with the length of the keys.
unfoldable pub build_trie : ℕ → List BitsEntry → Option TrieNode
build_trie depth [] = some empty_node
build_trie depth (e ∷ []) = some (leaf e.entry)
build_trie zero (e ∷ f ∷ d) = none
build_trie (suc depth) (e ∷ f ∷ d) = do
  l ← build_trie depth (child false (e ∷ f ∷ d))
  r ← build_trie depth (child true (e ∷ f ∷ d))
  some (branch l r)

-- `bits` of one byte.
abbrev pub byte_bits : ℕ → List Bool
byte_bits a =
    (a / 128 % 2 == 1)
    ∷ (a / 64 % 2 == 1)
    ∷ (a / 32 % 2 == 1)
    ∷ (a / 16 % 2 == 1)
    ∷ (a / 8 % 2 == 1)
    ∷ (a / 4 % 2 == 1)
    ∷ (a / 2 % 2 == 1)
    ∷ (a % 2 == 1)
    ∷ []

unfoldable pub bits_of : Bytes → List Bool
bits_of [] = []
bits_of (a ∷ ar) = byte_bits a ++ bits_of ar

module _ (blake2b : Bytes → Bytes) where
  -- The identifier of `leaf`.
  unfoldable pub leaf_identifier : StateEntry → Bytes
  leaf_identifier e =
      if leb (length e.value) 32
      then (128 + length e.value) ∷ (e.key ++ (e.value ++ replicate (32 - length e.value) 0))
      else 192 ∷ (e.key ++ blake2b e.value)

  -- The identifier of `branch`, of the hashes of its children; `& 0b01111111` is `% 128`.
  unfoldable pub branch_identifier : Bytes → Bytes → Bytes
  branch_identifier left right = get_or left 0 0 % 128 ∷ (drop 1 left ++ right)

  -- `hash` of a node.
  unfoldable pub node_hash : TrieNode → Bytes
  node_hash empty_node = replicate 32 0
  node_hash (leaf e) = blake2b (leaf_identifier e)
  node_hash (branch l r) = blake2b (branch_identifier (node_hash l) (node_hash r))

-- The constructor of `MerkleState`: the trie of the map, whose keys have 31 bytes.
abbrev pub with_bits : StateEntry → BitsEntry
with_bits e = record { bits = bits_of e.key; entry = e }

unfoldable pub state_trie : List StateEntry → Option TrieNode
state_trie entries = build_trie 248 (map with_bits entries)
