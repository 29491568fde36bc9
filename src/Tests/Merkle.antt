-- ===== src/Tests/Merkle.antt =====
-- The trie of two entries, and a pool of authorizers.
use tsjam.Prelude.{
  ℕ, ◌≡◌, ◌≢◌, refl, ap, arith, some, List, [], ◌∷◌, All, All-replicate, replicate, get_or,
  SameElements, length, ◌≤◌, true, Option, none, ◌++◌,
}
use tsjam.Codec.Buffer.{IsByte}
use tsjam.Core.Bytes.{Bytes, bytes_eq}
use tsjam.Core.Merkle.Trie.{StateEntry, TrieNode, bits_of, state_trie}
use tsjam.Core.Merkle.Complete.{descend, leaves}
use tsjam.Core.IdentitySet.{has}
use tsjam.Core.Authorizers.{next_pool}
use tsjam.Core.Authorizers.Consumed.{next_pool-SameElements}
use tsjam.Core.Merkle.Mountains.{append_mmr, append_loop}
use tsjam.Core.Merkle.Peaks.{summit, IsRange, append_mmr-IsRange}
use tsjam.Core.Merkle.Keys.{IsStateMap, state_trie-Leads}

abbrev entry : ℕ → StateEntry
entry n = record { key = replicate 31 n; value = n ∷ [] }

abbrev two_entries : List StateEntry
two_entries = entry 1 ∷ entry 2 ∷ []

different : (entry 2).key ≢ (entry 1).key
different same = let e = ap (λ (k : Bytes). get_or k 0 0) same in absurd (omega (arith, e))

two_entries-IsStateMap : IsStateMap two_entries
two_entries-IsStateMap = (
  (All-replicate IsByte 31 1 (omega arith), refl),
  (different, tt),
  ((All-replicate IsByte 31 2 (omega arith), refl), tt, tt),
)

state_trie-Leads_example :
    (t : TrieNode) × (state_trie two_entries ≡ some t)
    × All (λ (e : StateEntry). descend t (bits_of e.key) ≡ some e) two_entries
    × SameElements (leaves t) two_entries
state_trie-Leads_example = state_trie-Leads two_entries two_entries-IsStateMap

abbrev two_authorizers : List Bytes
two_authorizers = (1 ∷ []) ∷ (2 ∷ []) ∷ []

has-two_authorizers : has two_authorizers (2 ∷ []) ≡ true
unfolding bytes_eq
has-two_authorizers = refl

next_pool-SameElements_example :
    (length (next_pool two_authorizers (3 ∷ []) (some (2 ∷ []))) ≤ 8)
    × SameElements
        ((2 ∷ []) ∷ next_pool two_authorizers (3 ∷ []) (some (2 ∷ [])))
        ((3 ∷ []) ∷ two_authorizers)
next_pool-SameElements_example =
    next_pool-SameElements two_authorizers (3 ∷ []) (2 ∷ []) (omega arith) has-two_authorizers

-- Two elements after one another: the carry goes up one level.
abbrev one_peak : List (Option Bytes)
one_peak = some (5 ∷ []) ∷ []

one_peak-IsRange : IsRange (λ (x : Bytes). x) 0 one_peak ((5 ∷ []) ∷ [])
one_peak-IsRange = ([], summit (5 ∷ []), tt, refl, refl, refl)

append_mmr-one_peak :
    append_mmr (λ (x : Bytes). x) one_peak (6 ∷ []) ≡ some (none ∷ some (5 ∷ 6 ∷ []) ∷ [])
unfolding append_mmr append_loop
append_mmr-one_peak = refl

append_mmr-IsRange_example :
    (p_peeks : List (Option Bytes)) × (append_mmr (λ (x : Bytes). x) one_peak (6 ∷ [])
      ≡ some p_peeks)
    × IsRange (λ (x : Bytes). x) 0 p_peeks (((5 ∷ []) ∷ []) ++ ((6 ∷ []) ∷ []))
append_mmr-IsRange_example =
    append_mmr-IsRange (λ (x : Bytes). x) one_peak ((5 ∷ []) ∷ []) (6 ∷ []) one_peak-IsRange
