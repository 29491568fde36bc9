-- ===== src/Core/Merkle/Keys.antt =====
-- The trie of the whole state: different keys have different bits.
use tsjam.Prelude.{
  ℕ, ◌+◌, ◌*◌, ◌/◌, ◌%◌, ◌<◌, ◌≡◌, ◌≢◌, refl, sym, ap, ◌∙◌, arith, false, some, List, [], ◌∷◌, map,
  length, drop, take, get_or, All, ◌==◌, one_if, SameElements, count,
}
use tsjam.Codec.Buffer.{IsBytes}
use tsjam.Core.Bytes.{Bytes}
use tsjam.Core.Merkle.Trie.{
  StateEntry, BitsEntry, TrieNode, byte_bits, bits_of, with_bits, state_trie,
}
use tsjam.Core.Merkle.Complete.{descend, leaves, Leads, IsMap, build_trie-Leads}

half : (a : ℕ) → a ≡ 2 * (a / 2) + one_if (a % 2 == 1)
half a = ground arith

-- A byte is known by its bits.
byte_bits-injective :
    (a b : ℕ)
    → a < 256
    → b < 256
    → ((k : ℕ) → get_or (byte_bits a) k false ≡ get_or (byte_bits b) k false)
    → a ≡ b
byte_bits-injective a b ha hb h =
    let bit = λ (k : ℕ). ap one_if (h k) in
    omega (
      arith,
      half a,
      half (a / 2),
      half (a / 4),
      half (a / 8),
      half (a / 16),
      half (a / 32),
      half (a / 64),
      half (a / 128),
      half b,
      half (b / 2),
      half (b / 4),
      half (b / 8),
      half (b / 16),
      half (b / 32),
      half (b / 64),
      half (b / 128),
      bit 0,
      bit 1,
      bit 2,
      bit 3,
      bit 4,
      bit 5,
      bit 6,
      bit 7,
    )

bits_of-injective :
    (ks js : Bytes)
    → IsBytes ks
    → IsBytes js
    → length ks ≡ length js
    → bits_of ks ≡ bits_of js
    → ks ≡ js
unfolding bits_of
bits_of-injective [] [] hk hj l e = refl
bits_of-injective [] (j ∷ js) hk hj l e = absurd (omega (arith, l))
bits_of-injective (k ∷ ks) [] hk hj l e = absurd (omega (arith, l))
bits_of-injective (k ∷ ks) (j ∷ js) hk hj l e =
    cc (first, bits_of-injective ks js hk.1 hj.1 (omega (arith, l)) (ap (drop 8) e))
  where
    first : k ≡ j
    first = byte_bits-injective k j hk.0 hj.0 (λ n. ap (λ l. get_or (take 8 l) n false) e)

length-bits_of : (ks : Bytes) → length (bits_of ks) ≡ 8 * length ks
unfolding bits_of
length-bits_of [] = refl
length-bits_of (k ∷ ks) = omega (arith, length-bits_of ks)

-- The keys have 31 bytes, and no two are the same.
abbrev pub IsStateMap : List StateEntry → Type 0
IsStateMap [] = Unit {0}
IsStateMap (e ∷ es) =
    (IsBytes e.key × (length e.key ≡ 31))
    × All (λ (f : StateEntry). f.key ≢ e.key) es
    × IsStateMap es

with_bits-IsMap : (es : List StateEntry) → IsStateMap es → IsMap 248 (map with_bits es)
with_bits-IsMap [] h = tt
with_bits-IsMap (e ∷ es) h =
    (omega (arith, length-bits_of e.key, h.0.1), apart es h.1 h.2, with_bits-IsMap es h.2)
  where
    apart :
        (fs : List StateEntry)
        → All (λ (f : StateEntry). f.key ≢ e.key) fs
        → IsStateMap fs
        → All (λ (f : BitsEntry). f.bits ≢ bits_of e.key) (map with_bits fs)
    apart [] g m = tt
    apart (f ∷ fs) g m = (
      (λ same. g.0 (bits_of-injective f.key e.key m.0.0 h.0.0 (m.0.1 ∙ sym h.0.1) same)),
      apart fs g.1 m.2,
    )

-- The trie of a state exists; the bits of every key lead to its entry, and the trie has the entries
-- of the state and no others.
pub state_trie-Leads :
    (es : List StateEntry)
    → IsStateMap es
    → (t : TrieNode) × (state_trie es ≡ some t)
      × All (λ (e : StateEntry). descend t (bits_of e.key) ≡ some e) es
      × SameElements (leaves t) es
unfolding state_trie
state_trie-Leads es h =
    let r = build_trie-Leads 248 (map with_bits es) (with_bits-IsMap es h) in
    (r.0, r.1, leads r.0 es r.2, λ p. r.3 p ∙ ap (count p) (entries es))
  where
    leads :
        (t : TrieNode) (fs : List StateEntry)
        → Leads t (map with_bits fs)
        → All (λ (e : StateEntry). descend t (bits_of e.key) ≡ some e) fs
    leads t [] g = tt
    leads t (f ∷ fs) g = (g.0, leads t fs g.1)

    entries : (fs : List StateEntry) → map (λ (e : BitsEntry). e.entry) (map with_bits fs) ≡ fs
    entries [] = refl
    entries (f ∷ fs) = ap (λ us. f ∷ us) (entries fs)
