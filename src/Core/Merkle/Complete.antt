-- ===== src/Core/Merkle/Complete.antt =====
-- The trie of a map is built, and it has every entry of the map where its bits lead.
use tsjam.Prelude.{
  ℕ, zero, suc, ◌+◌, ◌≡◌, ◌≢◌, refl, sym, ap, ◌∙◌, arith, inl, inr, Bool, true, false, Option, none,
  some, List, [], ◌∷◌, ◌++◌, map, length, drop, All, if◌then◌else◌, Bool-cases, count, count-append,
  SameElements, one_if,
}
use tsjam.Core.Merkle.Trie.{
  StateEntry, BitsEntry, TrieNode, empty_node, leaf, branch, begins_with, child, build_trie,
}

-- The entry that the bits lead to.
unfoldable pub descend : TrieNode → List Bool → Option StateEntry
descend empty_node bs = none
descend (leaf e) bs = some e
descend (branch l r) [] = none
descend (branch l r) (b ∷ bs) =
    let right = descend r bs in let left = descend l bs in if b then right else left

-- The entries of a trie from left to right.
unfoldable pub leaves : TrieNode → List StateEntry
leaves empty_node = []
leaves (leaf e) = e ∷ []
leaves (branch l r) = leaves l ++ leaves r

-- A map with keys of `n` bits, no two of them the same.
abbrev pub IsMap : ℕ → List BitsEntry → Type 0
IsMap n [] = Unit {0}
IsMap n (e ∷ d) = (length e.bits ≡ n) × All (λ (f : BitsEntry). f.bits ≢ e.bits) d × IsMap n d

-- Each entry stands where its bits lead.
abbrev pub Leads : TrieNode → List BitsEntry → Type 0
Leads t d = All (λ (e : BitsEntry). descend t e.bits ≡ some e.entry) d

begins_same : (b x : Bool) (xs : List Bool) → begins_with b (x ∷ xs) ≡ true → x ≡ b
begins_same true x xs h = h
begins_same false true xs h = cc
begins_same false false xs h = refl

child-fresh :
    (b x : Bool) (xs : List Bool) (d : List BitsEntry)
    → begins_with b (x ∷ xs) ≡ true
    → All (λ (f : BitsEntry). f.bits ≢ x ∷ xs) d
    → All (λ (f : BitsEntry). f.bits ≢ xs) (child b d)
unfolding child
child-fresh b x xs [] h fresh = tt
child-fresh b x xs (e ∷ d) h fresh = elim (Bool-cases (begins_with b e.bits)) [
  | inr out ↦ rw out (child-fresh b x xs d h fresh.1)
  | inl begins ↦ rw begins (apart e.bits begins fresh.0, child-fresh b x xs d h fresh.1)
]
  where
    apart : (ys : List Bool) → begins_with b ys ≡ true → ys ≢ x ∷ xs → drop 1 ys ≢ xs
    apart [] g ne = cc
    apart (y ∷ ys) g ne = λ e.
        ne (
          ap (λ zs. y ∷ zs) e
          ∙ ap (λ z. z ∷ xs) (begins_same b y ys g ∙ sym (begins_same b x xs h)))

child-IsMap : (b : Bool) (n : ℕ) (d : List BitsEntry) → IsMap (suc n) d → IsMap n (child b d)
unfolding child
child-IsMap b n [] h = tt
child-IsMap b n (e ∷ d) h = elim (Bool-cases (begins_with b e.bits)) [
  | inr out ↦ rw out (child-IsMap b n d h.2)
  | inl begins ↦
      let parts = kept e.bits h.0 begins h.1 in rw begins (parts.0, parts.1, child-IsMap b n d h.2)
]
  where
    kept :
        (bs : List Bool)
        → length bs ≡ suc n
        → begins_with b bs ≡ true
        → All (λ (f : BitsEntry). f.bits ≢ bs) d
        → (length (drop 1 bs) ≡ n) × All (λ (f : BitsEntry). f.bits ≢ drop 1 bs) (child b d)
    kept [] l g fresh = cc
    kept (x ∷ xs) l g fresh = (omega (arith, l), child-fresh b x xs d g fresh)

-- The children together lead to every entry.
branch-Leads :
    (l r : TrieNode) (n : ℕ) (d : List BitsEntry)
    → IsMap (suc n) d
    → Leads l (child false d)
    → Leads r (child true d)
    → Leads (branch l r) d
unfolding child descend
branch-Leads l r n [] h hl hr = tt
branch-Leads l r n (e ∷ d) h hl hr =
    let parts = split e.bits h.0 refl in (parts.0, branch-Leads l r n d h.2 parts.1 parts.2)
  where
    split :
        (bs : List Bool)
        → length bs ≡ suc n
        → e.bits ≡ bs
        → (descend (branch l r) e.bits ≡ some e.entry)
          × Leads l (child false d)
          × Leads r (child true d)
    split [] k same = cc
    split (true ∷ bs) k same =
        let there = rw same at hr in (rw same there.0, rw same at hl, there.1)
    split (false ∷ bs) k same =
        let there = rw same at hl in (rw same there.0, there.1, rw same at hr)

-- The entries are those of one child and those of the other.
count-child :
    (p : StateEntry → Bool) (n : ℕ) (d : List BitsEntry)
    → IsMap (suc n) d
    → count p (map (λ e. e.entry) (child false d)) + count p (map (λ e. e.entry) (child true d))
      ≡ count p (map (λ e. e.entry) d)
unfolding child
count-child p n [] h = refl
count-child p n (e ∷ d) h = split e.bits h.0 refl (count-child p n d h.2)
  where
    split :
        (bs : List Bool)
        → length bs ≡ suc n
        → e.bits ≡ bs
        → count p (map (λ f. f.entry) (child false d)) + count p (map (λ f. f.entry) (child true d))
          ≡ count p (map (λ f. f.entry) d)
        → count p (map (λ f. f.entry) (child false (e ∷ d)))
            + count p (map (λ f. f.entry) (child true (e ∷ d)))
          ≡ one_if (p e.entry) + count p (map (λ f. f.entry) d)
    split [] l same rest = cc
    split (true ∷ bs) l same rest = rw same (omega (arith, rest))
    split (false ∷ bs) l same rest = rw same (omega (arith, rest))

-- The trie of a map with keys of `n` bits is built; every entry stands where its bits lead, and the
-- trie has the entries of the map and no others.
pub build_trie-Leads :
    (n : ℕ) (d : List BitsEntry)
    → IsMap n d
    → (t : TrieNode) × (build_trie n d ≡ some t)
      × Leads t d
      × SameElements (leaves t) (map (λ (e : BitsEntry). e.entry) d)
unfolding build_trie descend leaves
build_trie-Leads n [] h = (empty_node, refl, tt, λ p. refl)
build_trie-Leads n (e ∷ []) h = (leaf e.entry, refl, (refl, tt), λ p. refl)
build_trie-Leads zero (e ∷ f ∷ d) h =
    absurd (h.1.0 (no_bits f.bits h.2.0 ∙ sym (no_bits e.bits h.0)))
  where
    no_bits : (bs : List Bool) → length bs ≡ 0 → bs ≡ []
    no_bits [] l = refl
    no_bits (b ∷ bs) l = absurd (omega (arith, l))
build_trie-Leads (suc n) (e ∷ f ∷ d) h =
    let l = build_trie-Leads n (child false (e ∷ f ∷ d)) (child-IsMap false n (e ∷ f ∷ d) h) in
    let r = build_trie-Leads n (child true (e ∷ f ∷ d)) (child-IsMap true n (e ∷ f ∷ d) h) in
    (
      branch l.0 r.0,
      rw (l.1, r.1) refl,
      branch-Leads l.0 r.0 n (e ∷ f ∷ d) h l.2 r.2,
      λ p. omega (
        arith,
        count-append p (leaves l.0) (leaves r.0),
        l.3 p,
        r.3 p,
        count-child p n (e ∷ f ∷ d) h,
      ),
    )
