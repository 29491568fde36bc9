-- ===== src/Core/Merkle/Peaks.antt =====
-- The peaks of a mountain range are the roots of perfect trees over its elements.
use tsjam.Prelude.{
  ℕ, zero, suc, ◌<◌, ◌≡◌, refl, sym, ap, ◌∙◌, arith, Option, none, some, List, [], ◌∷◌, ◌++◌,
  length, get_elem?, set,
}
use tsjam.Core.Bytes.{Bytes}
use tsjam.Core.Merkle.Mountains.{append_loop, append_mmr}

-- A tree of hashes.
pub data Mountain : Type 0 where
  summit : Bytes → Mountain
  join : Mountain → Mountain → Mountain

abbrev pub elements : Mountain → List Bytes
elements (summit h) = h ∷ []
elements (join l r) = elements l ++ elements r

-- All its elements are at one depth.
abbrev pub IsPerfect : ℕ → Mountain → Type 0
IsPerfect zero (summit h) = Unit {0}
IsPerfect (suc k) (summit h) = ⊥
IsPerfect zero (join l r) = ⊥
IsPerfect (suc k) (join l r) = IsPerfect k l × IsPerfect k r

module _ {A : Type 0} where
  append_assoc : (xs ys zs : List A) → (xs ++ ys) ++ zs ≡ xs ++ (ys ++ zs)
  append_assoc [] ys zs = refl
  append_assoc (x ∷ xs) ys zs = ap (λ us. x ∷ us) (append_assoc xs ys zs)

  get_elem?-past : (xs : List A) → get_elem? (xs ++ []) (length xs) ≡ none
  get_elem?-past [] = refl
  get_elem?-past (x ∷ xs) = get_elem?-past xs

  get_elem?-at :
      (xs : List A) (y : A) (ys : List A) → get_elem? (xs ++ (y ∷ ys)) (length xs) ≡ some y
  get_elem?-at [] y ys = refl
  get_elem?-at (x ∷ xs) y ys = get_elem?-at xs y ys

  set-at :
      (xs : List A) (y z : A) (ys : List A) → set (xs ++ (y ∷ ys)) (length xs) z ≡ xs ++ (z ∷ ys)
  set-at [] y z ys = refl
  set-at (x ∷ xs) y z ys = ap (λ us. x ∷ us) (set-at xs y z ys)

  append_nil : (xs : List A) → xs ++ [] ≡ xs
  append_nil [] = refl
  append_nil (x ∷ xs) = ap (λ us. x ∷ us) (append_nil xs)

  length-snoc : (xs : List A) (y : A) → length (xs ++ (y ∷ [])) ≡ suc (length xs)
  length-snoc [] y = refl
  length-snoc (x ∷ xs) y = ap suc (length-snoc xs y)

module _ (hash_fn : Bytes → Bytes) where
  abbrev pub root : Mountain → Bytes
  root (summit h) = h
  root (join l r) = hash_fn (root l ++ root r)

  -- From the height `k` on, the peaks are the roots of perfect trees, each as high as its position,
  -- whose elements are `xs`, those of the higher trees first.
  abbrev pub IsRange : ℕ → List (Option Bytes) → List Bytes → Type 0
  IsRange k [] xs = xs ≡ []
  IsRange k (none ∷ peeks) xs = IsRange (suc k) peeks xs
  IsRange k (some peek ∷ peeks) xs =
      (older : List Bytes) × (t : Mountain) × IsPerfect k t
      × (root t ≡ peek)
      × (xs ≡ older ++ elements t)
      × IsRange (suc k) peeks older

  -- The carry of an addition of one.
  abbrev carry : List (Option Bytes) → Bytes → List (Option Bytes)
  carry [] h = some h ∷ []
  carry (none ∷ peeks) h = some h ∷ peeks
  carry (some a ∷ peeks) h = none ∷ carry peeks (hash_fn (a ++ h))

  append_loop-carry :
      (rounds : ℕ) (lower peeks : List (Option Bytes)) (h : Bytes)
      → length peeks < rounds
      → append_loop hash_fn rounds (lower ++ peeks) h (length lower) ≡ some (lower ++ carry peeks h)
  unfolding append_loop
  append_loop-carry zero lower peeks h small = absurd (omega arith)
  append_loop-carry (suc rounds) lower [] h small =
      rw (append_loop, get_elem?-past lower)
        (ap (λ us. some (us ++ (some h ∷ []))) (append_nil lower))
  append_loop-carry (suc rounds) lower (none ∷ peeks) h small =
      rw (append_loop, get_elem?-at lower none peeks) (ap some (set-at lower none (some h) peeks))
  append_loop-carry (suc rounds) lower (some a ∷ peeks) h small =
      rw (append_loop, get_elem?-at lower (some a) peeks, set-at lower (some a) none peeks)
        (rw
          (
            append_assoc lower (none ∷ []) peeks,
            length-snoc lower none,
            append_assoc lower (none ∷ []) (carry peeks (hash_fn (a ++ h))),
          )
          at
          (append_loop-carry rounds (lower ++ (none ∷ [])) peeks (hash_fn (a ++ h)) (omega arith)))

  carry-IsRange :
      (k : ℕ) (peeks : List (Option Bytes)) (xs : List Bytes) (t : Mountain)
      → IsPerfect k t
      → IsRange k peeks xs
      → IsRange k (carry peeks (root t)) (xs ++ elements t)
  carry-IsRange k [] xs t perfect r = ([], t, perfect, refl, ap (λ ys. ys ++ elements t) r, refl)
  carry-IsRange k (none ∷ peeks) xs t perfect r = (xs, t, perfect, refl, refl, r)
  carry-IsRange k (some a ∷ peeks) xs t perfect (older, s, high, same, split, r) =
      let up = carry-IsRange (suc k) peeks older (join s t) (high, perfect) r in
      let e = ap (λ ys. ys ++ elements t) split ∙ append_assoc older (elements s) (elements t) in
      rw (e, sym same) up

  -- Where the peaks are the roots of perfect trees, each as high as its position, over a list of
  -- elements, the append of an element gives peaks that are again such roots, over the list with the
  -- element at its end.
  pub append_mmr-IsRange :
      (peeks : List (Option Bytes)) (xs : List Bytes) (new_peek : Bytes)
      → IsRange 0 peeks xs
      → (p_peeks : List (Option Bytes)) × (append_mmr hash_fn peeks new_peek ≡ some p_peeks)
        × IsRange 0 p_peeks (xs ++ (new_peek ∷ []))
  unfolding append_mmr
  append_mmr-IsRange peeks xs new_peek r = (
    carry peeks new_peek,
    append_loop-carry (suc (length peeks)) [] peeks new_peek (omega arith),
    carry-IsRange 0 peeks xs (summit new_peek) tt r,
  )
