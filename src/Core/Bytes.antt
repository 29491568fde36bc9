-- ===== src/Core/Bytes.antt =====
-- Byte arrays as keys: `Buffer.compare`, and the equality of arrays of one length.
use tsjam.Prelude.{
  ℕ, ◌≡◌, refl, arith, ◌⊎◌, inl, inr, Bool, true, false, ◌&&◌, ◌||◌, List, [], ◌∷◌, ltb, ◌==◌, ap,
  ◌∙◌, Bool-cases,
}

-- A byte array of the source: a hash, a key, a signature.
abbrev pub Bytes : Type 0
Bytes = List ℕ

-- `Buffer.compare(a, b) === 0`.
unfoldable pub bytes_eq : Bytes → Bytes → Bool
bytes_eq [] [] = true
bytes_eq [] (b ∷ bs) = false
bytes_eq (a ∷ as') [] = false
bytes_eq (a ∷ as') (b ∷ bs) = (a == b) && bytes_eq as' bs

-- `Buffer.compare(a, b) < 0`.
unfoldable pub bytes_lt : Bytes → Bytes → Bool
bytes_lt [] [] = false
bytes_lt [] (b ∷ bs) = true
bytes_lt (a ∷ as') [] = false
bytes_lt (a ∷ as') (b ∷ bs) = ltb a b || ((a == b) && bytes_lt as' bs)

pub bytes_eq_refl : (a : Bytes) → bytes_eq a a ≡ true
unfolding bytes_eq
bytes_eq_refl [] = refl
bytes_eq_refl (a ∷ as') = ground (arith, bytes_eq_refl as')

pub bytes_eq→eq : (a b : Bytes) → bytes_eq a b ≡ true → a ≡ b
unfolding bytes_eq
bytes_eq→eq [] [] e = refl
bytes_eq→eq [] (b ∷ bs) e = cc
bytes_eq→eq (a ∷ as') [] e = cc
bytes_eq→eq (a ∷ as') (b ∷ bs) e = ground (arith, bytes_eq→eq as' bs)

pub bytes_lt_irrefl : (a : Bytes) → bytes_lt a a ≡ false
unfolding bytes_lt
bytes_lt_irrefl [] = refl
bytes_lt_irrefl (a ∷ as') = ground (arith, bytes_lt_irrefl as')

pub bytes_lt_trans :
    (a b c : Bytes) → bytes_lt a b ≡ true → bytes_lt b c ≡ true → bytes_lt a c ≡ true
unfolding bytes_lt
bytes_lt_trans [] [] c p q = cc
bytes_lt_trans [] (b ∷ bs) [] p q = cc
bytes_lt_trans [] (b ∷ bs) (c ∷ cs) p q = refl
bytes_lt_trans (a ∷ as') [] c p q = cc
bytes_lt_trans (a ∷ as') (b ∷ bs) [] p q = cc
bytes_lt_trans (a ∷ as') (b ∷ bs) (c ∷ cs) p q = ground (arith, bytes_lt_trans as' bs cs)

-- Two arrays are in one of the orders, or equal.
pub bytes_total : (a b : Bytes) → (bytes_lt a b ≡ true) ⊎ ((a ≡ b) ⊎ (bytes_lt b a ≡ true))
unfolding bytes_lt
bytes_total [] [] = inr (inl refl)
bytes_total [] (b ∷ bs) = inl refl
bytes_total (a ∷ as') [] = inr (inr refl)
bytes_total (a ∷ as') (b ∷ bs) = elim (bytes_total as' bs) [
  | inl l ↦ ground arith
  | inr (inl e) ↦ ground arith
  | inr (inr g) ↦ ground arith
]

-- A key that comes before another is not that key.
pub lt-ne : (a b : Bytes) → bytes_lt a b ≡ true → bytes_eq a b ≡ false
lt-ne a b l = elim (Bool-cases (bytes_eq a b)) [
  | inr n ↦ n
  | inl e ↦ cc (bytes_lt_irrefl b, bytes_eq→eq a b e)
]

-- Equal arrays compare alike with a third one.
pub bytes_eq_cong : (a b v : Bytes) → bytes_eq a b ≡ true → bytes_eq a v ≡ bytes_eq b v
bytes_eq_cong a b v e = ap (λ x. bytes_eq x v) (bytes_eq→eq a b e)

pub bytes_eq_comm : (a b : Bytes) → bytes_eq a b ≡ bytes_eq b a
unfolding bytes_eq
bytes_eq_comm [] [] = refl
bytes_eq_comm [] (b ∷ bs) = refl
bytes_eq_comm (a ∷ as') [] = refl
bytes_eq_comm (a ∷ as') (b ∷ bs) = ground (arith, bytes_eq_comm as' bs)

-- Two arrays that equal a third one are equal.
pub bytes_eq_both :
    (a b v : Bytes) → bytes_eq a v ≡ true → bytes_eq b v ≡ true → bytes_eq a b ≡ true
bytes_eq_both a b v p q = bytes_eq_cong a v b p ∙ bytes_eq_comm v b ∙ q
