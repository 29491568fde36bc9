-- ===== src/Core/Authorizers/Consumed.antt =====
-- A report uses up its authorizer, and the queue gives the core another one.
use tsjam.Prelude.{
  ℕ, zero, suc, ◌≤◌, ◌≡◌, refl, ap, ◌∙◌, arith, inl, inr, true, some, List, [], ◌∷◌, ◌++◌, length,
  length-append, take, Bool-cases, count-append, SameElements, one_if, same_length,
}
use tsjam.Core.Bytes.{Bytes, bytes_eq, bytes_eq→eq}
use tsjam.Core.IdentitySet.{has}
use tsjam.Core.Authorizers.{reverse, find_index, without, next_pool}

module _ {A : Type 0} where
  length-reverse : (xs : List A) → length (reverse xs) ≡ length xs
  length-reverse [] = refl
  length-reverse (x ∷ xs) = omega (arith, length-append (reverse xs) (x ∷ []), length-reverse xs)

  reverse-append : (xs : List A) (y : A) → reverse (xs ++ (y ∷ [])) ≡ y ∷ reverse xs
  reverse-append [] y = refl
  reverse-append (x ∷ xs) y = ap (λ zs. zs ++ (x ∷ [])) (reverse-append xs y)

  reverse-reverse : (xs : List A) → reverse (reverse xs) ≡ xs
  reverse-reverse [] = refl
  reverse-reverse (x ∷ xs) = reverse-append (reverse xs) x ∙ ap (λ zs. x ∷ zs) (reverse-reverse xs)

  take_short : (n : ℕ) (xs : List A) → length xs ≤ n → take n xs ≡ xs
  take_short zero [] h = refl
  take_short zero (x ∷ xs) h = absurd (omega arith)
  take_short (suc n) [] h = refl
  take_short (suc n) (x ∷ xs) h = ap (λ zs. x ∷ zs) (take_short n xs (omega arith))

  -- The last eight of at most eight elements.
  last_eight : (xs : List A) → length xs ≤ 8 → reverse (take 8 (reverse xs)) ≡ xs
  last_eight xs h =
      ap reverse (take_short 8 (reverse xs) (omega (arith, length-reverse xs))) ∙ reverse-reverse xs

find_index-there :
    (pool : List Bytes) (h : Bytes) → has pool h ≡ true → (i : ℕ) × (find_index pool h ≡ some i)
unfolding find_index
find_index-there [] h e = cc
find_index-there (x ∷ pool) h e = elim (Bool-cases (bytes_eq x h)) [
  | inl same ↦ (0, rw same refl)
  | inr differs ↦
      let rest = find_index-there pool h (ground arith) in (suc rest.0, rw (differs, rest.1) refl)
]

-- An authorizer of the pool has an index, and the rest of the pool is what is left.
without-SameElements :
    (pool : List Bytes) (h : Bytes) → has pool h ≡ true → SameElements (h ∷ without pool h) pool
unfolding without find_index
without-SameElements [] h e p = absurd (cc)
without-SameElements (x ∷ pool) h e p = elim (Bool-cases (bytes_eq x h)) [
  | inl same ↦
      let first = ap (λ y. one_if (p y)) (bytes_eq→eq x h same) in rw same (omega (arith, first))
  | inr differs ↦
      let there = find_index-there pool h (ground arith) in
      let rest = rw there.1 at (without-SameElements pool h (ground arith) p) in
      rw (differs, there.1) (omega (arith, rest))
]

-- A core whose report used an authorizer of its pool has one less of it and one more from the queue,
-- and at most eight.
pub next_pool-SameElements :
    (pool : List Bytes) (from_queue h : Bytes)
    → length pool ≤ 8
    → has pool h ≡ true
    → (length (next_pool pool from_queue (some h)) ≤ 8)
      × SameElements (h ∷ next_pool pool from_queue (some h)) (from_queue ∷ pool)
unfolding next_pool
next_pool-SameElements pool from_queue h small there =
    let same = without-SameElements pool h there in
    let size = same_length (h ∷ without pool h) pool same in
    let e =
      last_eight (without pool h ++ (from_queue ∷ []))
        (omega (arith, size, length-append (without pool h) (from_queue ∷ []))) in
    rw e (
      omega (arith, size, length-append (without pool h) (from_queue ∷ [])),
      λ p. omega (arith, same p, count-append p (without pool h) (from_queue ∷ [])),
    )
