-- ===== src/Prelude/Collections.antt =====
-- `filter`, `some` and `every` of the arrays of the source, with a test as a function to Bool.
use tsjam.Prelude.Tests.{if◌then◌else◌, Bool-cases}
use tsjam.Prelude.Lists.{length}
use Prim.Native.Nat.{suc, ◌≤◌}
use mathlib.Core.Path.{◌≡◌, refl, ap}
use mathlib.Core.Logic.{inl, inr}
use mathlib.Core.Bool.{Bool, true, false, ◌&&◌, ◌||◌}
use mathlib.Core.List.{List, [], ◌∷◌, ◌++◌, map}
use native.Mathlib.Omega.{arith}

module _ {ℓ} {A : Type ℓ} where
  abbrev pub filter : (A → Bool) → List A → List A
  filter p [] = []
  filter p (x ∷ xs) = if p x then x ∷ filter p xs else filter p xs

  abbrev pub any : (A → Bool) → List A → Bool
  any p [] = false
  any p (x ∷ xs) = p x || any p xs

  abbrev pub every : (A → Bool) → List A → Bool
  every p [] = true
  every p (x ∷ xs) = p x && every p xs

module _ {ℓ} {A : Type ℓ} (p : A → Bool) where
  pub any-append : (xs ys : List A) → any p (xs ++ ys) ≡ any p xs || any p ys
  any-append [] ys = refl
  any-append (x ∷ xs) ys = ground (arith, any-append xs ys)

  pub every-append : (xs ys : List A) → every p (xs ++ ys) ≡ every p xs && every p ys
  every-append [] ys = refl
  every-append (x ∷ xs) ys = ground (arith, every-append xs ys)

  pub any-filter : (q : A → Bool) (xs : List A) → any p (filter q xs) ≡ any (λ x. q x && p x) xs
  any-filter q [] = refl
  any-filter q (x ∷ xs) = ground (arith, any-filter q xs)

  pub any-map {κ} :
      {B : Type κ} (f : B → A) (xs : List B) → any p (map f xs) ≡ any (λ x. p (f x)) xs
  any-map f [] = refl
  any-map f (x ∷ xs) = ground (arith, any-map f xs)

  -- An element that passes the test.
  pub any→witness : (xs : List A) → any p xs ≡ true → (x : A) × (p x ≡ true)
  any→witness [] e = cc
  any→witness (x ∷ xs) e = elim (Bool-cases (p x)) [
    | inl h ↦ (x, h)
    | inr h ↦ any→witness xs (ground arith)
  ]

  -- Where every element passes one test and some element the other, one element passes both.
  pub every-any :
      (q : A → Bool) (xs : List A)
      → every p xs ≡ true
      → any q xs ≡ true
      → (x : A) × (p x ≡ true) × (q x ≡ true)
  every-any q [] h e = cc
  every-any q (x ∷ xs) h e = elim (Bool-cases (q x)) [
    | inr a ↦ every-any q xs (ground arith) (ground arith)
    | inl a ↦ elim (Bool-cases (p x)) [ inl b ↦ (x, b, a) | inr b ↦ absurd (ground arith) ]
  ]

  pub length-filter : (xs : List A) → length (filter p xs) ≤ length xs
  length-filter [] = omega arith
  length-filter (x ∷ xs) = ground (arith, length-filter xs)

pub length-map {ℓ κ} :
    {A : Type ℓ} {B : Type κ} (f : A → B) (xs : List A) → length (map f xs) ≡ length xs
length-map f [] = refl
length-map f (x ∷ xs) = ap suc (length-map f xs)
