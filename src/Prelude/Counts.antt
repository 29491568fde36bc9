-- ===== src/Prelude/Counts.antt =====
-- Lists with the same elements: every test is passed by as many of one as of the other.
use tsjam.Prelude.Lists.{length, get_elem?, set, take, some_eq}
use Prim.Native.Nat.{ℕ, zero, suc, ◌+◌, ◌<◌, ◌≤◌}
use mathlib.Core.Path.{◌≡◌, refl, ap}
use mathlib.Core.Bool.{Bool, true, false}
use mathlib.Core.List.{List, [], ◌∷◌, ◌++◌}
use mathlib.Core.Option.{some}
use native.Mathlib.Omega.{arith}

abbrev pub one_if : Bool → ℕ
one_if true = 1
one_if false = 0

module _ {ℓ} {A : Type ℓ} where
  abbrev pub count : (A → Bool) → List A → ℕ
  count p [] = 0
  count p (x ∷ xs) = one_if (p x) + count p xs

  abbrev pub SameElements : List A → List A → Type ℓ
  SameElements xs ys = (p : A → Bool) → count p xs ≡ count p ys

module _ {ℓ} {A : Type ℓ} (p : A → Bool) where
  pub count-append : (xs ys : List A) → count p (xs ++ ys) ≡ count p xs + count p ys
  count-append [] ys = omega arith
  count-append (x ∷ xs) ys = omega (arith, count-append xs ys)

  pub count-take-suc :
      (l : ℕ) (s : List A) (y : A)
      → get_elem? s l ≡ some y
      → count p (take (suc l) s) ≡ count p (take l s) + one_if (p y)
  count-take-suc l [] y e = cc
  count-take-suc zero (x ∷ s) y e = let h = ap (λ z. one_if (p z)) (some_eq e) in omega (arith, h)
  count-take-suc (suc l) (x ∷ s) y e = omega (arith, count-take-suc l s y e)

  pub count-take-set :
      (l : ℕ) (s : List A) (i : ℕ) (x y : A)
      → i < l
      → get_elem? s i ≡ some x
      → count p (take l (set s i y)) + one_if (p x) ≡ count p (take l s) + one_if (p y)
  count-take-set zero s i x y h e = absurd (omega arith)
  count-take-set (suc l) [] i x y h e = cc
  count-take-set (suc l) (z ∷ s) zero x y h e =
      let g = ap (λ w. one_if (p w)) (some_eq e) in omega (arith, g)
  count-take-set (suc l) (z ∷ s) (suc i) x y h e =
      omega (arith, count-take-set l s i x y (omega arith) e)

module _ {ℓ} {A : Type ℓ} where
  -- A write behind the first elements leaves them.
  pub take-set : (l : ℕ) (s : List A) (i : ℕ) (y : A) → l ≤ i → take l (set s i y) ≡ take l s
  take-set zero s i y h = refl
  take-set (suc l) [] i y h = refl
  take-set (suc l) (z ∷ s) zero y h = absurd (omega arith)
  take-set (suc l) (z ∷ s) (suc i) y h = ap (λ t. z ∷ t) (take-set l s i y (omega arith))

  pub get_elem?_lt : (s : List A) (i : ℕ) → i < length s → (x : A) × (get_elem? s i ≡ some x)
  get_elem?_lt [] i h = absurd (omega arith)
  get_elem?_lt (x ∷ s) zero h = (x, refl)
  get_elem?_lt (x ∷ s) (suc i) h = get_elem?_lt s i (omega arith)

  pub all_counted : (xs : List A) → count (λ x. true) xs ≡ length xs
  all_counted [] = refl
  all_counted (x ∷ xs) = omega (arith, all_counted xs)

  pub same_length : (xs ys : List A) → SameElements xs ys → length xs ≡ length ys
  same_length xs ys h = omega (arith, all_counted xs, h (λ x. true), all_counted ys)

  pub take_all : (xs : List A) → take (length xs) xs ≡ xs
  take_all [] = refl
  take_all (x ∷ xs) = ap (λ t. x ∷ t) (take_all xs)
