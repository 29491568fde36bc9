-- ===== src/Core/Guarantors/ThreePerCore.antt =====
-- Every core has three validators.
use tsjam.Prelude.{
  ℕ, zero, suc, ◌+◌, ◌-◌, ◌*◌, ◌/◌, ◌%◌, ◌<◌, ◌≤◌, ◌≡◌, refl, sym, ap, ◌∙◌, arith, inl, inr, Bool,
  List, [], ◌∷◌, map, ◌==◌, Bool-cases, count, one_if, ltb, if◌then◌else◌,
}
use native.Mathlib.Nat.{mul-div-mul_left, add-mod-mod, mod-eq-sub-mod, mod-eq_of_lt}
use tsjam.Core.Guarantors.{numbers}

-- How many of the `n` numbers from `start` on pass a test.
module _ {A : Type 0} {B : Type 0} (f : A → B) where
  pub count-map : (p : B → Bool) (xs : List A) → count p (map f xs) ≡ count (λ x. p (f x)) xs
  count-map p [] = refl
  count-map p (x ∷ xs) = ap (λ n. one_if (p (f x)) + n) (count-map p xs)

-- Among consecutive numbers, one is `x`.
count_none : (start n x : ℕ) → x < start → count (λ i. i == x) (numbers start n) ≡ 0
count_none start zero x h = refl
count_none start (suc n) x h = ground (arith, count_none (suc start) n x (omega arith))

count_one : (start n x : ℕ) → start ≤ x → x < start + n → count (λ i. i == x) (numbers start n) ≡ 1
count_one start zero x h l = absurd (omega arith)
count_one start (suc n) x h l = elim (Bool-cases (start == x)) [
  | inl same ↦ rw same (ground (arith, count_none (suc start) n x (ground arith)))
  | inr differs ↦
      rw differs (ground (arith, count_one (suc start) n x (ground arith) (omega arith)))
]

-- A test of numbers below `n` may be replaced by one that agrees on them.
count_agree :
    (p q : ℕ → Bool) (start n : ℕ)
    → ((i : ℕ) → start ≤ i → i < start + n → p i ≡ q i)
    → count p (numbers start n) ≡ count q (numbers start n)
count_agree p q start zero h = refl
count_agree p q start (suc n) h =
    let e = ap one_if (h start (omega arith) (omega arith)) in
    let rest = count_agree p q (suc start) n (λ i a b. h i (omega arith) (omega arith)) in
    omega (arith, e, rest)

-- Three numbers in a row have one third.
count_thirds :
    (p : ℕ → Bool) (start n : ℕ)
    → count (λ i. p (i / 3)) (numbers (3 * start) (3 * n)) ≡ 3 * count p (numbers start n)
count_thirds p start zero = refl
count_thirds p start (suc n) =
    let e1 : 3 * suc n ≡ suc (suc (suc (3 * n))) = omega arith in
    let e2 : suc (suc (suc (3 * start))) ≡ 3 * suc start = omega arith in
    let a = ap (λ j. one_if (p j)) third_0 in
    let b = ap (λ j. one_if (p j)) third_1 in
    let d = ap (λ j. one_if (p j)) third_2 in
    let rest =
      ap (λ j. count (λ i. p (i / 3)) (numbers j (3 * n))) e2 ∙ count_thirds p (suc start) n in
    rw e1 (omega (arith, a, b, d, rest))
  where
    third_0 : 3 * start / 3 ≡ start
    third_0 = omega arith

    third_1 : suc (3 * start) / 3 ≡ start
    third_1 = omega arith

    third_2 : suc (suc (3 * start)) / 3 ≡ start
    third_2 = omega arith

-- A number below twice the modulus.
wrap : (m a : ℕ) → a < m + m → a % m ≡ (if ltb a m then a else a - m)
wrap m a h = elim (Bool-cases (ltb a m)) [
  | inl less ↦ rw less (grind arith)
  | inr more ↦ rw more (
      mod-eq-sub-mod {n = a} {m = m} (ground arith)
      ∙ mod-eq_of_lt {n = a - m} {m = m} (ground arith))
]

-- A residue below the modulus, moved by less than the modulus.
rotation_small :
    (cores r k x : ℕ)
    → x < cores
    → k < cores
    → r < cores
    → ((x + r) % cores == k) ≡ (x == (k + (cores - r)) % cores)
rotation_small cores r k x hx hk hr =
    rw (wrap cores (x + r) (omega arith), wrap cores (k + (cores - r)) (omega arith)) (ground arith)

-- The core `k` is the rotation of one core.
rotation_unique :
    (cores n k x : ℕ)
    → x < cores
    → k < cores
    → ((x + n) % cores == k) ≡ (x == (k + (cores - n % cores)) % cores)
rotation_unique cores n k x hx hk =
    let e : (x + n) % cores ≡ (x + n % cores) % cores = sym (add-mod-mod x n cores) in
    rw e (rotation_small cores (n % cores) k x hx hk (grind arith))

module _ (cores n k : ℕ) where
  -- A rotation of the numbers below the modulus has every number once.
  one_in_rotation : k < cores → count (λ x. (x + n) % cores == k) (numbers 0 cores) ≡ 1
  one_in_rotation hk =
      let from = (k + (cores - n % cores)) % cores in
      count_agree (λ x. (x + n) % cores == k) (λ x. x == from) 0 cores
        (λ x a b. rotation_unique cores n k x (omega arith) hk)
      ∙ count_one 0 cores from (omega arith) (grind arith)

  -- In the order that the shuffle starts from, the rotation gives every core three validators.
  pub three_in_order :
      k < cores
      → count
          (λ x. (x + n) % cores == k)
          (map (λ i. cores * i / (3 * cores)) (numbers 0 (3 * cores)))
        ≡ 3
  three_in_order hk =
      count-map (λ i. cores * i / (3 * cores)) (λ x. (x + n) % cores == k) (numbers 0 (3 * cores))
      ∙ count_agree (λ i. (cores * i / (3 * cores) + n) % cores == k)
          (λ i. (i / 3 + n) % cores == k) 0 (3 * cores)
          (λ i a b. ap (λ j. (j + n) % cores == k) (third i))
      ∙ count_thirds (λ x. (x + n) % cores == k) 0 cores
      ∙ ap (λ m. 3 * m) (one_in_rotation hk)
    where
      third : (i : ℕ) → cores * i / (3 * cores) ≡ i / 3
      third i =
          ap (λ d. cores * i / d) (omega arith) ∙ mul-div-mul_left {m = cores} i 3 (omega arith)
