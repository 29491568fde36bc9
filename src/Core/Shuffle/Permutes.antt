-- ===== src/Core/Shuffle/Permutes.antt =====
-- The shuffle gives the elements of the array in another order.
use tsjam.Prelude.{
  ℕ, zero, suc, ◌+◌, ◌-◌, ◌%◌, ◌≤◌, ◌<◌, ◌≡◌, refl, sym, ap, ◌∙◌, arith, inl, inr, ◌⊎◌, some, List,
  [], ◌∷◌, length, get_elem?, set, take, length-set, count, SameElements, count-take-suc,
  count-take-set, take-set, get_elem?_lt, take_all, some_eq, Bool, one_if,
}
use tsjam.Codec.Buffer.{BigintBuffer}
use tsjam.Core.Bytes.{Bytes}
use tsjam.Core.Shuffle.{shuffle_loop, fisher_yates, q_loop, q, fisher_yates_h}

module _ {A : Type 0} where
  -- One step: the chosen element goes out, and the last one takes its place.
  swap_out :
      (p : A → Bool) (l i : ℕ) (s : List A) (x y : A)
      → i ≤ l
      → get_elem? s i ≡ some x
      → get_elem? s l ≡ some y
      → one_if (p x) + count p (take l (set s i y)) ≡ count p (take (suc l) s)
  swap_out p l i s x y h ex ey = elim (split l i h) [
    | inl less ↦ omega (arith, count-take-set p l s i x y less ex, count-take-suc p l s y ey)
    | inr same ↦
        let e1 = ap (count p) (take-set l s i y (omega arith)) in
        let e2 = ap (λ a. one_if (p a)) (some_eq (sym ex ∙ ap (get_elem? s) same ∙ ey)) in
        omega (arith, e1, e2, count-take-suc p l s y ey)
  ]
    where
      split : (l i : ℕ) → i ≤ l → (i < l) ⊎ (i ≡ l)
      split l i h = ground arith

  shuffle_loop-SameElements :
      (l n : ℕ) (sliced : List A) (entropies : List ℕ)
      → l ≤ length sliced
      → l ≤ n
      → n ≤ length entropies
      → (ys : List A) × (shuffle_loop l n sliced entropies ≡ some ys)
        × SameElements ys (take l sliced)
  unfolding shuffle_loop
  shuffle_loop-SameElements zero n sliced entropies hs hn he = ([], refl, λ p. refl)
  shuffle_loop-SameElements (suc l) n sliced entropies hs hn he =
      let entropy = get_elem?_lt entropies (n - suc l) (omega arith) in
      let i = entropy.0 % suc l in
      let small : i ≤ l = omega arith in
      let x = get_elem?_lt sliced i (omega arith) in
      let y = get_elem?_lt sliced l (omega arith) in
      let rest =
        shuffle_loop-SameElements l n (set sliced i y.0) entropies
          (omega (arith, length-set sliced i y.0)) (omega arith) he in
      (
        x.0 ∷ rest.0,
        rw (entropy.1, x.1, y.1, rest.1) refl,
        λ p. omega (arith, rest.2 p, swap_out p l i sliced x.0 y.0 small x.1 y.1),
      )

  -- The shuffle of an array is a permutation of it, where every element has an entropy.
  pub fisher_yates-SameElements :
      (arr : List A) (entropies : List ℕ)
      → length arr ≤ length entropies
      → (ys : List A) × (fisher_yates arr entropies ≡ some ys) × SameElements ys arr
  unfolding fisher_yates
  fisher_yates-SameElements arr entropies h =
      let r =
        shuffle_loop-SameElements (length arr) (length arr) arr entropies (omega arith)
          (omega arith) h in
      (r.0, r.1, λ p. r.2 p ∙ ap (count p) (take_all arr))

module _ (buffer : BigintBuffer) (blake2b : Bytes → Bytes) where
  length-q_loop :
      (rounds i : ℕ) (entropy hash : Bytes)
      → length (q_loop buffer blake2b rounds i entropy hash) ≡ rounds
  unfolding q_loop
  length-q_loop zero i entropy hash = refl
  length-q_loop (suc rounds) i entropy hash = ap suc (length-q_loop rounds (suc i) entropy _)

  -- The shuffle by a hash gives a permutation, of every array and for every hash function.
  pub fisher_yates_h-SameElements :
      {A : Type 0} (arr : List A) (entropy : Bytes)
      → (ys : List A) × (fisher_yates_h buffer blake2b arr entropy ≡ some ys) × SameElements ys arr
  unfolding fisher_yates_h q
  fisher_yates_h-SameElements arr entropy =
      fisher_yates-SameElements arr (q_loop buffer blake2b (length arr) 0 entropy [])
        (omega (arith, length-q_loop (length arr) 0 entropy []))
