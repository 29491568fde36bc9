-- ===== src/Core/Guarantors/Assigned.antt =====
-- The assignment of the guarantors: every core gets three of the validators.
use tsjam.Prelude.{
  ℕ, zero, suc, ◌+◌, ◌*◌, ◌/◌, ◌%◌, ◌<◌, ◌≡◌, refl, ap, ◌∙◌, arith, Bool, true, some, List, map,
  length, ◌==◌, count, SameElements, same_length, length-map,
}
use tsjam.Prelude.Int.{ℤ, pos, eq_ℤ, ◌+ℤ◌, ◌%ℤ◌}
use tsjam.Codec.Buffer.{BigintBuffer}
use tsjam.Core.Bytes.{Bytes}
use tsjam.Core.Constants.{Constants}
use tsjam.Core.Validators.{Validators, phi, ed25519_keys}
use tsjam.Core.Shuffle.{fisher_yates_h}
use tsjam.Core.Shuffle.Permutes.{fisher_yates_h-SameElements}
use tsjam.Core.Guarantors.{
  numbers, rotate, in_order, m_fn, permute, new_assignment, GuarantorsAssignment,
}
use tsjam.Core.Guarantors.ThreePerCore.{count-map, three_in_order}

length-numbers : (start n : ℕ) → length (numbers start n) ≡ n
length-numbers start zero = refl
length-numbers start (suc n) = ap suc (length-numbers (suc start) n)

count_ext :
    {A : Type 0} (p q : A → Bool) (xs : List A) → ((x : A) → p x ≡ q x) → count p xs ≡ count q xs
count_ext p q xs h = ap (λ f. count f xs) (λ i x. h x i)

rotated :
    (x n cores core : ℕ)
    → eq_ℤ ((pos x +ℤ pos n) %ℤ pos cores) (pos core) ≡ ((x + n) % cores == core)
rotated x n cores core =
    let e : pos x +ℤ pos n ≡ pos (x + n) = ground arith in
    ap (λ z. eq_ℤ (z %ℤ pos cores) (pos core)) e

-- The validators of a core in an assignment.
abbrev pub validators_of : ℕ → List ℤ → ℕ
validators_of core cores = count (λ x. eq_ℤ x (pos core)) cores

module _ (c : Constants) (buffer : BigintBuffer) (blake2b : Bytes → Bytes) where
  module _ (three : c.number_of_validators ≡ 3 * c.cores) where
    -- The assignment of a slot that is not negative always exists, and it gives every core exactly
    -- three validators, whatever the entropy and the hash function.
    pub m_fn-three :
        (entropy : Bytes) (slot : ℕ) (keys : Validators c) (p_offenders : List Bytes)
        → (g : GuarantorsAssignment) × (m_fn c buffer blake2b entropy (pos slot) keys p_offenders
            ≡ some g)
          × ((core : ℕ) → core < c.cores → validators_of core g.validators_assigned_core ≡ 3)
    unfolding m_fn permute new_assignment phi
    m_fn-three entropy slot keys p_offenders = (
      record { validators_assigned_core = cores; validators_ed25519_key = null_keys },
      rw (shuffled.1, size_cores, size_keys) refl,
      λ core h.
          count-map (λ x. (pos x +ℤ pos n) %ℤ pos c.cores) (λ x. eq_ℤ x (pos core)) shuffled.0
          ∙ count_ext _ (λ x. (x + n) % c.cores == core) shuffled.0 (λ x. rotated x n c.cores core)
          ∙ shuffled.2 (λ x. (x + n) % c.cores == core)
          ∙ ap
              (λ m.
                count (λ x. (x + n) % c.cores == core) (map (λ i. c.cores * i / m) (numbers 0 m)))
              three
          ∙ three_in_order c.cores n core h,
    )
      where
        shuffled :
            (ys : List ℕ) × (fisher_yates_h buffer blake2b (in_order c) entropy ≡ some ys)
            × SameElements ys (in_order c)
        shuffled = fisher_yates_h-SameElements buffer blake2b (in_order c) entropy

        n : ℕ
        n = slot % c.epoch_length / c.validator_core_rotation

        cores : List ℤ
        cores = rotate c shuffled.0 (pos n)

        null_keys : List Bytes
        null_keys = ed25519_keys (phi c keys p_offenders).elements

        size_cores : (length cores == c.number_of_validators) ≡ true
        size_cores = ground (
          arith,
          length-map (λ x. (pos x +ℤ pos n) %ℤ pos c.cores) shuffled.0,
          same_length shuffled.0 (in_order c) shuffled.2,
          length-map (λ i. c.cores * i / c.number_of_validators) (numbers 0 c.number_of_validators),
          length-numbers 0 c.number_of_validators,
        )

        size_keys : (length null_keys == c.number_of_validators) ≡ true
        size_keys = ground (
          arith,
          length-map (λ v. v.ed25519) (phi c keys p_offenders).elements,
          (phi c keys p_offenders).size,
        )
