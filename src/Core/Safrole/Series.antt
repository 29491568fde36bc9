-- ===== src/Core/Safrole/Series.antt =====
-- The series of seals has a seal for every slot of the epoch.
use tsjam.Prelude.{
  ℕ, zero, suc, ◌+◌, ◌-◌, ◌*◌, ◌/◌, ◌%◌, ◌<◌, ◌≡◌, refl, sym, ap, ◌∙◌, arith, inl, inr, true, false,
  some, List, [], ◌∷◌, ◌++◌, length, get_elem?, take, drop, All, map, count, SameElements,
  count-take-suc, get_elem?_lt, take_all, same_length, some_eq, Bool-cases, one_if,
}
use native.Mathlib.Nat.{mod-lt}
use tsjam.Codec.Buffer.{BigintBuffer, subarray}
use tsjam.Codec.Ints.{e_sub_decode}
use tsjam.Core.Bytes.{Bytes, bytes_eq, bytes_eq_refl}
use tsjam.Core.Constants.{Constants}
use tsjam.Core.IdentitySet.{has}
use tsjam.Core.Slot.{is_same_era}
use tsjam.Core.Validators.{Validators, ValidatorData}
use tsjam.Core.Safrole.Tickets.{Ticket}
use tsjam.Core.Safrole.Sealing.{
  sequencer_loop, outside_in_sequencer, GammaS, keys, tickets, fallback_loop, enough_tickets,
  next_series,
}

module _ {A : Type 0} where
  drop-suc : (t : List A) (i : ℕ) (x : A) → get_elem? t i ≡ some x → drop i t ≡ x ∷ drop (suc i) t
  drop-suc [] i x e = cc
  drop-suc (y ∷ t) zero x e = ap (λ z. z ∷ t) (some_eq e)
  drop-suc (y ∷ t) (suc i) x e = drop-suc t i x e

  get_elem?-drop : (t : List A) (i j : ℕ) → get_elem? (drop i t) j ≡ get_elem? t (i + j)
  get_elem?-drop t zero j = let e : j ≡ 0 + j = omega arith in ap (get_elem? t) e
  get_elem?-drop [] (suc i) j = refl
  get_elem?-drop (y ∷ t) (suc i) j =
      let e : suc (i + j) ≡ suc i + j = omega arith in
      get_elem?-drop t i j ∙ ap (get_elem? (y ∷ t)) e

  -- What is left of an array whose first and last elements are taken.
  sequencer_loop-SameElements :
      (rounds i n : ℕ) (t : List A)
      → n ≡ 2 * (i + rounds)
      → length t ≡ n
      → (ys : List A) × (sequencer_loop rounds i n t ≡ some ys)
        × SameElements ys (take (2 * rounds) (drop i t))
  unfolding sequencer_loop
  sequencer_loop-SameElements zero i n t hn ht = ([], refl, λ p. refl)
  sequencer_loop-SameElements (suc rounds) i n t hn ht =
      let a = get_elem?_lt t i (omega arith) in
      let b = get_elem?_lt t (n - i - 1) (omega arith) in
      let rest = sequencer_loop-SameElements rounds (suc i) n t (omega arith) ht in
      let last : get_elem? (drop (suc i) t) (2 * rounds) ≡ some b.0 =
        let e : suc i + 2 * rounds ≡ n - i - 1 = omega arith in
        get_elem?-drop t (suc i) (2 * rounds) ∙ ap (get_elem? t) e ∙ b.1 in
      (
        a.0 ∷ b.0 ∷ rest.0,
        rw (a.1, b.1, rest.1) refl,
        λ p.
            let e : count p (take (2 * suc rounds) (drop i t))
                ≡ one_if (p a.0) + count p (take (suc (2 * rounds)) (drop (suc i) t)) =
              ap (λ m. count p (take m (drop i t))) {x = 2 * suc rounds}
                {y = suc (suc (2 * rounds))} (omega arith)
              ∙ ap (λ s. count p (take (suc (suc (2 * rounds))) s)) (drop-suc t i a.0 a.1) in
            omega (arith, e, rest.2 p, count-take-suc p (2 * rounds) (drop (suc i) t) b.0 last),
      )

-- Every key is one of the validators'.
abbrev pub AllKeysOf : List ValidatorData → List Bytes → Type 0
AllKeysOf vs ks = All (λ k. has (map (λ (v : ValidatorData). v.bander_snatch) vs) k ≡ true) ks

has-elem :
    (vs : List ValidatorData) (i : ℕ) (v : ValidatorData)
    → get_elem? vs i ≡ some v
    → has (map (λ (u : ValidatorData). u.bander_snatch) vs) v.bander_snatch ≡ true
has-elem [] i v e = cc
has-elem (u ∷ vs) zero v e =
    let same : bytes_eq u.bander_snatch v.bander_snatch ≡ true =
      ap (λ (w : ValidatorData). bytes_eq u.bander_snatch w.bander_snatch) (sym (some_eq e))
      ∙ bytes_eq_refl u.bander_snatch in
    rw same refl
has-elem (u ∷ vs) (suc i) v e = ground (arith, has-elem vs i v e)

-- A series with a seal for every slot of an epoch.
abbrev pub IsSeries : Constants → GammaS → Type 0
IsSeries c (keys ks) = length ks ≡ c.epoch_length
IsSeries c (tickets ts) = length ts ≡ c.epoch_length

module _ (c : Constants) (buffer : BigintBuffer) (blake2b : Bytes → Bytes) where
  open buffer use {to_buffer_le}

  fallback_loop-AllKeysOf :
      (rounds i : ℕ) (vs : List ValidatorData) (eta : Bytes)
      → 0 < length vs
      → (ks : List Bytes) × (fallback_loop c buffer blake2b rounds i vs eta ≡ some ks)
        × (length ks ≡ rounds)
        × AllKeysOf vs ks
  unfolding fallback_loop
  fallback_loop-AllKeysOf zero i vs eta h = ([], refl, refl, tt)
  fallback_loop-AllKeysOf (suc rounds) i vs eta h =
      let index =
        (e_sub_decode buffer 4 (subarray (blake2b (eta ++ to_buffer_le i 4)) 0 4)).0 % length vs in
      let v = get_elem?_lt vs index (mod-lt _ h) in
      let rest = fallback_loop-AllKeysOf rounds (suc i) vs eta h in
      (
        v.0.bander_snatch ∷ rest.0,
        rw (v.1, rest.1) refl,
        ap suc rest.2,
        (has-elem vs index v.0 v.1, rest.3),
      )

  module _ (slot p_tau : ℕ) (gamma_a : List Ticket) (gamma_s : GammaS) (p_kappa : Validators c)
      (p_eta_2 : Bytes) where
    -- With enough tickets the series is a permutation of the accumulator.
    pub next_series-tickets :
        c.epoch_length % 2 ≡ 0
        → enough_tickets c buffer blake2b slot p_tau gamma_a ≡ true
        → (ts : List Ticket) × (next_series c buffer blake2b slot p_tau gamma_a gamma_s p_kappa
              p_eta_2
            ≡ some (tickets ts))
          × SameElements ts gamma_a
    unfolding next_series outside_in_sequencer
    next_series-tickets even enough =
        let size : length gamma_a ≡ c.epoch_length = ground arith in
        let r =
          sequencer_loop-SameElements ((c.epoch_length + 1) / 2) 0 c.epoch_length gamma_a
            (omega arith) size in
        let e : 2 * ((c.epoch_length + 1) / 2) ≡ length gamma_a = omega (arith, size) in
        (
          r.0,
          rw (enough, r.1) refl,
          λ p. r.2 p ∙ ap (λ m. count p (take m gamma_a)) e ∙ ap (count p) (take_all gamma_a),
        )

    -- In a later epoch without enough tickets, every seal is the key of a posterior validator.
    pub next_series-keys :
        0 < c.number_of_validators
        → enough_tickets c buffer blake2b slot p_tau gamma_a ≡ false
        → is_same_era c p_tau slot ≡ false
        → (ks : List Bytes) × (next_series c buffer blake2b slot p_tau gamma_a gamma_s p_kappa
              p_eta_2
            ≡ some (keys ks))
          × (length ks ≡ c.epoch_length)
          × AllKeysOf p_kappa.elements ks
    unfolding next_series
    next_series-keys some_validator few later =
        let r =
          fallback_loop-AllKeysOf c.epoch_length 0 p_kappa.elements p_eta_2
            (omega (arith, p_kappa.size)) in
        (r.0, rw (few, later, r.1) refl, r.2, r.3)

    -- Every block has a next series, and it has a seal for every slot of an epoch.
    pub next_series-IsSeries :
        c.epoch_length % 2 ≡ 0
        → 0 < c.number_of_validators
        → IsSeries c gamma_s
        → (g : GammaS) × (next_series c buffer blake2b slot p_tau gamma_a gamma_s p_kappa p_eta_2
            ≡ some g)
          × IsSeries c g
    unfolding next_series
    next_series-IsSeries even some_validator h =
        elim (Bool-cases (enough_tickets c buffer blake2b slot p_tau gamma_a)) [
          | inl enough ↦
              let r = next_series-tickets even enough in
              (tickets r.0, r.1, same_length r.0 gamma_a r.2 ∙ ground arith)
          | inr few ↦ elim (Bool-cases (is_same_era c p_tau slot)) [
            | inl same ↦ (gamma_s, rw (few, same) refl, h)
            | inr later ↦ let r = next_series-keys some_validator few later in (keys r.0, r.1, r.2)
          ]
        ]
