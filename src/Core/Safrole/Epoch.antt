-- ===== src/Core/Safrole/Epoch.antt =====
-- gamma-p-impl.ts, kappa-impl.ts and lambda-impl.ts of packages/jam-core/src/impls: how the sets of
-- validators follow one another, and the entropy with them, over the blocks of a chain.
use tsjam.Prelude.{
  ℕ, ◌≡◌, refl, sym, ◌∙◌, arith, inl, inr, ◌⊎◌, true, false, List, [], ◌∷◌, All, if◌then◌else◌,
  Bool-cases, map, subst,
}
use tsjam.Core.Bytes.{Bytes}
use tsjam.Core.Constants.{Constants}
use tsjam.Core.IdentitySet.{has}
use tsjam.Core.Slot.{is_newer_era, epoch_index}
use tsjam.Core.Entropy.{JamEntropy, rotate1_3, mix_in}
use tsjam.Core.Validators.{Validators, ValidatorData, phi, nullify, new_empty}

-- The four sets of validators.
pub record EpochKeys (c : Constants) : Type 0 where
  pub iota : Validators c
  pub gamma_p : Validators c
  pub kappa : Validators c
  pub lambda : Validators c

module _ (c : Constants) where
  -- `GammaPImpl.toPosterior`
  unfoldable pub next_gamma_p : ℕ → ℕ → Validators c → Validators c → List Bytes → Validators c
  next_gamma_p slot p_tau iota gamma_p p_offenders =
      if is_newer_era c p_tau slot then phi c iota p_offenders else gamma_p

  -- `KappaImpl.toPosterior`
  unfoldable pub next_kappa : ℕ → ℕ → Validators c → Validators c → Validators c
  next_kappa slot p_tau gamma_p kappa = if is_newer_era c p_tau slot then gamma_p else kappa

  -- `LambdaImpl.toPosterior`
  unfoldable pub next_lambda : ℕ → ℕ → Validators c → Validators c → Validators c
  next_lambda slot p_tau kappa lambda = if is_newer_era c p_tau slot then kappa else lambda

-- No validator of a set is one of the offenders; the empty validator stands in their place.
abbrev pub WithoutOffenders : List Bytes → List ValidatorData → Type 0
WithoutOffenders offenders vs =
    All (λ (v : ValidatorData). (has offenders v.ed25519 ≡ false) ⊎ (v ≡ new_empty)) vs

phi-WithoutOffenders :
    (offenders : List Bytes) (vs : List ValidatorData)
    → WithoutOffenders offenders (map (nullify offenders) vs)
phi-WithoutOffenders offenders [] = tt
phi-WithoutOffenders offenders (v ∷ vs) = (first, phi-WithoutOffenders offenders vs)
  where
    first :
        (has offenders (nullify offenders v).ed25519 ≡ false) ⊎ (nullify offenders v ≡ new_empty)
    first = elim (Bool-cases (has offenders v.ed25519)) [
      | inl bad ↦ inr (rw bad refl)
      | inr good ↦ inl (rw good good)
    ]

-- The sets and the slot of the last block.
pub record Chain (c : Constants) : Type 0 where
  pub slot : ℕ
  pub keys : EpochKeys c
  pub eta : JamEntropy

-- What a block brings: its slot, its VRF output, and the offenders after it. The staging set iota is
-- the accumulation's to change.
pub record Block (c : Constants) : Type 0 where
  pub p_tau : ℕ
  pub vrf_output_hash : Bytes
  pub p_offenders : List Bytes
  pub p_iota : Validators c

module _ (c : Constants) (blake2b : Bytes → Bytes) where
  -- The posterior sets and entropy of a block.
  unfoldable pub apply_block : Chain c → Block c → Chain c
  apply_block s b = record {
    slot = b.p_tau;
    keys = record {
      iota = b.p_iota;
      gamma_p = next_gamma_p c s.slot b.p_tau s.keys.iota s.keys.gamma_p b.p_offenders;
      kappa = next_kappa c s.slot b.p_tau s.keys.gamma_p s.keys.kappa;
      lambda = next_lambda c s.slot b.p_tau s.keys.kappa s.keys.lambda;
    };
    eta = mix_in blake2b (rotate1_3 c s.eta s.slot b.p_tau) b.vrf_output_hash;
  }

  unfoldable pub apply_blocks : Chain c → List (Block c) → Chain c
  apply_blocks s [] = s
  apply_blocks s (b ∷ bs) = apply_blocks (apply_block s b) bs

  -- Every block is of the epoch.
  abbrev pub WithinEpoch : ℕ → List (Block c) → Type 0
  WithinEpoch epoch bs = All (λ (b : Block c). epoch_index c b.p_tau ≡ epoch) bs

  -- What stays the same while an epoch lasts: the active, the next and the last validators and the
  -- entropies that the seals, the tickets and the shuffles of an epoch take.
  abbrev pub SameEpoch : Chain c → Chain c → Type 0
  SameEpoch s t =
      (t.keys.gamma_p ≡ s.keys.gamma_p)
      × (t.keys.kappa ≡ s.keys.kappa)
      × (t.keys.lambda ≡ s.keys.lambda)
      × (t.eta.eta_1 ≡ s.eta.eta_1)
      × (t.eta.eta_2 ≡ s.eta.eta_2)
      × (t.eta.eta_3 ≡ s.eta.eta_3)

  not_newer :
      (slot p_tau : ℕ)
      → epoch_index c p_tau ≡ epoch_index c slot
      → is_newer_era c p_tau slot ≡ false
  unfolding is_newer_era
  not_newer slot p_tau e = ground arith

  one_block :
      (s : Chain c) (b : Block c)
      → epoch_index c b.p_tau ≡ epoch_index c s.slot
      → SameEpoch s (apply_block s b)
  unfolding apply_block next_gamma_p next_kappa next_lambda rotate1_3 mix_in
  one_block s b e = rw (not_newer s.slot b.p_tau e) (refl, refl, refl, refl, refl, refl)

  -- The sets and those entropies are fixed for all the blocks of one epoch.
  pub apply_blocks-SameEpoch :
      (s : Chain c) (bs : List (Block c))
      → WithinEpoch (epoch_index c s.slot) bs
      → SameEpoch s (apply_blocks s bs)
  unfolding apply_blocks apply_block
  apply_blocks-SameEpoch s [] h = (refl, refl, refl, refl, refl, refl)
  apply_blocks-SameEpoch s (b ∷ bs) h =
      let here = one_block s b h.0 in
      let rest = apply_blocks-SameEpoch (apply_block s b) bs (again h.0 h.1) in
      (
        rest.0 ∙ here.0,
        rest.1 ∙ here.1,
        rest.2 ∙ here.2,
        rest.3 ∙ here.3,
        rest.4 ∙ here.4,
        rest.5 ∙ here.5,
      )
    where
      again :
          epoch_index c b.p_tau ≡ epoch_index c s.slot
          → WithinEpoch (epoch_index c s.slot) bs
          → WithinEpoch (epoch_index c (apply_block s b).slot) bs
      again e w = subst (λ m. WithinEpoch m bs) (sym e) w

  -- The block that opens an epoch makes the pending validators active and takes the pending ones
  -- from the staging set without the offenders, so the validators of the next epoch that opens are
  -- no offenders of this block.
  pub kappa-WithoutOffenders :
      (s : Chain c) (opens : Block c) (bs : List (Block c)) (next : Block c)
      → is_newer_era c opens.p_tau s.slot ≡ true
      → WithinEpoch (epoch_index c opens.p_tau) bs
      → is_newer_era c next.p_tau (apply_blocks (apply_block s opens) bs).slot ≡ true
      → WithoutOffenders opens.p_offenders
          (apply_block (apply_blocks (apply_block s opens) bs) next).keys.kappa.elements
  unfolding apply_block next_kappa next_gamma_p phi
  kappa-WithoutOffenders s opens bs next first within later = rw later (
      subst (λ (vs : Validators c). WithoutOffenders opens.p_offenders vs.elements)
        (sym (apply_blocks-SameEpoch (apply_block s opens) bs within).0)
        (rw first (phi-WithoutOffenders opens.p_offenders s.keys.iota.elements)))
