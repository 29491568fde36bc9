-- ===== src/Core/Assurances.antt =====
-- packages/jam-core/src/impls/extrinsics/assurances.ts: which validators hold their parts of the
-- reports that wait, and the reports that have become available.
pub mod Available
use tsjam.Prelude.{
  ℕ, zero, suc, ◌+◌, ◌*◌, Bool, true, false, not, ◌&&◌, ◌||◌, Option, none, some, ◌>>=◌, List, [],
  ◌∷◌, ◌++◌, map, length, get_or, if◌then◌else◌, leb, ltb, ◌==◌, every,
}
use tsjam.Prelude.Result.{Result, ok, err, check, ◌>>◌}
use tsjam.Codec.BitSequence.{bytes_for, encode_loop}
use tsjam.Core.Bytes.{Bytes, bytes_eq}
use tsjam.Core.Constants.{Constants, jam_available}
use tsjam.Core.Validators.{Validators, at}
use tsjam.Core.Disputes.Verdicts.{increasing}
use tsjam.Core.Reports.{WorkReport}
use tsjam.Core.Rho.{RhoElement}

-- `AssuranceExtrinsicImpl`. A bit 1 is true.
pub record Assurance : Type 0 where
  pub anchor_hash : Bytes
  pub bitstring : List Bool
  pub validator_index : ℕ
  pub signature : Bytes

-- `EAValidationError`
pub data EaValidationError : Type 0 where
  ea_too_many_validators : EaValidationError
  ea_validators_not_ordered_or_unique : EaValidationError
  ea_single_element_invalid : EaValidationError

-- A vote for a core; a bit past the end is undefined.
abbrev pub votes_for : ℕ → Assurance → Bool
votes_for core a = get_or a.bitstring core false

-- What a core has in the state; a core past the end has nothing.
abbrev pub element_at : List (Option RhoElement) → ℕ → Option RhoElement
element_at d_rho core = get_or d_rho core none

abbrev pub is_there {ℓ} : {A : Type ℓ} → Option A → Bool
is_there none = false
is_there (some a) = true

-- The loop of `isValid` over the cores: a bit is set only where a report is pending.
unfoldable pub only_pending : ℕ → ℕ → Assurance → List (Option RhoElement) → Bool
only_pending zero core a d_rho = true
only_pending (suc rounds) core a d_rho =
    (not (votes_for core a) || is_there (element_at d_rho core))
    && only_pending rounds (suc core) a d_rho

-- `nPositiveVotes`
unfoldable pub n_positive_votes : List Assurance → ℕ → ℕ
n_positive_votes [] core = 0
n_positive_votes (a ∷ elements) core =
    (if votes_for core a then 1 else 0) + n_positive_votes elements core

module _ (c : Constants) (blake2b : Bytes → Bytes)
    (verify_signature : Bytes → Bytes → Bytes → Bool) where
  -- `isSignatureValid`; `encodeWithCodec` gives as many bytes as the bits need.
  unfoldable pub is_signature_valid : Validators c → Bytes → Assurance → Bool
  is_signature_valid kappa header_parent a =
      let bits = map (λ b. if b then 1 else 0) a.bitstring in
      let bit_seq = encode_loop (bytes_for (length bits)) 0 bits in
      elim (at c kappa a.validator_index) [
        | err e ↦ false
        | ok validator ↦
            verify_signature a.signature validator.ed25519
              (jam_available ++ blake2b (header_parent ++ bit_seq))
      ]

  -- `isValid`
  unfoldable pub is_valid : Bytes → Validators c → List (Option RhoElement) → Assurance → Bool
  is_valid header_parent kappa d_rho a =
      not (leb c.number_of_validators a.validator_index)
      && (length a.bitstring == c.cores)
      && bytes_eq a.anchor_hash header_parent
      && only_pending c.cores 0 a d_rho
      && is_signature_valid kappa header_parent a

  -- `checkValidity`
  unfoldable pub check_validity :
      Bytes
      → Validators c
      → List (Option RhoElement)
      → List Assurance
      → Result EaValidationError (Unit {0})
  check_validity header_parent kappa d_rho elements =
      check (not (ltb c.number_of_validators (length elements))) ea_too_many_validators
      >> check (increasing (map (λ a. a.validator_index) elements))
          ea_validators_not_ordered_or_unique
      >> check (every (is_valid header_parent kappa d_rho) elements) ea_single_element_invalid

-- The loop of `newlyAvailableReports`, from a core on: none where a core without a report has the
-- votes, on which the source throws. `sum > n * 2 / 3` is `3 * sum > n * 2`.
unfoldable pub available_loop :
    ℕ → ℕ → ℕ → List Assurance → List (Option RhoElement) → Option (List WorkReport)
available_loop zero core n elements d_rho = some []
available_loop (suc rounds) core n elements d_rho =
    let rest = available_loop rounds (suc core) n elements d_rho in
    if ltb (n * 2) (3 * n_positive_votes elements core)
    then element_at d_rho core >>= (λ e. rest >>= (λ rs. some (e.work_report ∷ rs)))
    else rest

-- `newlyAvailableReports`
unfoldable pub newly_available_reports :
    Constants → List Assurance → List (Option RhoElement) → Option (List WorkReport)
newly_available_reports c elements d_rho =
    available_loop c.cores 0 c.number_of_validators elements d_rho
