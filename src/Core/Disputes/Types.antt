-- ===== src/Core/Disputes/Types.antt =====
-- The data of the disputes: disputes-state-impl.ts, extrinsics/disputes/{verdicts,culprits,faults}.ts
-- and extrinsics/disputes.ts of packages/jam-core/src/impls.
use tsjam.Prelude.{ℕ, Bool, List, []}
use tsjam.Core.Bytes.{Bytes}

pub record Judgement : Type 0 where
  pub vote : Bool
  pub index : ℕ
  pub signature : Bytes

pub record Verdict : Type 0 where
  pub target : Bytes
  pub age : ℕ
  pub judgements : List Judgement

pub record Culprit : Type 0 where
  pub target : Bytes
  pub key : Bytes
  pub signature : Bytes

pub record Fault : Type 0 where
  pub target : Bytes
  pub vote : Bool
  pub key : Bytes
  pub signature : Bytes

pub record DisputeExtrinsic : Type 0 where
  pub verdicts : List Verdict
  pub culprits : List Culprit
  pub faults : List Fault

-- `VerdictVoteKind | number`
pub data Votes : Type 0 where
  zero_votes : Votes
  one_third : Votes
  two_third_plus_one : Votes
  other : ℕ → Votes

-- An element of `bold_v`.
pub record Tally : Type 0 where
  pub report_hash : Bytes
  pub votes : Votes

pub record DisputesState : Type 0 where
  pub good : List Bytes
  pub bad : List Bytes
  pub wonky : List Bytes
  pub offenders : List Bytes

abbrev pub new_empty : DisputesState
new_empty = record { good = []; bad = []; wonky = []; offenders = [] }

-- `DisputesVerdictError`, `DisputesCulpritError` and `DisputesFaultError`: the extrinsic's check
-- gives an error of any of the three.
pub data DisputesError : Type 0 where
  judgements_length : DisputesError
  epoch_index_wrong : DisputesError
  judgements_length_wrong : DisputesError
  judgement_signature_wrong : DisputesError
  judgements_wrong : DisputesError
  verdicts_must_be_ordered_unique_by_hash : DisputesError
  invalid_judgement_index : DisputesError
  verdicts_in_psi_w : DisputesError
  verdicts_in_psi_b : DisputesError
  verdicts_in_psi_g : DisputesError
  judgements_not_ordered : DisputesError
  culprit_key_not_in_k : DisputesError
  culprit_signatures_wrong : DisputesError
  culprit_not_ordered_by_ed25519_public_key : DisputesError
  negative_verdicts_not_in_culprit : DisputesError
  fault_signatures_wrong : DisputesError
  fault_key_not_in_k : DisputesError
  faults_not_ordered_by_ed25519_public_key : DisputesError
  positive_verdicts_not_in_faults : DisputesError

-- The errors of `DisputesStateImpl.toPosterior`.
pub data DisputesToPosteriorError : Type 0 where
  culprit_not_in_psi_b : DisputesToPosteriorError
  valid_report_not_in_psi_b_or_in_psi_o : DisputesToPosteriorError
  invalid_report_in_psi_b_or_not_in_psi_o : DisputesToPosteriorError
