-- ===== src/Core/Disputes/Accused.antt =====
-- extrinsics/disputes/culprits.ts and faults.ts: the check of the validators that are accused, and
-- extrinsics/disputes.ts: the check of the whole extrinsic.
use tsjam.Prelude.{
  ℕ, Bool, true, false, ◌++◌, List, map, length, if◌then◌else◌, leb, every, any, filter,
}
use tsjam.Prelude.Result.{Result, check, ◌>>◌}
use tsjam.Core.Bytes.{Bytes, bytes_eq}
use tsjam.Core.Constants.{Constants, jam_valid, jam_invalid, jam_guarantee}
use tsjam.Core.IdentitySet.{has, from_values, delete_all}
use tsjam.Core.Validators.{Validators, ed25519_keys}
use tsjam.Core.Disputes.Types.{
  Culprit, Fault, Votes, Tally, DisputesState, DisputesError, DisputeExtrinsic, zero_votes,
  one_third, two_third_plus_one, other, culprit_key_not_in_k, culprit_signatures_wrong,
  culprit_not_ordered_by_ed25519_public_key, negative_verdicts_not_in_culprit,
  fault_signatures_wrong, fault_key_not_in_k, faults_not_ordered_by_ed25519_public_key,
  positive_verdicts_not_in_faults,
}
use tsjam.Core.Disputes.Verdicts.{ascending, check_verdicts, votes}

-- `votes === VerdictVoteKind.ZERO` and the like.
abbrev pub is_zero : Votes → Bool
is_zero zero_votes = true
is_zero one_third = false
is_zero two_third_plus_one = false
is_zero (other n) = false

abbrev pub is_one_third : Votes → Bool
is_one_third zero_votes = false
is_one_third one_third = true
is_one_third two_third_plus_one = false
is_one_third (other n) = false

abbrev pub is_two_third_plus_one : Votes → Bool
is_two_third_plus_one zero_votes = false
is_two_third_plus_one one_third = false
is_two_third_plus_one two_third_plus_one = true
is_two_third_plus_one (other n) = false

module _ (c : Constants) where
  -- `bold_k`: the keys of the validators of this epoch and of the last, less the offenders.
  unfoldable pub accusable : Validators c → Validators c → DisputesState → List Bytes
  accusable kappa lambda state =
      delete_all (from_values (ed25519_keys kappa.elements ++ ed25519_keys lambda.elements))
        state.offenders

module _ (c : Constants) (verify_signature : Bytes → Bytes → Bytes → Bool) where
  -- `DisputeCulpritImpl.isSignatureValid`
  abbrev pub culprit_signed : Culprit → Bool
  culprit_signed x = verify_signature x.signature x.key (jam_guarantee ++ x.target)

  -- `DisputeFaultImpl.isSignatureValid`
  abbrev pub fault_signed : Fault → Bool
  fault_signed x =
      verify_signature x.signature x.key ((if x.vote then jam_valid else jam_invalid) ++ x.target)

  -- At least two of the culprits are of the report.
  abbrev pub has_two_culprits : List Culprit → Bytes → Bool
  has_two_culprits culprits report_hash =
      leb 2 (length (filter (λ x. bytes_eq x.target report_hash) culprits))

  -- `DisputesCulprits.checkValidity`
  unfoldable pub check_culprits :
      Validators c
      → Validators c
      → DisputesState
      → List Tally
      → List Culprit
      → Result DisputesError (Unit {0})
  check_culprits kappa lambda state bold_v culprits =
      let bold_k = accusable c kappa lambda state in
      check (every (λ x. has bold_k x.key) culprits) culprit_key_not_in_k
      >> check (every culprit_signed culprits) culprit_signatures_wrong
      >> check (ascending (map (λ x. x.key) culprits)) culprit_not_ordered_by_ed25519_public_key
      >> check
          (every (λ v. has_two_culprits culprits v.report_hash)
            (filter (λ v. is_zero v.votes) bold_v))
          negative_verdicts_not_in_culprit

  -- `DisputesFaults.checkValidity`
  unfoldable pub check_faults :
      Validators c
      → Validators c
      → DisputesState
      → List Tally
      → List Fault
      → Result DisputesError (Unit {0})
  check_faults kappa lambda state bold_v faults =
      let bold_k = accusable c kappa lambda state in
      check
        (every (λ v. any (λ f. bytes_eq f.target v.report_hash) faults)
          (filter (λ v. is_two_third_plus_one v.votes) bold_v))
        positive_verdicts_not_in_faults
      >> check (every (λ f. has bold_k f.key) faults) fault_key_not_in_k
      >> check (every fault_signed faults) fault_signatures_wrong
      >> check (ascending (map (λ f. f.key) faults)) faults_not_ordered_by_ed25519_public_key

  -- `DisputeExtrinsicImpl.checkValidity`
  unfoldable pub check_extrinsic :
      ℕ
      → Validators c
      → Validators c
      → DisputesState
      → DisputeExtrinsic
      → Result DisputesError (Unit {0})
  check_extrinsic epoch_index kappa lambda state x =
      check_verdicts c verify_signature epoch_index kappa lambda state x.verdicts
      >> check_culprits kappa lambda state (votes c x.verdicts) x.culprits
      >> check_faults kappa lambda state (votes c x.verdicts) x.faults
