-- ===== src/Core/Disputes/Verdicts.antt =====
-- extrinsics/disputes/verdicts.ts: the check of the verdicts, and what they vote.
use tsjam.Prelude.{
  ℕ, ◌+◌, ◌/◌, Bool, true, false, not, ◌&&◌, ◌||◌, List, [], ◌∷◌, ◌++◌, map, length, if◌then◌else◌,
  leb, ◌==◌, every,
}
use tsjam.Prelude.Result.{Result, ok, err, check, ◌>>◌}
use tsjam.Core.Bytes.{Bytes, bytes_lt}
use tsjam.Core.Constants.{Constants, jam_valid, jam_invalid}
use tsjam.Core.IdentitySet.{has}
use tsjam.Core.Validators.{Validators, at}
use tsjam.Core.Disputes.Types.{
  Judgement, Verdict, Votes, Tally, DisputesState, DisputesError, judgements_length,
  epoch_index_wrong, judgements_length_wrong, judgement_signature_wrong, judgements_wrong,
  verdicts_must_be_ordered_unique_by_hash, invalid_judgement_index, verdicts_in_psi_w,
  verdicts_in_psi_b, verdicts_in_psi_g, judgements_not_ordered, zero_votes, one_third,
  two_third_plus_one, other,
}

-- Every array comes strictly after the one before it.
unfoldable pub ascending : List Bytes → Bool
ascending [] = true
ascending (x ∷ []) = true
ascending (x ∷ y ∷ ys) = bytes_lt x y && ascending (y ∷ ys)

-- The loop on the indices of the judgements.
abbrev pub increasing : List ℕ → Bool
increasing [] = true
increasing (i ∷ []) = true
increasing (i ∷ j ∷ js) = not (leb j i) && increasing (j ∷ js)

-- The sum of the votes that are true.
abbrev pub count_votes : List Judgement → ℕ
count_votes [] = 0
count_votes (j ∷ js) = (if j.vote then 1 else 0) + count_votes js

module _ (c : Constants) where
  -- `nVotes` is one of the three numbers of votes.
  abbrev pub is_vote_count : ℕ → Bool
  is_vote_count n_votes =
      (n_votes == 0) || (n_votes == c.number_of_validators / 3) || (n_votes == c.minimum_validators)

-- The judgements, the reports and the votes as the checks of one epoch use them: `epoch_index` is
-- `tau.epochIndex()`, and `verify_signature` is Ed25519.
module _ (c : Constants) (verify_signature : Bytes → Bytes → Bytes → Bool) where
  -- `DisputeVerdictJudgementImpl.isSignatureValid`
  unfoldable pub is_signature_valid : Judgement → Bytes → Validators c → Bool
  is_signature_valid j target validator_set = elim (at c validator_set j.index) [
    | err e ↦ false
    | ok validator ↦
        verify_signature j.signature validator.ed25519
          ((if j.vote then jam_valid else jam_invalid) ++ target)
  ]

  -- `DisputeVerdictJudgementImpl.checkValidity`
  abbrev pub check_judgement : Judgement → Bytes → Validators c → Result DisputesError (Unit {0})
  check_judgement j target validator_set =
      check (not (leb c.number_of_validators j.index)) invalid_judgement_index
      >> check (is_signature_valid j target validator_set) judgement_signature_wrong

  -- `DisputeVerdictImpl.checkValidity`; `age === epochIndex() - 1` is `age + 1 = epochIndex()`.
  unfoldable pub check_verdict :
      ℕ → Validators c → Validators c → DisputesState → Verdict → Result DisputesError (Unit {0})
  check_verdict epoch_index kappa lambda state v =
      check (length v.judgements == c.minimum_validators) judgements_length
      >> check ((v.age == epoch_index) || (v.age + 1 == epoch_index)) epoch_index_wrong
      >> check (length v.judgements == c.minimum_validators) judgements_length_wrong
      >> check
          (every
            (λ j. is_signature_valid j v.target (if v.age == epoch_index then kappa else lambda))
            v.judgements)
          judgement_signature_wrong
      >> check (not (has state.good v.target)) verdicts_in_psi_g
      >> check (not (has state.bad v.target)) verdicts_in_psi_b
      >> check (not (has state.wonky v.target)) verdicts_in_psi_w
      >> check (increasing (map (λ j. j.index) v.judgements)) judgements_not_ordered
      >> check (is_vote_count c (count_votes v.judgements)) judgements_wrong

  -- The loop of `DisputesVerdicts.checkValidity` on the single verdicts.
  unfoldable pub check_each :
      ℕ
      → Validators c
      → Validators c
      → DisputesState
      → List Verdict
      → Result DisputesError (Unit {0})
  check_each epoch_index kappa lambda state [] = ok tt
  check_each epoch_index kappa lambda state (v ∷ vs) =
      let rest = check_each epoch_index kappa lambda state vs in
      check_verdict epoch_index kappa lambda state v >> rest

  -- `DisputesVerdicts.checkValidity`
  unfoldable pub check_verdicts :
      ℕ
      → Validators c
      → Validators c
      → DisputesState
      → List Verdict
      → Result DisputesError (Unit {0})
  check_verdicts epoch_index kappa lambda state vs =
      check (ascending (map (λ v. v.target) vs)) verdicts_must_be_ordered_unique_by_hash
      >> check_each epoch_index kappa lambda state vs

module _ (c : Constants) where
  -- The kind of a number of votes.
  unfoldable pub votes_of : ℕ → Votes
  votes_of n =
      if n == 0
      then zero_votes
      else if n == c.minimum_validators
      then two_third_plus_one
      else if n == c.number_of_validators / 3
      then one_third
      else other n

  -- `DisputesVerdicts.votes`
  abbrev pub tally : Verdict → Tally
  tally v = record { report_hash = v.target; votes = votes_of (count_votes v.judgements) }

  abbrev pub votes : List Verdict → List Tally
  votes vs = map tally vs
