-- ===== src/Core/Disputes/State.antt =====
-- `DisputesStateImpl.toPosterior` of disputes-state-impl.ts.
use tsjam.Prelude.{Bool, not, ◌&&◌, ◌++◌, List, [], ◌∷◌, map, if◌then◌else◌, filter, every}
use tsjam.Prelude.Result.{Result, ok, ◌>>◌, check}
use tsjam.Core.Bytes.{Bytes}
use tsjam.Core.Constants.{Constants}
use tsjam.Core.IdentitySet.{has, from_values}
use tsjam.Core.Disputes.Types.{
  Fault, Votes, Tally, DisputesState, DisputesToPosteriorError, DisputeExtrinsic,
  culprit_not_in_psi_b, valid_report_not_in_psi_b_or_in_psi_o,
  invalid_report_in_psi_b_or_not_in_psi_o,
}
use tsjam.Core.Disputes.Verdicts.{votes}
use tsjam.Core.Disputes.Accused.{is_zero, is_one_third, is_two_third_plus_one}

-- A set of `p_state`: the old one, and the reports with votes of one kind.
abbrev pub judged : List Bytes → (Votes → Bool) → List Tally → List Bytes
judged s kind bold_v =
    from_values (s ++ map (λ v. v.report_hash) (filter (λ v. kind v.votes) bold_v))

module _ (c : Constants) where
  -- `p_state`
  unfoldable pub posterior_sets : DisputesState → DisputeExtrinsic → DisputesState
  posterior_sets state x =
      let bold_v = votes c x.verdicts in
      record {
        good = judged state.good is_two_third_plus_one bold_v;
        bad = judged state.bad is_zero bold_v;
        wonky = judged state.wonky is_one_third bold_v;
        offenders =
            from_values
              (state.offenders ++ (map (λ x. x.key) x.culprits ++ map (λ x. x.key) x.faults));
      }

-- The loop on the faults: the first fault that contradicts the sets is the error.
abbrev pub check_fault : DisputesState → Fault → Result DisputesToPosteriorError (Unit {0})
check_fault p_state f =
    if f.vote
    then check (has p_state.bad f.target && not (has p_state.good f.target))
        valid_report_not_in_psi_b_or_in_psi_o
    else check (not (has p_state.bad f.target) && has p_state.good f.target)
        invalid_report_in_psi_b_or_not_in_psi_o

unfoldable pub check_all_faults :
    DisputesState → List Fault → Result DisputesToPosteriorError (Unit {0})
check_all_faults p_state [] = ok tt
check_all_faults p_state (f ∷ fs) =
    let rest = check_all_faults p_state fs in check_fault p_state f >> rest

module _ (c : Constants) where
  unfoldable pub to_posterior :
      DisputesState → DisputeExtrinsic → Result DisputesToPosteriorError DisputesState
  to_posterior state x =
      let p_state = posterior_sets c state x in
      check (every (λ x. has p_state.bad x.target) x.culprits) culprit_not_in_psi_b
      >> check_all_faults p_state x.faults
      >> ok p_state
