-- ===== src/Core/Disputes/Safety/Once.antt =====
-- A report is judged once: the verdicts of a block put their reports into the sets, and the checks
-- refuse a verdict on a report of the sets.
use tsjam.Prelude.{
  ℕ, ◌≡◌, refl, sym, arith, inl, inr, Bool, true, false, ◌&&◌, ◌||◌, List, [], ◌∷◌, map, Bool-cases,
  All, subst,
}
use tsjam.Prelude.Result.{ok, check_passed, >>-eq-ok, ok_eq}
use tsjam.Core.Bytes.{Bytes, bytes_eq, bytes_eq→eq}
use tsjam.Core.Constants.{Constants}
use tsjam.Core.IdentitySet.{has}
use tsjam.Core.Validators.{Validators}
use tsjam.Core.Disputes.Types.{
  Verdict, Votes, Tally, DisputesState, DisputeExtrinsic, zero_votes, one_third, two_third_plus_one,
  other,
}
use tsjam.Core.Disputes.Verdicts.{votes, votes_of, count_votes}
use tsjam.Core.Disputes.Accused.{is_zero, is_one_third, is_two_third_plus_one, check_extrinsic}
use tsjam.Core.Disputes.State.{posterior_sets, to_posterior}
use tsjam.Core.Disputes.Safety.Accepted.{
  IsFresh, IsAccepted, IsKind, check_verdicts-IsAccepted, check_verdicts-IsKind,
}
use tsjam.Core.Disputes.Safety.Disjoint.{verdict_on, has-judged}

-- The reports that an extrinsic has verdicts on.
abbrev pub targets : DisputeExtrinsic → List Bytes
targets x = map (λ v. v.target) x.verdicts

one_of_three :
    (w : Votes) → IsKind w → (is_two_third_plus_one w || is_zero w || is_one_third w) ≡ true
one_of_three zero_votes k = refl
one_of_three one_third k = refl
one_of_three two_third_plus_one k = refl
one_of_three (other n) k = absurd k

module _ (c : Constants) where
  -- A verdict on a report is of one of the three kinds.
  verdict_on_some :
      (vs : List Verdict) (r : Bytes)
      → All (λ (t : Tally). IsKind t.votes) (votes c vs)
      → has (map (λ v. v.target) vs) r ≡ true
      → (verdict_on is_two_third_plus_one (votes c vs) r
          || verdict_on is_zero (votes c vs) r
          || verdict_on is_one_third (votes c vs) r)
        ≡ true
  verdict_on_some [] r k h = cc
  verdict_on_some (v ∷ vs) r k h = elim (Bool-cases (bytes_eq v.target r)) [
    | inl same ↦ ground (arith, one_of_three (votes_of c (count_votes v.judgements)) k.0)
    | inr differs ↦ ground (arith, verdict_on_some vs r k.1 (ground arith))
  ]

  -- A report of a verdict that passes the checks is not fresh afterwards.
  targets-posterior_sets :
      (state : DisputesState) (x : DisputeExtrinsic) (r : Bytes)
      → All (λ (t : Tally). IsKind t.votes) (votes c x.verdicts)
      → has (targets x) r ≡ true
      → IsFresh (posterior_sets c state x) r
      → ⊥
  unfolding posterior_sets
  targets-posterior_sets state x r k h fresh =
      let bold_v = votes c x.verdicts in
      let some_kind = verdict_on_some x.verdicts r k h in
      let good = has-judged state.good is_two_third_plus_one bold_v r in
      let bad = has-judged state.bad is_zero bold_v r in
      let wonky = has-judged state.wonky is_one_third bold_v r in
      absurd (ground (arith, some_kind, good, bad, wonky, fresh))

targets-IsFresh :
    (c : Constants) (state : DisputesState) (vs : List Verdict) (r : Bytes)
    → All (IsAccepted c state) vs
    → has (map (λ v. v.target) vs) r ≡ true
    → IsFresh state r
targets-IsFresh c state [] r a h = cc
targets-IsFresh c state (v ∷ vs) r a h = elim (Bool-cases (bytes_eq v.target r)) [
  | inl same ↦ subst (IsFresh state) (bytes_eq→eq v.target r same) a.0.0
  | inr differs ↦ targets-IsFresh c state vs r a.1 (ground arith)
]

-- The state that the transition gives is the one of the sets.
pub to_posterior-posterior_sets :
    (c : Constants) (state p_state : DisputesState) (x : DisputeExtrinsic)
    → to_posterior c state x ≡ ok p_state
    → posterior_sets c state x ≡ p_state
unfolding to_posterior
to_posterior-posterior_sets c state p_state x h =
    let faults = >>-eq-ok _ _ (check_passed _ _ _ h).1 in ok_eq _ refl faults.1

module _ (c : Constants) (verify : Bytes → Bytes → Bytes → Bool) where
  -- Where an extrinsic passes its check and its transition gives a state, no extrinsic with a verdict
  -- on one of its reports passes the check at that state, with whatever epoch and validators.
  pub to_posterior_once :
      (epoch_index p_epoch_index : ℕ) (kappa lambda p_kappa p_lambda : Validators c)
      (state p_state : DisputesState) (x y : DisputeExtrinsic) (r : Bytes)
      → check_extrinsic c verify epoch_index kappa lambda state x ≡ ok tt
      → to_posterior c state x ≡ ok p_state
      → check_extrinsic c verify p_epoch_index p_kappa p_lambda p_state y ≡ ok tt
      → (has (targets x) r && has (targets y) r) ≡ false
  unfolding check_extrinsic
  to_posterior_once epoch_index p_epoch_index kappa lambda p_kappa p_lambda state p_state x y r hx
        moved hy =
      elim (Bool-cases (has (targets x) r)) [
        | inr none_here ↦ rw none_here refl
        | inl named ↦ elim (Bool-cases (has (targets y) r)) [
          | inr none_here ↦ ground arith
          | inl again ↦
              let kinds =
                check_verdicts-IsKind c verify epoch_index kappa lambda state x.verdicts
                  (>>-eq-ok _ _ hx).0 in
              let accepted =
                check_verdicts-IsAccepted c verify p_epoch_index p_kappa p_lambda p_state y.verdicts
                  (>>-eq-ok _ _ hy).0 in
              let fresh = targets-IsFresh c p_state y.verdicts r accepted.1 again in
              absurd (
                targets-posterior_sets c state x r kinds named (
                  subst (λ s. IsFresh s r)
                    (sym (to_posterior-posterior_sets c state p_state x moved)) fresh))
        ]
      ]
