-- ===== src/Tests/Disputes.antt =====
-- The disputes on concrete extrinsics, with the small constants.
use tsjam.Prelude.{
  ℕ, ◌≡◌, refl, Bool, true, false, ◌&&◌, ◌||◌, not, List, [], ◌∷◌, replicate, ◌⊎◌, All,
}
use tsjam.Prelude.Result.{ok}
use tsjam.Core.Bytes.{Bytes, bytes_lt, bytes_eq}
use tsjam.Core.Constants.{tiny}
use tsjam.Core.IdentitySet.{has, delete_all, from_values, add, delete}
use tsjam.Core.Validators.{Validators, ValidatorData, ed25519_keys}
use tsjam.Core.Disputes.Types.{Judgement, DisputeExtrinsic, DisputesState, Tally, new_empty}
use tsjam.Core.Disputes.Verdicts.{
  check_verdicts, votes, ascending, check_each, check_verdict, is_signature_valid, votes_of,
}
use tsjam.Core.Disputes.Accused.{check_extrinsic, check_culprits, accusable, check_faults}
use tsjam.Core.Disputes.State.{posterior_sets, to_posterior, check_all_faults}
use tsjam.Core.Disputes.Safety.Accepted.{IsKind, check_verdicts-IsKind}
use tsjam.Core.Disputes.Safety.Disjoint.{posterior_sets-IsDisjoint}
use tsjam.Core.Disputes.Safety.Punished.{
  offenders-posterior_sets, bad-HasTwoGuarantors, HasTwoGuarantors,
}
use tsjam.Core.Disputes.Safety.Once.{targets, to_posterior_once}

abbrev pub hash_of : ℕ → Bytes
hash_of n = replicate 32 n

abbrev pub validator : ℕ → ValidatorData
validator n = record {
  bander_snatch = hash_of (n);
  ed25519 = hash_of n;
  bls_key = replicate 144 n;
  metadata = replicate 128 n;
}

abbrev pub six_validators : Validators tiny
six_validators = record {
  elements = validator 1 ∷ validator 2 ∷ validator 3 ∷ validator 4 ∷ validator 5 ∷ validator 6 ∷ [];
  size = refl;
}

-- A signature scheme that takes every signature.
abbrev pub accept : Bytes → Bytes → Bytes → Bool
accept signature key message = true

abbrev judgement : Bool → ℕ → Judgement
judgement v i = record { vote = v; index = i; signature = [] }

abbrev all_vote : Bool → List Judgement
all_vote v = judgement v 0 ∷ judgement v 1 ∷ judgement v 2 ∷ judgement v 3 ∷ judgement v 4 ∷ []

-- A report that five validators call bad and two guaranteed, and one that five call good and one
-- called bad.
abbrev pub dispute : DisputeExtrinsic
dispute = record {
  verdicts =
      record { target = hash_of 7; age = 3; judgements = all_vote false }
      ∷ record { target = hash_of 8; age = 2; judgements = all_vote true }
      ∷ [];
  culprits =
      record { target = hash_of 7; key = hash_of 1; signature = [] }
      ∷ record { target = hash_of 7; key = hash_of 2; signature = [] }
      ∷ [];
  faults = record { target = hash_of 8; vote = false; key = hash_of 3; signature = [] } ∷ [];
}

dispute_verdicts :
    check_verdicts tiny accept 3 six_validators six_validators new_empty dispute.verdicts ≡ ok tt
unfolding check_verdicts ascending bytes_lt check_each check_verdict is_signature_valid
dispute_verdicts = refl

dispute_checked :
    check_extrinsic tiny accept 3 six_validators six_validators new_empty dispute ≡ ok tt
unfolding check_extrinsic check_verdicts ascending bytes_lt check_each check_verdict
    is_signature_valid check_culprits accusable delete_all from_values add bytes_eq votes_of
    check_faults
dispute_checked = refl

abbrev pub p_state : DisputesState
p_state = record {
  good = hash_of 8 ∷ [];
  bad = hash_of 7 ∷ [];
  wonky = [];
  offenders = hash_of 1 ∷ hash_of 2 ∷ hash_of 3 ∷ [];
}

dispute_posterior : to_posterior tiny new_empty dispute ≡ ok p_state
unfolding to_posterior posterior_sets from_values votes_of add bytes_eq check_all_faults
dispute_posterior = refl

posterior_sets-IsDisjoint_example :
    ((has (posterior_sets tiny new_empty dispute).good (hash_of 7)
        && has (posterior_sets tiny new_empty dispute).bad (hash_of 7))
      ≡ false)
    × ((has (posterior_sets tiny new_empty dispute).good (hash_of 7)
          && has (posterior_sets tiny new_empty dispute).wonky (hash_of 7))
        ≡ false)
    × ((has (posterior_sets tiny new_empty dispute).bad (hash_of 7)
          && has (posterior_sets tiny new_empty dispute).wonky (hash_of 7))
        ≡ false)
posterior_sets-IsDisjoint_example =
    posterior_sets-IsDisjoint tiny accept 3 six_validators six_validators new_empty dispute
      (λ r. (refl, refl, refl)) dispute_verdicts (hash_of 7)

check_verdicts-IsKind_example : All (λ (t : Tally). IsKind t.votes) (votes tiny dispute.verdicts)
check_verdicts-IsKind_example =
    check_verdicts-IsKind tiny accept 3 six_validators six_validators new_empty dispute.verdicts
      dispute_verdicts

third_accused : has (posterior_sets tiny new_empty dispute).offenders (hash_of 3) ≡ true
unfolding posterior_sets from_values add bytes_eq
third_accused = refl

offenders-posterior_sets_example :
    (has [] (hash_of 3) ≡ true)
    ⊎ (((has (ed25519_keys six_validators.elements) (hash_of 3)
            || has (ed25519_keys six_validators.elements) (hash_of 3))
          && not (has [] (hash_of 3)))
        ≡ true)
offenders-posterior_sets_example =
    offenders-posterior_sets tiny accept 3 six_validators six_validators new_empty dispute
      (hash_of 3) dispute_checked third_accused

seventh_bad : has (posterior_sets tiny new_empty dispute).bad (hash_of 7) ≡ true
unfolding posterior_sets from_values votes_of add bytes_eq
seventh_bad = refl

bad-HasTwoGuarantors_example :
    HasTwoGuarantors tiny accept six_validators six_validators new_empty dispute.culprits
      (hash_of 7)
bad-HasTwoGuarantors_example =
    bad-HasTwoGuarantors tiny accept 3 six_validators six_validators new_empty dispute (hash_of 7)
      dispute_checked refl seventh_bad

-- The next block judges another report, and passes its check.
abbrev next_dispute : DisputeExtrinsic
next_dispute = record {
  verdicts = record { target = hash_of 9; age = 3; judgements = all_vote false } ∷ [];
  culprits =
      record { target = hash_of 9; key = hash_of 4; signature = [] }
      ∷ record { target = hash_of 9; key = hash_of 5; signature = [] }
      ∷ [];
  faults = [];
}

next_checked :
    check_extrinsic tiny accept 3 six_validators six_validators p_state next_dispute ≡ ok tt
unfolding check_extrinsic check_verdicts ascending check_each check_verdict is_signature_valid
    bytes_eq check_culprits accusable delete_all delete from_values add bytes_lt votes_of
    check_faults
next_checked = refl

to_posterior_once_example :
    (has (targets dispute) (hash_of 7) && has (targets next_dispute) (hash_of 7)) ≡ false
to_posterior_once_example =
    to_posterior_once tiny accept 3 3 six_validators six_validators six_validators six_validators
      new_empty p_state dispute next_dispute (hash_of 7) dispute_checked dispute_posterior
      next_checked
