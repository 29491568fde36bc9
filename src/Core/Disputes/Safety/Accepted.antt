-- ===== src/Core/Disputes/Safety/Accepted.antt =====
-- What the check of the verdicts has established where it passes.
use tsjam.Prelude.{
  ℕ, ◌/◌, ◌≡◌, refl, arith, inl, inr, Bool, true, false, not, List, [], ◌∷◌, map, ◌==◌, Bool-cases,
  All,
}
use tsjam.Prelude.Result.{ok, check_passed, >>-eq-ok}
use tsjam.Core.Bytes.{Bytes}
use tsjam.Core.Constants.{Constants}
use tsjam.Core.IdentitySet.{has}
use tsjam.Core.Validators.{Validators}
use tsjam.Core.Disputes.Types.{
  Verdict, Votes, Tally, DisputesState, zero_votes, one_third, two_third_plus_one, other,
}
use tsjam.Core.Disputes.Verdicts.{
  ascending, check_verdict, check_each, check_verdicts, is_vote_count, count_votes, votes_of, votes,
}

-- The report has not been judged before.
abbrev pub IsFresh : DisputesState → Bytes → Type 0
IsFresh state r =
    (has state.good r ≡ false) × (has state.bad r ≡ false) × (has state.wonky r ≡ false)

abbrev pub IsAccepted : Constants → DisputesState → Verdict → Type 0
IsAccepted c state v = IsFresh state v.target × (is_vote_count c (count_votes v.judgements) ≡ true)

not-true : (b : Bool) → not b ≡ true → b ≡ false
not-true true h = cc
not-true false h = refl

module _ (c : Constants) (verify : Bytes → Bytes → Bytes → Bool) where
  module _ (epoch_index : ℕ) (kappa lambda : Validators c) (state : DisputesState) where
    check_verdict-IsAccepted :
        (v : Verdict)
        → check_verdict c verify epoch_index kappa lambda state v ≡ ok tt
        → IsAccepted c state v
    unfolding check_verdict
    check_verdict-IsAccepted v h = ((ground arith, ground arith, ground arith), ground arith)

    check_each-IsAccepted :
        (vs : List Verdict)
        → check_each c verify epoch_index kappa lambda state vs ≡ ok tt
        → All (IsAccepted c state) vs
    unfolding check_each
    check_each-IsAccepted [] h = tt
    check_each-IsAccepted (v ∷ vs) h =
        let parts = >>-eq-ok _ _ h in
        (check_verdict-IsAccepted v parts.0, check_each-IsAccepted vs parts.1)

    pub check_verdicts-IsAccepted :
        (vs : List Verdict)
        → check_verdicts c verify epoch_index kappa lambda state vs ≡ ok tt
        → (ascending (map (λ v. v.target) vs) ≡ true) × All (IsAccepted c state) vs
    unfolding check_verdicts
    check_verdicts-IsAccepted vs h =
        let parts = check_passed _ _ _ h in (parts.0, check_each-IsAccepted vs parts.1)

-- The type of `votes` for checked verdicts, which leaves out the other numbers.
abbrev pub IsKind : Votes → Type 0
IsKind zero_votes = Unit {0}
IsKind one_third = Unit {0}
IsKind two_third_plus_one = Unit {0}
IsKind (other n) = ⊥

module _ (c : Constants) where
  votes_of-IsKind : (n : ℕ) → is_vote_count c n ≡ true → IsKind (votes_of c n)
  unfolding votes_of
  votes_of-IsKind n h = elim (Bool-cases (n == 0)) [
    | inl z ↦ rw z tt
    | inr nz ↦ elim (Bool-cases (n == c.minimum_validators)) [
      | inl m ↦ rw (nz, m) tt
      | inr nm ↦ elim (Bool-cases (n == c.number_of_validators / 3)) [
        | inl t ↦ rw (nz, nm, t) tt
        | inr nt ↦ absurd (ground arith)
      ]
    ]
  ]

  votes-IsKind :
      (state : DisputesState) (vs : List Verdict)
      → All (IsAccepted c state) vs
      → All (λ (t : Tally). IsKind t.votes) (votes c vs)
  votes-IsKind state [] h = tt
  votes-IsKind state (v ∷ vs) h =
      (votes_of-IsKind (count_votes v.judgements) h.0.1, votes-IsKind state vs h.1)

module _ (c : Constants) (verify : Bytes → Bytes → Bytes → Bool) where
  -- The votes of verdicts that pass the checks are of the three kinds, never another number.
  pub check_verdicts-IsKind :
      (epoch_index : ℕ) (kappa lambda : Validators c) (state : DisputesState) (vs : List Verdict)
      → check_verdicts c verify epoch_index kappa lambda state vs ≡ ok tt
      → All (λ (t : Tally). IsKind t.votes) (votes c vs)
  check_verdicts-IsKind epoch_index kappa lambda state vs h =
      votes-IsKind c state vs
        (check_verdicts-IsAccepted c verify epoch_index kappa lambda state vs h).1
