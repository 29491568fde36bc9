-- ===== src/Core/Disputes/Safety/Disjoint.antt =====
-- A report stands in at most one of the sets good, bad and wonky.
use tsjam.Prelude.{
  ℕ, ◌≡◌, refl, sym, ap, ◌∙◌, arith, inl, inr, Bool, true, false, ◌&&◌, ◌||◌, List, [], ◌∷◌, ◌++◌,
  map, Bool-cases, All, any, any-append, any-map, any-filter, filter, subst,
}
use tsjam.Prelude.Result.{ok}
use tsjam.Core.Bytes.{Bytes, bytes_eq, bytes_eq→eq}
use tsjam.Core.Constants.{Constants}
use tsjam.Core.IdentitySet.{has, has-from_values}
use tsjam.Core.Validators.{Validators}
use tsjam.Core.Disputes.Types.{Verdict, Votes, Tally, DisputesState, DisputeExtrinsic}
use tsjam.Core.Disputes.Verdicts.{ascending, check_verdicts, votes, votes_of, count_votes}
use tsjam.Core.Disputes.Accused.{is_zero, is_one_third, is_two_third_plus_one}
use tsjam.Core.Disputes.State.{judged, posterior_sets}
use tsjam.Core.Disputes.Safety.Accepted.{IsFresh, IsAccepted, check_verdicts-IsAccepted}
use tsjam.Core.Disputes.Safety.Unique.{ascending_tail, has-ascending}

-- A verdict of one kind on the report.
abbrev pub verdict_on : (Votes → Bool) → List Tally → Bytes → Bool
verdict_on kind bold_v r = any (λ t. kind t.votes && bytes_eq t.report_hash r) bold_v

-- What a set of the posterior state has.
pub has-judged :
    (s : List Bytes) (kind : Votes → Bool) (bold_v : List Tally) (r : Bytes)
    → has (judged s kind bold_v) r ≡ has s r || verdict_on kind bold_v r
has-judged s kind bold_v r =
    has-from_values r (s ++ reports)
    ∙ any-append same s reports
    ∙ ap (λ b. has s r || b)
        (any-map same (λ (t : Tally). t.report_hash) chosen
          ∙ any-filter (λ (t : Tally). bytes_eq t.report_hash r) (λ t. kind t.votes) bold_v)
  where
    same : Bytes → Bool
    same x = bytes_eq x r

    chosen : List Tally
    chosen = filter (λ t. kind t.votes) bold_v

    reports : List Bytes
    reports = map (λ t. t.report_hash) chosen

module _ (c : Constants) where
  -- No verdict is on a report that the targets do not name.
  verdict_on_missing :
      (kind : Votes → Bool) (vs : List Verdict) (r : Bytes)
      → has (map (λ v. v.target) vs) r ≡ false
      → verdict_on kind (votes c vs) r ≡ false
  verdict_on_missing kind [] r h = refl
  verdict_on_missing kind (v ∷ vs) r h = ground (arith, verdict_on_missing kind vs r)

  -- No report has verdicts of two kinds.
  pub verdict_on_twice :
      (kind kind' : Votes → Bool)
      → ((w : Votes) → (kind w && kind' w) ≡ false)
      → (vs : List Verdict) (r : Bytes) → ascending (map (λ v. v.target) vs) ≡ true
      → (verdict_on kind (votes c vs) r && verdict_on kind' (votes c vs) r) ≡ false
  verdict_on_twice kind kind' apart [] r h = refl
  verdict_on_twice kind kind' apart (v ∷ vs) r h = elim (Bool-cases (bytes_eq v.target r)) [
    | inr differs ↦
        let rest =
          verdict_on_twice kind kind' apart vs r
            (ascending_tail v.target (map (λ u. u.target) vs) h) in
        ground (arith, rest)
    | inl same ↦
        let e : has (map (λ u. u.target) vs) r ≡ false =
          ap (λ x. has (map (λ (u : Verdict). u.target) vs) x) (sym (bytes_eq→eq v.target r same))
          ∙ has-ascending v.target (map (λ u. u.target) vs) h in
        ground (
          arith,
          verdict_on_missing kind vs r e,
          verdict_on_missing kind' vs r e,
          apart (votes_of c (count_votes v.judgements)),
        )
  ]

  -- A report with a verdict is in none of the old sets.
  pub verdict_on-IsFresh :
      (kind : Votes → Bool) (state : DisputesState) (vs : List Verdict) (r : Bytes)
      → All (IsAccepted c state) vs
      → verdict_on kind (votes c vs) r ≡ true
      → IsFresh state r
  verdict_on-IsFresh kind state [] r h e = cc
  verdict_on-IsFresh kind state (v ∷ vs) r h e = elim (Bool-cases (bytes_eq v.target r)) [
    | inr differs ↦ verdict_on-IsFresh kind state vs r h.1 (ground arith)
    | inl same ↦ subst (IsFresh state) (bytes_eq→eq v.target r same) h.0.0
  ]

-- The sets of the verdicts have no report in common.
abbrev pub IsDisjoint : DisputesState → Type 0
IsDisjoint state =
    (r : Bytes)
    → ((has state.good r && has state.bad r) ≡ false)
      × ((has state.good r && has state.wonky r) ≡ false)
      × ((has state.bad r && has state.wonky r) ≡ false)

-- Two sets that grow stay apart.
grown_apart :
    (a b va vb : Bool)
    → (a && b) ≡ false
    → (va && vb) ≡ false
    → (va ≡ true → b ≡ false)
    → (vb ≡ true → a ≡ false)
    → ((a || va) && (b || vb)) ≡ false
grown_apart a b va vb h hv ha hb = ground arith

good_bad : (w : Votes) → (is_two_third_plus_one w && is_zero w) ≡ false
good_bad w = ground arith

good_wonky : (w : Votes) → (is_two_third_plus_one w && is_one_third w) ≡ false
good_wonky w = ground arith

bad_wonky : (w : Votes) → (is_zero w && is_one_third w) ≡ false
bad_wonky w = ground arith

module _ (c : Constants) (verify : Bytes → Bytes → Bytes → Bool) where
  -- Verdicts that pass the checks keep the sets of good, of bad and of wonky reports pairwise
  -- disjoint, with any culprits and faults beside them.
  pub posterior_sets-IsDisjoint :
      (epoch_index : ℕ) (kappa lambda : Validators c) (state : DisputesState) (x : DisputeExtrinsic)
      → IsDisjoint state
      → check_verdicts c verify epoch_index kappa lambda state x.verdicts ≡ ok tt
      → IsDisjoint (posterior_sets c state x)
  unfolding posterior_sets
  posterior_sets-IsDisjoint epoch_index kappa lambda state x apart h r = (
    rw (has-judged state.good is_two_third_plus_one bold_v r, has-judged state.bad is_zero bold_v r)
        (grown_apart _ _ _ _ (apart r).0
          (verdict_on_twice c is_two_third_plus_one is_zero good_bad x.verdicts r asc)
          (λ e. (fresh is_two_third_plus_one e).1) (λ e. (fresh is_zero e).0)),
    rw
        (
          has-judged state.good is_two_third_plus_one bold_v r,
          has-judged state.wonky is_one_third bold_v r,
        )
        (grown_apart _ _ _ _ (apart r).1
          (verdict_on_twice c is_two_third_plus_one is_one_third good_wonky x.verdicts r asc)
          (λ e. (fresh is_two_third_plus_one e).2) (λ e. (fresh is_one_third e).0)),
    rw (has-judged state.bad is_zero bold_v r, has-judged state.wonky is_one_third bold_v r)
        (grown_apart _ _ _ _ (apart r).2
          (verdict_on_twice c is_zero is_one_third bad_wonky x.verdicts r asc)
          (λ e. (fresh is_zero e).2) (λ e. (fresh is_one_third e).1)),
  )
    where
      bold_v : List Tally
      bold_v = votes c x.verdicts

      accepted :
          (ascending (map (λ v. v.target) x.verdicts) ≡ true) × All (IsAccepted c state) x.verdicts
      accepted = check_verdicts-IsAccepted c verify epoch_index kappa lambda state x.verdicts h

      asc : ascending (map (λ v. v.target) x.verdicts) ≡ true
      asc = accepted.0

      fresh : (kind : Votes → Bool) → verdict_on kind bold_v r ≡ true → IsFresh state r
      fresh kind e = verdict_on-IsFresh c kind state x.verdicts r accepted.1 e
